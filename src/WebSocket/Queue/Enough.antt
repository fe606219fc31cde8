-- ===== src/WebSocket/Queue/Enough.antt =====
-- ReadExact when the bytes come.
use pvr_dispatcharrai.Prelude.{
  ℕ, zero, suc, ◌+◌, ◌≤◌, ◌<◌, ◌≡◌, refl, sym, ap, subst, ◌∙◌, ltb, if_split, List, [], ◌∷◌, ◌++◌,
  drop, length, length-append, arith,
}
use pvr_dispatcharrai.Prelude.Text.{Text}
use pvr_dispatcharrai.WebSocket.{
  RecvEvent, received, readable, expired, select_failed, recv_failed, Socket, view, Read, got,
  stopped,
}
use pvr_dispatcharrai.WebSocket.Buffer.{
  next_chunk, buffered, fill_buffer, available, after_fill, wait_for, compact, consume, read_exact,
  pending, stream,
}
use pvr_dispatcharrai.WebSocket.Queue.{
  IsValid, AllGood, Reads, FillKeeps, fill_buffer-Keeps, length-view, read_exact-Reads,
}

abbrev ChunkGood : Read Text × List RecvEvent → Type 0
ChunkGood (got xs, rest) = AllGood rest
ChunkGood (stopped e, rest) = ⊥

next_chunk-Good :
    (es : List RecvEvent) → AllGood es → 0 < length (pending es) → ChunkGood (next_chunk es)
unfolding next_chunk pending
next_chunk-Good [] g h = omega arith
next_chunk-Good (received [] ∷ es) g h = g
next_chunk-Good (received (b ∷ bs) ∷ es) g h = g
next_chunk-Good (readable ∷ es) g h = next_chunk-Good es g h
next_chunk-Good (expired ∷ es) g h = g
next_chunk-Good (select_failed ∷ es) g h = g
next_chunk-Good (recv_failed ∷ es) g h = g

-- It comes to bytes, and the rounds to come stay good.
abbrev pub StaysGood : {A : Type 0} → Read A × Socket → Type 0
StaysGood (got a, t) = AllGood t.incoming
StaysGood (stopped e, t) = ⊥

buffered-Good :
    (s : Socket) (r : Read Text × List RecvEvent) → ChunkGood r → StaysGood (buffered r s)
unfolding buffered
buffered-Good s (got chunk, es) g = g
buffered-Good s (stopped e, es) g = g

length-stream : (s : Socket) → length (stream s) ≡ available s + length (pending s.incoming)
unfolding stream
length-stream s = omega (arith, length-append (view s) (pending s.incoming), length-view s)

fill_buffer-Good :
    (s : Socket) → AllGood s.incoming → available s < length (stream s) → StaysGood (fill_buffer s)
unfolding fill_buffer
fill_buffer-Good s g h =
    buffered-Good s (next_chunk s.incoming)
      (next_chunk-Good s.incoming g (omega (arith, length-stream s)))

after_fill-Good :
    (s : Socket) (r : Read (Unit {0}) × Socket) (again : Socket → Read (Unit {0}) × Socket)
    → FillKeeps s r
    → StaysGood r
    → ((t : Socket) → IsValid t → AllGood t.incoming → stream s ≡ stream t → StaysGood (again t))
    → StaysGood (after_fill r again)
unfolding after_fill
after_fill-Good s (got u, t) again h g k = k t h.0 g h.1
after_fill-Good s (stopped e, t) again h g k = g

wait_for-Good :
    (rounds len : ℕ) (s : Socket)
    → IsValid s
    → AllGood s.incoming
    → len ≤ length (stream s)
    → StaysGood (wait_for rounds len s)
unfolding wait_for
wait_for-Good zero len s v g h = g
wait_for-Good (suc rounds) len s v g h =
    if_split StaysGood (ltb (available s) len)
      {x = after_fill (fill_buffer s) (λ t. wait_for rounds len t)} {y = (got tt, s)}
      (λ short.
        after_fill-Good s (fill_buffer s) (λ t. wait_for rounds len t) (fill_buffer-Keeps s v)
          (fill_buffer-Good s g (ground arith))
          (λ t w good e. wait_for-Good rounds len t w good (subst (λ k. len ≤ length k) e h)))
      (λ enough. g)

compact-incoming : (s : Socket) → (compact s).incoming ≡ s.incoming
unfolding compact
compact-incoming s =
    if_split (λ t. t.incoming ≡ s.incoming) _
      {x = record s { recv_buffer = drop s.recv_pos s.recv_buffer; recv_pos = 0 }} {y = s}
      (λ h. refl) (λ h. refl)

consume-Good : (len : ℕ) (r : Read (Unit {0}) × Socket) → StaysGood r → StaysGood (consume len r)
unfolding consume
consume-Good len (got u, t) g =
    subst AllGood (sym (compact-incoming (record t { recv_pos = t.recv_pos + len }))) g
consume-Good len (stopped e, t) g = g

-- A connection that will give these bytes and has lost none.
abbrev pub Gives : Text → Socket → Type 0
Gives bytes s = IsValid s × AllGood s.incoming × (stream s ≡ bytes)

-- What a read comes to, and what is left.
abbrev pub Answers : {A : Type 0} → A → Text → Read A × Socket → Type 0
Answers a rest (got b, t) = (b ≡ a) × Gives rest t
Answers a rest (stopped e, t) = ⊥

split_at :
    (xs ys rest more : Text)
    → length xs ≡ length ys
    → xs ++ rest ≡ ys ++ more
    → (xs ≡ ys) × (rest ≡ more)
split_at [] [] rest more e h = (refl, h)
split_at [] (y ∷ ys) rest more e h = absurd (omega arith)
split_at (x ∷ xs) [] rest more e h = absurd (omega arith)
split_at (x ∷ xs) (y ∷ ys) rest more e h =
    let next = split_at xs ys rest more (omega arith) cc in
    (ap (λ k. x ∷ k) next.0 ∙ ap (λ k. k ∷ ys) {x = x} {y = y} cc, next.1)

answered :
    (bytes rest : Text) (s : Socket) (r : Read Text × Socket)
    → stream s ≡ bytes ++ rest
    → Reads (length bytes) s r
    → StaysGood r
    → Answers bytes rest r
answered bytes rest s (got xs, t) e h g =
    let both = split_at xs bytes (stream t) rest h.1 (sym h.2 ∙ e) in (both.0, (h.0, g, both.1))
answered bytes rest s (stopped x, t) e h g = g

-- If the network gives bytes and nothing else, and those to come begin with some, then ReadExact
-- of as many gives them, however they are cut into chunks, and leaves the others.
pub read_exact-Answers :
    (bytes rest : Text) (s : Socket)
    → Gives (bytes ++ rest) s
    → Answers bytes rest (read_exact (length bytes) s)
unfolding read_exact
read_exact-Answers bytes rest s h =
    let len = length bytes in
    answered bytes rest s (read_exact len s) h.2 (read_exact-Reads len s h.0) (
      consume-Good len (wait_for len len s) (
        wait_for-Good len len s h.0 h.1
          (subst (λ k. len ≤ length k) (sym h.2) (omega (arith, length-append bytes rest)))))
