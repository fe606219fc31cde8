-- ===== src/WebSocket/Queue.antt =====
-- ReadExact as a read from the queue of the bytes to come.
pub mod Enough
use pvr_dispatcharrai.Prelude.{
  ℕ, zero, suc, ◌+◌, ◌-◌, ◌*◌, ◌≤◌, ◌<◌, ◌≡◌, refl, sym, ap, subst, ◌∙◌, Bool, true, false, ◌&&◌,
  ltb, if_both, if_split, Bool-cases, inl, inr, List, [], ◌∷◌, ◌++◌, append-nil, append_assoc, drop,
  take, length, length-append, length-take, length-drop, drop-append, take-append-drop, drop-drop,
  arith, tests,
}
use pvr_dispatcharrai.Prelude.Text.{Text}
use pvr_dispatcharrai.WebSocket.{
  RecvEvent, received, readable, expired, select_failed, recv_failed, Socket, view, Stop, timed_out,
  failed, Read, got, stopped, Reader,
}
use pvr_dispatcharrai.WebSocket.Buffer.{
  next_chunk, buffered, fill_buffer, available, after_fill, wait_for, compact, consume, read_exact,
  pending, stream,
}

-- The read position is within the buffer.
abbrev pub IsValid : Socket → Type 0
IsValid s = s.recv_pos ≤ length s.recv_buffer

-- The network gives bytes, sooner or later, and nothing else.
abbrev pub AllGood : List RecvEvent → Type 0
AllGood [] = Unit {0}
AllGood (received [] ∷ es) = ⊥
AllGood (received (b ∷ bs) ∷ es) = AllGood es
AllGood (readable ∷ es) = AllGood es
AllGood (_ ∷ es) = ⊥

-- What is read, and the bytes that are still to come, make the bytes there were.
abbrev pub Keeps : Text → Read Text × Socket → Type 0
Keeps before (got xs, t) = IsValid t × (before ≡ xs ++ stream t)
Keeps before (stopped e, t) = IsValid t × (before ≡ stream t)

-- FillBuffer loses nothing.
abbrev ChunkKeeps : List RecvEvent → Read Text × List RecvEvent → Type 0
ChunkKeeps es (got xs, rest) = (0 < length xs) × (pending es ≡ xs ++ pending rest)
ChunkKeeps es (stopped e, rest) = pending es ≡ pending rest

after_readable :
    (es : List RecvEvent) (r : Read Text × List RecvEvent)
    → ChunkKeeps es r
    → ChunkKeeps (readable ∷ es) r
unfolding pending
after_readable es (got xs, rest) h = h
after_readable es (stopped e, rest) h = h

next_chunk-Keeps : (es : List RecvEvent) → ChunkKeeps es (next_chunk es)
unfolding next_chunk pending
next_chunk-Keeps [] = refl
next_chunk-Keeps (received [] ∷ es) = refl
next_chunk-Keeps (received (b ∷ bs) ∷ es) = (omega arith, refl)
next_chunk-Keeps (readable ∷ es) = after_readable es (next_chunk es) (next_chunk-Keeps es)
next_chunk-Keeps (expired ∷ es) = refl
next_chunk-Keeps (select_failed ∷ es) = refl
next_chunk-Keeps (recv_failed ∷ es) = refl

abbrev pub FillKeeps : Socket → Read (Unit {0}) × Socket → Type 0
FillKeeps s (got u, t) = IsValid t × (stream s ≡ stream t) × (available s < available t)
FillKeeps s (stopped e, t) = IsValid t × (stream s ≡ stream t)

view_more :
    (pos : ℕ) (buf chunk : Text)
    → pos ≤ length buf
    → drop pos (buf ++ chunk) ≡ drop pos buf ++ chunk
view_more pos buf chunk h =
    drop-append pos buf chunk
    ∙ ap (λ k. drop pos buf ++ drop k chunk) {x = pos - length buf} {y = 0} (omega arith)

stream_more :
    (s : Socket) (chunk : Text) (es : List RecvEvent)
    → IsValid s
    → pending s.incoming ≡ chunk ++ pending es
    → stream s ≡ stream (record s { recv_buffer = s.recv_buffer ++ chunk; incoming = es })
unfolding stream
stream_more s chunk es v h =
    ap (λ k. view s ++ k) h
    ∙ sym (append_assoc (view s) chunk (pending es))
    ∙ ap (λ k. k ++ pending es) (sym (view_more s.recv_pos s.recv_buffer chunk v))

buffered-Keeps :
    (s : Socket) (r : Read Text × List RecvEvent)
    → IsValid s
    → ChunkKeeps s.incoming r
    → FillKeeps s (buffered r s)
unfolding buffered stream
buffered-Keeps s (got chunk, es) v h = (
  omega (arith, length-append s.recv_buffer chunk),
  stream_more s chunk es v h.1,
  omega (arith, length-append s.recv_buffer chunk, h.0),
)
buffered-Keeps s (stopped e, es) v h = (v, ap (λ k. view s ++ k) h)

pub fill_buffer-Keeps : (s : Socket) → IsValid s → FillKeeps s (fill_buffer s)
unfolding fill_buffer
fill_buffer-Keeps s v = buffered-Keeps s (next_chunk s.incoming) v (next_chunk-Keeps s.incoming)

abbrev WaitKeeps : ℕ → Socket → Read (Unit {0}) × Socket → Type 0
WaitKeeps len s (got u, t) = IsValid t × (stream s ≡ stream t) × (len ≤ available t)
WaitKeeps len s (stopped e, t) = IsValid t × (stream s ≡ stream t)

wait_trans :
    (len : ℕ) (s t : Socket) (r : Read (Unit {0}) × Socket)
    → stream s ≡ stream t
    → WaitKeeps len t r
    → WaitKeeps len s r
wait_trans len s t (got u, w) e h = (h.0, e ∙ h.1, h.2)
wait_trans len s t (stopped x, w) e h = (h.0, e ∙ h.1)

after_fill-Keeps :
    (len : ℕ) (s : Socket) (r : Read (Unit {0}) × Socket)
    (again : Socket → Read (Unit {0}) × Socket)
    → FillKeeps s r
    → ((t : Socket) → IsValid t → available s < available t → WaitKeeps len t (again t))
    → WaitKeeps len s (after_fill r again)
unfolding after_fill
after_fill-Keeps len s (got u, t) again h k = wait_trans len s t (again t) h.1 (k t h.0 h.2)
after_fill-Keeps len s (stopped e, t) again h k = h

wait_for-Keeps :
    (rounds len : ℕ) (s : Socket)
    → IsValid s
    → len ≤ rounds + available s
    → WaitKeeps len s (wait_for rounds len s)
unfolding wait_for
wait_for-Keeps zero len s v h = (v, refl, omega arith)
wait_for-Keeps (suc rounds) len s v h =
    if_split (WaitKeeps len s) (ltb (available s) len)
      {x = after_fill (fill_buffer s) (λ t. wait_for rounds len t)} {y = (got tt, s)}
      (λ short.
        after_fill-Keeps len s (fill_buffer s) (λ t. wait_for rounds len t) (fill_buffer-Keeps s v)
          (λ t w more. wait_for-Keeps rounds len t w (omega arith)))
      (λ enough. (v, refl, ground arith))

compact-Keeps : (s : Socket) → IsValid s → IsValid (compact s) × (stream (compact s) ≡ stream s)
unfolding compact stream
compact-Keeps s v =
    if_both (λ t. IsValid t × (stream t ≡ stream s))
      (ltb 0 s.recv_pos && ltb (length s.recv_buffer) (s.recv_pos * 2))
      {x = record s { recv_buffer = drop s.recv_pos s.recv_buffer; recv_pos = 0 }} {y = s}
      (omega arith, refl) (v, refl)

-- The queue specification: `len` bytes off the front, or none.
abbrev pub Reads : ℕ → Socket → Read Text × Socket → Type 0
Reads len s (got xs, t) = IsValid t × (length xs ≡ len) × (stream s ≡ xs ++ stream t)
Reads len s (stopped e, t) = IsValid t × (stream s ≡ stream t)

taken_off :
    (len : ℕ) (t : Socket)
    → stream t ≡ take len (view t) ++ stream (record t { recv_pos = t.recv_pos + len })
unfolding stream
taken_off len t =
    ap (λ k. k ++ pending t.incoming)
      (sym (take-append-drop len (view t))
        ∙ ap (λ k. take len (view t) ++ k)
            (drop-drop len t.recv_pos t.recv_buffer
              ∙ ap (λ k. drop k t.recv_buffer) {x = len + t.recv_pos} {y = t.recv_pos + len}
                  (omega arith)))
    ∙ append_assoc (take len (view t)) (drop (t.recv_pos + len) t.recv_buffer) (pending t.incoming)

pub length-view : (t : Socket) → length (view t) ≡ available t
length-view t = length-drop t.recv_pos t.recv_buffer

consume-Reads :
    (len : ℕ) (s : Socket) (r : Read (Unit {0}) × Socket)
    → WaitKeeps len s r
    → Reads len s (consume len r)
unfolding consume
consume-Reads len s (got u, t) h =
    let after = record t { recv_pos = t.recv_pos + len } in
    let kept = compact-Keeps after (ground (arith, h.0, h.2)) in
    (
      kept.0,
      omega (arith, length-take len (view t), length-view t, h.2),
      h.1 ∙ taken_off len t ∙ ap (λ k. take len (view t) ++ k) (sym kept.1),
    )
consume-Reads len s (stopped e, t) h = h

-- ReadExact, from a valid buffer, keeps it valid. If it gives bytes, they are `len` of them and
-- the front of the bytes to come, buffered or not, and the others are still to come. If it ends
-- without bytes, no byte is lost. Where a byte is buffered, and when the buffer is compacted, is
-- not seen.
pub read_exact-Reads : (len : ℕ) (s : Socket) → IsValid s → Reads len s (read_exact len s)
unfolding read_exact
read_exact-Reads len s v =
    consume-Reads len s (wait_for len len s) (wait_for-Keeps len len s v (omega arith))

-- The buffer is at most twice what is not consumed.
abbrev pub IsCompacted : Read Text × Socket → Type 0
IsCompacted (got xs, t) = length t.recv_buffer ≤ 2 * available t
IsCompacted (stopped e, t) = Unit {0}

compact-bound : (s : Socket) → length (compact s).recv_buffer ≤ 2 * available (compact s)
unfolding compact
compact-bound s =
    if_split (λ t. length t.recv_buffer ≤ 2 * available t)
      (ltb 0 s.recv_pos && ltb (length s.recv_buffer) (s.recv_pos * 2))
      {x = record s { recv_buffer = drop s.recv_pos s.recv_buffer; recv_pos = 0 }} {y = s}
      (λ h. omega arith) (λ h. ground arith)

consume-IsCompacted : (len : ℕ) (r : Read (Unit {0}) × Socket) → IsCompacted (consume len r)
unfolding consume
consume-IsCompacted len (got u, t) = compact-bound (record t { recv_pos = t.recv_pos + len })
consume-IsCompacted len (stopped e, t) = tt

-- After a ReadExact that gives bytes, the receive buffer is at most twice as long as its bytes
-- that are not consumed, so that a long-lived connection does not let it grow.
pub read_exact-IsCompacted : (len : ℕ) (s : Socket) → IsCompacted (read_exact len s)
unfolding read_exact
read_exact-IsCompacted len s = consume-IsCompacted len (wait_for len len s)
