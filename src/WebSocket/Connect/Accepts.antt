-- ===== src/WebSocket/Connect/Accepts.antt =====
-- Connect: what stands when it returns, either way.
use pvr_dispatcharrai.Prelude.{
  ℕ, zero, suc, ◌+◌, ◌≡◌, refl, sym, ap, subst, ◌∙◌, Bool, true, false, ◌&&◌, ◌||◌, ◌⊎◌, inl, inr,
  map, if_split, Option, none, some, List, [], ◌++◌, append_assoc, take, drop, length, length-drop,
  drop-drop, arith,
}
use pvr_dispatcharrai.Prelude.Text.{Text, codes, find, starts_with, to_lower, contains}
use pvr_dispatcharrai.Prelude.Find.{Splits, find-Splits, starts_with-split}
use pvr_dispatcharrai.WebSocket.{RecvEvent, SendEvent, Socket, view, Read, got, stopped}
use pvr_dispatcharrai.WebSocket.Buffer.{next_chunk, buffered, fill_buffer, pending, stream}
use pvr_dispatcharrai.WebSocket.Queue.{IsValid, FillKeeps, fill_buffer-Keeps}
use pvr_dispatcharrai.WebSocket.Send.{random_bytes, send_all}
use pvr_dispatcharrai.WebSocket.Connect.{
  close, dialled, Target, blank_line, after_header_fill, found_header, read_header, is_upgrade,
  after_header, after_request, handshake, connect,
}

-- No connection, and nothing is buffered.
abbrev pub IsClosed : Socket → Type 0
IsClosed s = (s.connected ≡ false) × (s.recv_buffer ≡ []) × (s.recv_pos ≡ 0)

close-IsClosed : (s : Socket) → IsClosed (close s)
unfolding close
close-IsClosed s = (refl, refl, refl)

-- The bytes are a header, the blank line, and what is still to come.
abbrev pub Leaves : Text → Text → Socket → Type 0
Leaves before header t =
    IsValid t × (t.connected ≡ true) × (before ≡ header ++ (blank_line ++ stream t))

abbrev HeaderOf : Text → Option Text × Socket → Type 0
HeaderOf before (some header, t) = Leaves before header t
HeaderOf before (none, t) = IsClosed t

buffered-connected :
    (s : Socket) (r : Read Text × List RecvEvent) → (buffered r s).1.connected ≡ s.connected
unfolding buffered
buffered-connected s (got chunk, es) = refl
buffered-connected s (stopped e, es) = refl

fill_buffer-connected : (s : Socket) → (fill_buffer s).1.connected ≡ s.connected
unfolding fill_buffer
fill_buffer-connected s = buffered-connected s (next_chunk s.incoming)

after_blank : (n p : ℕ) (buf : Text) → drop 4 (drop n (drop p buf)) ≡ drop (p + (n + 4)) buf
after_blank n p buf =
    ap (λ k. drop 4 k) (drop-drop n p buf)
    ∙ drop-drop 4 (n + p) buf
    ∙ ap (λ k. drop k buf) {x = 4 + (n + p)} {y = p + (n + 4)} (omega arith)

found_header-HeaderOf :
    (o : Option ℕ) (s : Socket) (more : Option Text × Socket)
    → IsValid s
    → s.connected ≡ true
    → Splits (view s) blank_line o
    → HeaderOf (stream s) more
    → HeaderOf (stream s) (found_header o s more)
unfolding found_header stream
found_header-HeaderOf none s more v c h k = k
found_header-HeaderOf (some n) s more v c h k =
    let rest = drop 4 (drop n (view s)) in
    let ahead = pending s.incoming in
    (
      omega (arith, v, h.1, length-drop n (view s), length-drop s.recv_pos s.recv_buffer),
      c,
      ap (λ r. r ++ ahead) h.0
          ∙ append_assoc (take n (view s)) (blank_line ++ rest) ahead
          ∙ ap (λ r. take n (view s) ++ (blank_line ++ (r ++ ahead)))
              (after_blank n s.recv_pos s.recv_buffer),
    )

after_header_fill-HeaderOf :
    (s : Socket) (r : Read (Unit {0}) × Socket) (again : Socket → Option Text × Socket)
    → FillKeeps s r
    → r.1.connected ≡ true
    → ((t : Socket) → IsValid t → t.connected ≡ true → HeaderOf (stream t) (again t))
    → HeaderOf (stream s) (after_header_fill r again)
unfolding after_header_fill
after_header_fill-HeaderOf s (got u, t) again h c k =
    subst (λ b. HeaderOf b (again t)) (sym h.1) (k t h.0 c)
after_header_fill-HeaderOf s (stopped e, t) again h c k = close-IsClosed t

read_header-HeaderOf :
    (n : ℕ) (s : Socket) → IsValid s → s.connected ≡ true → HeaderOf (stream s) (read_header n s)
unfolding read_header
read_header-HeaderOf zero s v c = close-IsClosed s
read_header-HeaderOf (suc n) s v c =
    found_header-HeaderOf (find (view s) blank_line) s
      (after_header_fill (fill_buffer s) (λ t. read_header n t)) v c
      (find-Splits (view s) blank_line)
      (after_header_fill-HeaderOf s (fill_buffer s) (λ t. read_header n t) (fill_buffer-Keeps s v)
        (fill_buffer-connected s ∙ c) (λ t w d. read_header-HeaderOf n t w d))

-- `needle` stands somewhere in `t`.
abbrev pub Within : Text → Text → Type 0
Within needle t = (before : Text) × (after : Text) × (t ≡ before ++ (needle ++ after))

abbrev pub Begins : Text → Text → Type 0
Begins p t = (after : Text) × (t ≡ p ++ after)

-- The header, in lower case, has the code 101 between spaces somewhere, or begins with a status line
-- of that code, and has the `upgrade: websocket` field somewhere.
abbrev pub Accepted : Text → Type 0
Accepted header =
    let lower = map to_lower header in
    (Within (codes " 101 ") lower
      ⊎ (Begins (codes "http/1.1 101") lower ⊎ Begins (codes "http/1.0 101") lower))
    × Within (codes "upgrade: websocket") lower

contains-Within : (t needle : Text) → contains t needle ≡ true → Within needle t
contains-Within t needle h = go (find t needle) (find-Splits t needle) h
  where
    go :
        (o : Option ℕ)
        → Splits t needle o
        → (elim o [ none ↦ false | some i ↦ true ]) ≡ true
        → Within needle t
    go none h k = absurd (cc)
    go (some n) h k = (take n t, drop (length needle) (drop n t), h.0)

starts_with-Begins : (t p : Text) → starts_with t p ≡ true → Begins p t
starts_with-Begins t p h = (drop (length p) t, (starts_with-split t p h).0)

one_of : (a b : Bool) → (a || b) ≡ true → (a ≡ true) ⊎ (b ≡ true)
one_of true b h = inl refl
one_of false b h = inr h

each_of : (a b : Bool) → (a && b) ≡ true → (a ≡ true) × (b ≡ true)
each_of true b h = (refl, h)
each_of false b h = absurd (cc)

is_upgrade-Accepted : (header : Text) → is_upgrade header ≡ true → Accepted header
unfolding is_upgrade
is_upgrade-Accepted header e =
    let lower = map to_lower header in
    let in_code = contains lower (codes " 101 ") in
    let new_line = starts_with lower (codes "http/1.1 101") in
    let old_line = starts_with lower (codes "http/1.0 101") in
    let parts =
      each_of (in_code || new_line || old_line) (contains lower (codes "upgrade: websocket")) e in
    (
      elim (one_of (in_code || new_line) old_line parts.0) [
        | inl h ↦ elim (one_of in_code new_line h) [
          | inl k ↦ inl (contains-Within lower (codes " 101 ") k)
          | inr k ↦ inr (inl (starts_with-Begins lower (codes "http/1.1 101") k))
        ]
        | inr h ↦ inr (inr (starts_with-Begins lower (codes "http/1.0 101") h))
      ],
      contains-Within lower (codes "upgrade: websocket") parts.1,
    )

-- An accepted header came first, and what follows it is still to come; or all is closed.
abbrev pub Opened : Text → Bool × Socket → Type 0
Opened before (true, t) = (header : Text) × Accepted header × Leaves before header t
Opened before (false, t) = IsClosed t

after_header-Opened :
    (before : Text) (r : Option Text × Socket) → HeaderOf before r → Opened before (after_header r)
unfolding after_header
after_header-Opened before (none, t) h = h
after_header-Opened before (some header, t) h =
    if_split (Opened before) (is_upgrade header) {x = (true, t)} {y = (false, close t)}
      (λ e. (header, is_upgrade-Accepted header e, h)) (λ e. close-IsClosed t)

after_request-Opened :
    (r : Bool × Socket) → IsValid r.1 → r.1.connected ≡ true → Opened (stream r.1) (after_request r)
unfolding after_request
after_request-Opened (true, s) v c =
    let n = suc (length s.incoming) in
    after_header-Opened (stream s) (read_header n s) (read_header-HeaderOf n s v c)
after_request-Opened (false, s) v c = close-IsClosed s

handshake-Opened :
    (d : Target) (s : Socket) → IsValid s → s.connected ≡ true → Opened (stream s) (handshake d s)
unfolding handshake random_bytes send_all stream
handshake-Opened d s v c = after_request-Opened _ v c

-- If Connect, once libcurl has a connection, returns true, then the connection is kept, its
-- buffer is valid, the bytes that came begin with a header and the blank line after it, and exactly
-- the bytes behind these are still to come, wherever the chunks were cut. The header, read in lower
-- case, has " 101 " somewhere or begins with an HTTP status line of code 101, and has
-- "upgrade: websocket" somewhere. If Connect returns false, then the connection is closed and
-- nothing is buffered.
pub connect-Opened :
    (recvs : List RecvEvent) (sends : List SendEvent) (d : Target) (s : Socket)
    → Opened (pending recvs) (connect (dialled recvs sends) d s)
unfolding connect close stream
connect-Opened recvs sends d s =
    handshake-Opened d (record (close s) { connected = true; incoming = recvs; outgoing = sends })
      (omega arith) refl
