-- ===== src/WebSocket/Connect/Rounds.antt =====
-- The rounds of the loop of Connect over the response.
use pvr_dispatcharrai.Prelude.{
  ℕ, zero, suc, ◌<◌, ◌≡◌, refl, ap, Option, List, [], ◌∷◌, ◌++◌, length, arith,
}
use pvr_dispatcharrai.Prelude.Text.{Text, find}
use pvr_dispatcharrai.WebSocket.{
  RecvEvent, received, readable, expired, select_failed, recv_failed, Socket, view, Read, got,
  stopped,
}
use pvr_dispatcharrai.WebSocket.Buffer.{next_chunk, buffered, fill_buffer}
use pvr_dispatcharrai.WebSocket.Connect.{blank_line, after_header_fill, found_header, read_header}

-- Bytes cost a round at least.
abbrev Fewer : ℕ → Read Text × List RecvEvent → Type 0
Fewer n (got chunk, es) = length es < n
Fewer n (stopped e, es) = Unit {0}

Fewer-more : (n : ℕ) (r : Read Text × List RecvEvent) → Fewer n r → Fewer (suc n) r
Fewer-more n (got chunk, es) h = omega arith
Fewer-more n (stopped e, es) h = tt

next_chunk-Fewer : (es : List RecvEvent) → Fewer (length es) (next_chunk es)
unfolding next_chunk
next_chunk-Fewer [] = tt
next_chunk-Fewer (received [] ∷ es) = tt
next_chunk-Fewer (received (b ∷ bs) ∷ es) = omega arith
next_chunk-Fewer (readable ∷ es) = Fewer-more (length es) (next_chunk es) (next_chunk-Fewer es)
next_chunk-Fewer (expired ∷ es) = tt
next_chunk-Fewer (select_failed ∷ es) = tt
next_chunk-Fewer (recv_failed ∷ es) = tt

same_after :
    (s : Socket) (r : Read Text × List RecvEvent) (f g : Socket → Option Text × Socket) (n : ℕ)
    → Fewer n r
    → ((t : Socket) → length t.incoming < n → f t ≡ g t)
    → after_header_fill (buffered r s) f ≡ after_header_fill (buffered r s) g
unfolding buffered after_header_fill
same_after s (got chunk, es) f g n h k =
    k (record s { recv_buffer = s.recv_buffer ++ chunk; incoming = es }) h
same_after s (stopped e, es) f g n h k = refl

-- Once the rounds that the loop over the response may take are more than those to come on the
-- network, their number does not matter: the loop ends by what it reads.
pub read_header-rounds :
    (m n : ℕ) (s : Socket)
    → length s.incoming < m
    → length s.incoming < n
    → read_header m s ≡ read_header n s
unfolding read_header fill_buffer
read_header-rounds zero n s h k = absurd (omega arith)
read_header-rounds (suc m) zero s h k = absurd (omega arith)
read_header-rounds (suc m) (suc n) s h k = ap (found_header (find (view s) blank_line) s) (
    same_after s (next_chunk s.incoming) (λ t. read_header m t) (λ t. read_header n t)
      (length s.incoming) (next_chunk-Fewer s.incoming)
      (λ t l. read_header-rounds m n t (omega arith) (omega arith)))
