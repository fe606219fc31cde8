-- ===== src/WebSocket/Buffer.antt =====
-- FillBuffer and ReadExact: the receive buffer, its read position and its compaction.
use pvr_dispatcharrai.Prelude.{
  ℕ, zero, suc, ◌+◌, ◌-◌, ◌*◌, ◌&&◌, ltb, if◌then◌else◌, List, [], ◌∷◌, ◌++◌, drop, take, length,
}
use pvr_dispatcharrai.Prelude.Text.{Text}
use pvr_dispatcharrai.WebSocket.{
  RecvEvent, received, readable, expired, select_failed, recv_failed, Socket, view, timed_out,
  failed, Read, got, stopped, Reader,
}

-- FillBuffer's loop over the rounds to come: the bytes of one `curl_easy_recv`, and what is left.
unfoldable pub next_chunk : List RecvEvent → Read Text × List RecvEvent
next_chunk [] = (stopped timed_out, [])
next_chunk (received [] ∷ es) = (stopped failed, es)
next_chunk (received (b ∷ bs) ∷ es) = (got (b ∷ bs), es)
next_chunk (readable ∷ es) = next_chunk es
next_chunk (expired ∷ es) = (stopped timed_out, es)
next_chunk (select_failed ∷ es) = (stopped failed, es)
next_chunk (recv_failed ∷ es) = (stopped failed, es)

unfoldable pub buffered : Read Text × List RecvEvent → Socket → Read (Unit {0}) × Socket
buffered (got chunk, es) s =
    (got tt, record s { recv_buffer = s.recv_buffer ++ chunk; incoming = es })
buffered (stopped e, es) s = (stopped e, record s { incoming = es })

-- FillBuffer.
unfoldable pub fill_buffer : Reader (Unit {0})
unfolding next_chunk buffered
fill_buffer s = buffered (next_chunk s.incoming) s

-- `m_recvBuffer.size() - m_recvPos`.
abbrev pub available : Socket → ℕ
available s = length s.recv_buffer - s.recv_pos

unfoldable pub after_fill :
    Read (Unit {0}) × Socket → (Socket → Read (Unit {0}) × Socket) → Read (Unit {0}) × Socket
after_fill (got u, s) again = again s
after_fill (stopped e, s) again = (stopped e, s)

-- ReadExact's loop. Every round adds a byte at least, so that `len` rounds are enough.
unfoldable pub wait_for : ℕ → ℕ → Socket → Read (Unit {0}) × Socket
unfolding fill_buffer after_fill
wait_for zero len s = (got tt, s)
wait_for (suc rounds) len s =
    let filled = after_fill (fill_buffer s) (λ t. wait_for rounds len t) in
    if ltb (available s) len then filled else (got tt, s)

-- The erasure of what is consumed, once it is more than half of the buffer.
unfoldable pub compact : Socket → Socket
compact s =
    if ltb 0 s.recv_pos && ltb (length s.recv_buffer) (s.recv_pos * 2)
    then record s { recv_buffer = drop s.recv_pos s.recv_buffer; recv_pos = 0 }
    else s

unfoldable pub consume : ℕ → Read (Unit {0}) × Socket → Read Text × Socket
unfolding compact
consume len (got u, s) =
    (got (take len (view s)), compact (record s { recv_pos = s.recv_pos + len }))
consume len (stopped e, s) = (stopped e, s)

-- ReadExact.
unfoldable pub read_exact : ℕ → Reader Text
unfolding wait_for consume
read_exact len s = consume len (wait_for len len s)

-- The bytes of the rounds to come.
unfoldable pub pending : List RecvEvent → Text
pending [] = []
pending (received bs ∷ es) = bs ++ pending es
pending (readable ∷ es) = pending es
pending (expired ∷ es) = pending es
pending (select_failed ∷ es) = pending es
pending (recv_failed ∷ es) = pending es

-- The bytes that the connection has still to give: those that are buffered and those to come.
unfoldable pub stream : Socket → Text
unfolding pending
stream s = view s ++ pending s.incoming
