-- ===== src/WebSocket/Receive/Accept.antt =====
-- ReceiveTextMessage on a message in fragments, as a server writes it.
use pvr_dispatcharrai.Prelude.{
  ℕ, zero, suc, ◌+◌, ◌≤◌, ◌<◌, ◌≡◌, refl, sym, ap, subst, ◌∙◌, Bool, true, false, if◌then◌else◌,
  List, [], ◌∷◌, ◌++◌, append-nil, append_assoc, length, length-append, arith,
}
use pvr_dispatcharrai.Prelude.Text.{Text}
use pvr_dispatcharrai.WebSocket.{Socket, Read, got, stopped}
use pvr_dispatcharrai.WebSocket.Buffer.{stream}
use pvr_dispatcharrai.WebSocket.Queue.Enough.{Gives, Answers}
use pvr_dispatcharrai.WebSocket.Receive.Frames.{Frame, max_frame_payload, read_frame}
use pvr_dispatcharrai.WebSocket.Receive.Frames.Accept.{encode_frame, read_frame-Answers}
use pvr_dispatcharrai.WebSocket.Receive.{
  ReceiveOutcome, message, ended, out_of_fuel, Loop, handle, after_frame, receive_loop,
  receive_text_message,
}

-- The frame of a fragment: a text frame, or the continuation of one.
abbrev pub fragment : Bool → Bool → Text → Frame
fragment first last p = record { fin = last; opcode = if first then 1 else 0; payload = p }

-- The frames of a message that is sent in these pieces.
unfoldable pub encode_message : Bool → Text → List Text → Text
encode_message first p [] = encode_frame (fragment first true p)
encode_message first p (q ∷ qs) = encode_frame (fragment first false p) ++ encode_message false q qs

abbrev pub joined : List Text → Text
joined [] = []
joined (p ∷ ps) = p ++ joined ps

-- The message is delivered, and what follows it is still to come.
abbrev pub Delivers : Text → Text → ReceiveOutcome × Socket → Type 0
Delivers m rest (message x, t) = (x ≡ m) × Gives rest t
Delivers m rest (ended e, t) = ⊥
Delivers m rest (out_of_fuel, t) = ⊥

fragment-opcode : (first last : Bool) (p : Text) → (fragment first last p).opcode < 16
fragment-opcode true last p = omega arith
fragment-opcode false last p = omega arith

handle-last :
    (first : Bool) (p a : Text) (again : Loop) (t : Socket)
    → handle (fragment first true p) a again t ≡ (message (a ++ p), t)
unfolding handle
handle-last true p a again t = refl
handle-last false p a again t = refl

handle-more :
    (first : Bool) (p a : Text) (again : Loop) (t : Socket)
    → handle (fragment first false p) a again t ≡ again (a ++ p) t
unfolding handle
handle-more true p a again t = refl
handle-more false p a again t = refl

frame-last :
    (first : Bool) (p a rest : Text) (again : Loop) (r : Read Frame × Socket)
    → Answers (fragment first true p) rest r
    → Delivers (a ++ p) rest (after_frame r a again)
unfolding after_frame
frame-last first p a rest again (got f, t) h =
    subst (Delivers (a ++ p) rest)
      (sym (ap (λ g. handle g a again t) h.0 ∙ handle-last first p a again t)) (refl, h.1)
frame-last first p a rest again (stopped e, t) h = h

frame-more :
    (first : Bool) (p a m more rest : Text) (again : Loop) (r : Read Frame × Socket)
    → Answers (fragment first false p) more r
    → ((t : Socket) → Gives more t → Delivers m rest (again (a ++ p) t))
    → Delivers m rest (after_frame r a again)
unfolding after_frame
frame-more first p a m more rest again (got f, t) h k =
    subst (Delivers m rest) (sym (ap (λ g. handle g a again t) h.0 ∙ handle-more first p a again t))
      (k t h.1)
frame-more first p a m more rest again (stopped e, t) h k = h

length-encode_frame : (f : Frame) → 0 < length (encode_frame f)
unfolding encode_frame
length-encode_frame f = omega arith

receive_loop-Delivers :
    (fuel : ℕ) (first : Bool) (a p : Text) (qs : List Text) (rest : Text) (s : Socket)
    → length (encode_message first p qs) ≤ fuel
    → length a + length (joined (p ∷ qs)) ≤ max_frame_payload
    → Gives (encode_message first p qs ++ rest) s
    → Delivers (a ++ joined (p ∷ qs)) rest (receive_loop fuel a s)
unfolding receive_loop encode_message
receive_loop-Delivers zero first a p [] rest s h k g =
    absurd (omega (arith, length-encode_frame (fragment first true p)))
receive_loop-Delivers zero first a p (q ∷ qs) rest s h k g = absurd (
    omega (
      arith,
      length-encode_frame (fragment first false p),
      length-append (encode_frame (fragment first false p)) (encode_message false q qs),
    ))
receive_loop-Delivers (suc fuel) first a p [] rest s h k g =
    let f = fragment first true p in
    let again = λ (m : Text) (t : Socket). receive_loop fuel m t in
    subst (λ m. Delivers (a ++ m) rest (receive_loop (suc fuel) a s)) (sym (append-nil p))
      (frame-last first p a rest again (read_frame (length a) s) (
        read_frame-Answers (length a) f rest s (fragment-opcode first true p)
          (omega (arith, k, length-append p [])) g))
receive_loop-Delivers (suc fuel) first a p (q ∷ qs) rest s h k g =
    let f = fragment first false p in
    let again = λ (m : Text) (t : Socket). receive_loop fuel m t in
    let left = encode_message false q qs in
    let total = length-append p (joined (q ∷ qs)) in
    frame-more first p a (a ++ joined (p ∷ q ∷ qs)) (left ++ rest) rest again
      (read_frame (length a) s)
      (read_frame-Answers (length a) f (left ++ rest) s (fragment-opcode first false p)
        (omega (arith, k, total)) (g.0, g.1, g.2 ∙ append_assoc (encode_frame f) left rest))
      (λ t gt.
        subst (λ m. Delivers m rest (receive_loop fuel (a ++ p) t))
          (append_assoc a p (joined (q ∷ qs)))
          (receive_loop-Delivers fuel false (a ++ p) q qs rest t
            (omega (arith, h, length-encode_frame f, length-append (encode_frame f) left))
            (omega (arith, k, total, length-append a p)) gt))

-- If the network gives bytes and nothing else, and those to come begin with a message in one or
-- more fragments, of at most 10 * 1024 * 1024 bytes in all, each in a frame of RFC 6455 without a
-- mask, then ReceiveTextMessage gives the message, however the bytes are cut into chunks, and what
-- follows the message is still to come.
pub receive_text_message-encode :
    (p : Text) (qs : List Text) (rest : Text) (s : Socket)
    → length (joined (p ∷ qs)) ≤ 10485760
    → Gives (encode_message true p qs ++ rest) s
    → Delivers (joined (p ∷ qs)) rest (receive_text_message s)
unfolding receive_text_message max_frame_payload
receive_text_message-encode p qs rest s h g =
    receive_loop-Delivers (suc (length (stream s))) true [] p qs rest s
      (omega (arith, ap length g.2, length-append (encode_message true p qs) rest)) (omega arith) g
