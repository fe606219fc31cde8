-- ===== src/WebSocket/Send/Written.antt =====
-- SendAll: what reaches the connection.
use pvr_dispatcharrai.Prelude.{
  ◌<◌, ◌≡◌, refl, sym, ap, subst, ◌∙◌, Bool, true, false, List, [], ◌∷◌, ◌++◌, append_assoc, take,
  drop, length, take-append-drop, arith,
}
use pvr_dispatcharrai.Prelude.Text.{Text}
use pvr_dispatcharrai.WebSocket.{
  SendEvent, accepted, send_again, send_expired, send_select_failed, send_failed, Socket,
}
use pvr_dispatcharrai.WebSocket.Send.{send_loop, send_all}

-- All of it, or a part from the front that is not all.
abbrev pub Written : Text → Bool → Text → Type 0
Written bytes true out = out ≡ bytes
Written bytes false out = (left : Text) × (bytes ≡ out ++ left) × (0 < length left)

Written-more :
    (chunk left out : Text) (b : Bool)
    → Written left b out
    → Written (chunk ++ left) b (chunk ++ out)
Written-more chunk left out true h = ap (λ k. chunk ++ k) h
Written-more chunk left out false (more, e, pos) =
    (more, ap (λ k. chunk ++ k) e ∙ sym (append_assoc chunk out more), pos)

send_loop-Written :
    (es : List SendEvent) (bytes : Text)
    → Written bytes (send_loop es bytes).all_sent (send_loop es bytes).taken
unfolding send_loop
send_loop-Written es [] = refl
send_loop-Written [] (b ∷ bs) = (b ∷ bs, refl, omega arith)
send_loop-Written (accepted n ∷ es) (b ∷ bs) =
    let r = send_loop es (drop n (b ∷ bs)) in
    subst (λ k. Written k r.all_sent (take n (b ∷ bs) ++ r.taken)) (take-append-drop n (b ∷ bs))
      (Written-more (take n (b ∷ bs)) (drop n (b ∷ bs)) r.taken r.all_sent
        (send_loop-Written es (drop n (b ∷ bs))))
send_loop-Written (send_again ∷ es) (b ∷ bs) = send_loop-Written es (b ∷ bs)
send_loop-Written (send_expired ∷ es) (b ∷ bs) = (b ∷ bs, refl, omega arith)
send_loop-Written (send_select_failed ∷ es) (b ∷ bs) = (b ∷ bs, refl, omega arith)
send_loop-Written (send_failed ∷ es) (b ∷ bs) = (b ∷ bs, refl, omega arith)

-- SendAll says whether all was written: if so, the connection has the bytes, after what it had;
-- if not, it has a part from the front of them, and not all.
pub send_all-Written :
    (bytes : Text) (s : Socket)
    → (out : Text) × ((send_all bytes s).1.sent ≡ s.sent ++ out)
      × Written bytes (send_all bytes s).0 out
unfolding send_all
send_all-Written bytes s =
    ((send_loop s.outgoing bytes).taken, refl, send_loop-Written s.outgoing bytes)
