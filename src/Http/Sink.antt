-- ===== src/Http/Sink.antt =====
-- The two write callbacks against the body that they are given piece by piece.
use pvr_dispatcharrai.Prelude.{
  ◌-◌, ◌≡◌, sym, ◌∙◌, List, [], ◌∷◌, ◌++◌, take, length, min, arith, append-nil, append_assoc,
  length-append, length-take, take-min, take-nil, take-append,
}
use pvr_dispatcharrai.Prelude.Text.{Text}
use pvr_dispatcharrai.Http.{
  FixedBufferSink, remaining, fixed_buffer_write_callback, write_all, write_callback,
}

-- The pieces of a body, joined.
abbrev pub body : List Text → Text
body [] = []
body (c ∷ cs) = c ++ body cs

pub write_callback_lem : (out : Text) (cs : List Text) → write_callback out cs ≡ out ++ body cs
unfolding write_callback
write_callback_lem out [] = sym (append-nil out)
write_callback_lem out (c ∷ cs) = write_callback_lem (out ++ c) cs ∙ append_assoc out c (body cs)

step_lem :
    (s : FixedBufferSink) (c : Text)
    → (fixed_buffer_write_callback s c).written ≡ s.written ++ take (remaining s) c
unfolding fixed_buffer_write_callback
step_lem s c = ground (arith, take-min (remaining s) c, append-nil s.written)

remaining_lem :
    (s : FixedBufferSink) (c : Text)
    → remaining (fixed_buffer_write_callback s c) ≡ remaining s - length c
unfolding fixed_buffer_write_callback
remaining_lem s c = ground (
  arith,
  length-append s.written (take (min (length c) (remaining s)) c),
  length-take (min (length c) (remaining s)) c,
)

-- Whatever pieces a body comes in, the sink holds what it held and as much of the body as fits.
pub write_all_lem :
    (s : FixedBufferSink) (cs : List Text)
    → (write_all s cs).written ≡ s.written ++ take (remaining s) (body cs)
unfolding write_all
write_all_lem s [] = rw (take-nil, append-nil)
write_all_lem s (c ∷ cs) =
    write_all_lem (fixed_buffer_write_callback s c) cs
    ∙ rw (remaining_lem s c, step_lem s c, take-append (remaining s) c (body cs))
        (append_assoc s.written (take (remaining s) c) (take (remaining s - length c) (body cs)))
