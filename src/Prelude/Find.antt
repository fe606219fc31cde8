-- ===== src/Prelude/Find.antt =====
-- Where `find` finds a text, and when two texts are equal.
use pvr_dispatcharrai.Prelude.Tests.{Bool, true, false, ◌==◌, ◌&&◌, if_split}
use pvr_dispatcharrai.Prelude.Lists.{length, take, drop}
use pvr_dispatcharrai.Prelude.Text.{Text, starts_with, find, text_eq}
use Prim.Native.Nat.{ℕ, suc, ◌≤◌}
use mathlib.Core.Path.{◌≡◌, refl, ap, ◌∙◌}
use mathlib.Core.Option
use mathlib.Core.Option.{Option, none, some}
use mathlib.Core.List.{[], ◌∷◌, ◌++◌}
use native.Mathlib.Omega.{arith}

both : (a b : Bool) → (a && b) ≡ true → (a ≡ true) × (b ≡ true)
both true true h = (refl, refl)
both true false h = ground arith
both false b h = ground arith

same_byte : (a b : ℕ) → (a == b) ≡ true → a ≡ b
same_byte a b h = ground arith

-- The test of two texts is that of their equality.
pub text_eq→eq : (s t : Text) → text_eq s t ≡ true → s ≡ t
unfolding text_eq
text_eq→eq [] [] h = refl
text_eq→eq [] (d ∷ ds) h = ground arith
text_eq→eq (c ∷ cs) [] h = ground arith
text_eq→eq (c ∷ cs) (d ∷ ds) h =
    let parts = both (c == d) (text_eq cs ds) h in
    ap (λ k. k ∷ cs) (same_byte c d parts.0) ∙ ap (λ k. d ∷ k) (text_eq→eq cs ds parts.1)

same_self : (a : ℕ) → (a == a) ≡ true
same_self a = ground arith

pub text_eq_self : (s : Text) → text_eq s s ≡ true
unfolding text_eq
text_eq_self [] = refl
text_eq_self (c ∷ cs) = rw (same_self c, text_eq_self cs) refl

-- A text that starts with another is that one and the rest.
pub starts_with-split :
    (t p : Text) → starts_with t p ≡ true → (t ≡ p ++ drop (length p) t) × (length p ≤ length t)
unfolding starts_with
starts_with-split t [] h = (refl, omega arith)
starts_with-split [] (p ∷ ps) h = ground arith
starts_with-split (c ∷ cs) (p ∷ ps) h =
    let parts = both (c == p) (starts_with cs ps) h in
    let rest = starts_with-split cs ps parts.1 in
    (ap (λ k. k ∷ cs) (same_byte c p parts.0) ∙ ap (λ k. p ∷ k) rest.0, omega (arith, rest.1))

-- What stands before the needle, the needle, and what stands after it.
abbrev pub Splits : Text → Text → Option ℕ → Type 0
Splits t needle none = Unit {0}
Splits t needle (some k) =
    (t ≡ take k t ++ (needle ++ drop (length needle) (drop k t)))
    × (length needle ≤ length (drop k t))

Splits-later :
    (c : ℕ) (cs needle : Text) (o : Option ℕ)
    → Splits cs needle o
    → Splits (c ∷ cs) needle (Option.map suc o)
Splits-later c cs needle none h = h
Splits-later c cs needle (some k) h = (ap (λ r. c ∷ r) h.0, h.1)

pub find-Splits : (t needle : Text) → Splits t needle (find t needle)
unfolding find
find-Splits [] [] = (refl, omega arith)
find-Splits [] (p ∷ ps) = tt
find-Splits (c ∷ cs) needle =
    if_split (Splits (c ∷ cs) needle) (starts_with (c ∷ cs) needle) {x = some 0}
      {y = Option.map suc (find cs needle)} (λ h. starts_with-split (c ∷ cs) needle h)
      (λ h. Splits-later c cs needle (find cs needle) (find-Splits cs needle))
