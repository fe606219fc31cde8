-- ===== src/InProgress/Playlist/Known.antt =====
-- A later look at a playlist against a first look at it.
use native.Mathlib.Decide.{dec_lt}
use pvr_dispatcharrai.Prelude.{
  ℕ, suc, ◌+◌, ◌-◌, ◌≡◌, sym, ap, ◌∙◌, inl, inr, Bool-cases, List, [], ◌∷◌, drop, drop-nil, le→leb,
  not_le→leb, leb, arith, if◌then◌else◌,
}
use pvr_dispatcharrai.Prelude.Text.{Text, codes, starts_with}
use pvr_dispatcharrai.InProgress.{Doubles}
use pvr_dispatcharrai.InProgress.Playlist.{
  split_lines, pop_cr, is_uri, extinf_duration, scan_lines, pending_segments,
}

drop_zero {ℓ} : {A : Type ℓ} (n : ℕ) (xs : List A) → n ≡ 0 → drop n xs ≡ xs
drop_zero n xs e = rw e

drop-suc {ℓ} :
    {A : Type ℓ} (n k : ℕ) (x : A) (xs : List A) → n ≡ suc k → drop n (x ∷ xs) ≡ drop k xs
drop-suc n k x xs e = rw e

uri_step {ℓ} :
    {A : Type ℓ} (known index : ℕ) (x : A) (r all : List A)
    → r ≡ drop (known - (index + 1)) all
    → (if leb known index then x ∷ r else r)
      ≡ drop (known - index) (if leb 0 index then x ∷ all else all)
uri_step known index x r all e = elim (dec_lt index known) [
  | yes before ↦
      rw (not_le→leb known index (omega arith), le→leb 0 index (omega arith))
        (e ∙ sym (drop-suc (known - index) (known - (index + 1)) x all (omega arith)))
  | no behind ↦
      rw (le→leb known index (omega arith), le→leb 0 index (omega arith))
        (ap (◌∷◌ x) (e ∙ drop_zero (known - (index + 1)) all (omega arith))
          ∙ sym (drop_zero (known - index) (x ∷ all) (omega arith)))
]

module _ (D : Doubles) where
  open D use {Double, zero as no_time}

  scan_lines-drop :
      (dir : Text) (known index : ℕ) (duration : Double) (lines : List Text)
      → scan_lines D dir known index duration lines
        ≡ drop (known - index) (scan_lines D dir 0 index duration lines)
  unfolding scan_lines
  scan_lines-drop dir known index duration [] = sym (drop-nil (known - index))
  scan_lines-drop dir known index duration (raw ∷ lines) =
      elim (Bool-cases (starts_with (pop_cr raw) (codes "#EXTINF:"))) [
        | inl timed ↦
            rw timed (scan_lines-drop dir known index (extinf_duration D (pop_cr raw)) lines)
        | inr plain ↦ rw plain (elim (Bool-cases (is_uri (pop_cr raw))) [
          | inl uri ↦
              rw uri
                (uri_step known index _ _ _ (scan_lines-drop dir known (index + 1) no_time lines))
          | inr skip ↦ rw skip (scan_lines-drop dir known index duration lines)
        ])
      ]

  -- What a refresh that knows `known` segments finds pending in a playlist is what a first look at
  -- the same playlist finds, durations included, less the first `known` of it.
  pub pending_segments-drop :
      (dir : Text) (known : ℕ) (text : Text)
      → pending_segments D dir known text ≡ drop known (pending_segments D dir 0 text)
  unfolding pending_segments
  pending_segments-drop dir known text =
      scan_lines-drop dir known 0 no_time (split_lines text)
      ∙ ap (λ k. drop k (scan_lines D dir 0 0 no_time (split_lines text))) {x = known - 0}
          (omega arith)
