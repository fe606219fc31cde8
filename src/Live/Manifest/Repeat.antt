-- ===== src/Live/Manifest/Repeat.antt =====
-- A manifest that comes a second time: nothing in it is taken in again.
use pvr_dispatcharrai.Prelude.{
  ℕ, ◌≤◌, ◌≡◌, refl, sym, subst, true, false, if_split, ◌⊎◌, inl, inr, Option, none, some, List, [],
  ◌∷◌, ◌++◌, ℤ, pos, pos_part, ◌<ℤ◌, ◌≤ℤ◌, arith,
}
use pvr_dispatcharrai.Live.{LiveSegment, LiveStream, ManifestEntry}
use pvr_dispatcharrai.Live.Manifest.{
  last_known_sequence, is_merged, append_entry, merge_entry, merge_entries,
}

-- The entries come in ascending order of sequence numbers, all above `lo`.
abbrev pub Ascends : ℤ → List ManifestEntry → Type 0
Ascends lo [] = Unit {0}
Ascends lo (e ∷ es) = (lo <ℤ e.sequence) × Ascends e.sequence es

-- The order on last known sequence numbers, with -1 below all.
abbrev UpTo : Option ℕ → Option ℕ → Type 0
UpTo none o = Unit {0}
UpTo (some m) none = ⊥
UpTo (some m) (some n) = m ≤ n

abbrev UpToℤ : Option ℕ → ℤ → Type 0
UpToℤ none z = Unit {0}
UpToℤ (some m) z = pos m ≤ℤ z

UpTo-refl : (o : Option ℕ) → UpTo o o
UpTo-refl none = tt
UpTo-refl (some m) = omega arith

UpTo-trans : (a b c : Option ℕ) → UpTo a b → UpTo b c → UpTo a c
UpTo-trans none b c h k = tt
UpTo-trans (some m) none c h k = absurd h
UpTo-trans (some m) (some n) none h k = absurd k
UpTo-trans (some m) (some n) (some p) h k = omega arith

UpToℤ-lt : (o : Option ℕ) (a b : ℤ) → UpToℤ o a → a <ℤ b → UpToℤ o b
UpToℤ-lt none a b h k = tt
UpToℤ-lt (some m) a b h k = omega arith

-- None of the entries would be taken in.
abbrev AllOld : Option ℕ → List ManifestEntry → Type 0
AllOld o [] = Unit {0}
AllOld o (e ∷ es) = (is_merged o e ≡ false) × AllOld o es

old_later :
    (o p : Option ℕ) (e : ManifestEntry) → UpTo o p → is_merged o e ≡ false → is_merged p e ≡ false
old_later none none e h k = k
old_later none (some n) e h k = ground arith
old_later (some m) none e h k = absurd h
old_later (some m) (some n) e h k = ground arith

old_itself : (e : ManifestEntry) → is_merged (some (pos_part e.sequence)) e ≡ false
old_itself e = ground arith

merge_old :
    (o : Option ℕ) (s : LiveStream) (es : List ManifestEntry)
    → AllOld o es
    → merge_entries o s es ≡ s
unfolding merge_entries merge_entry
merge_old o s [] h = refl
merge_old o s (e ∷ es) h = rw (h.0, merge_entry) (merge_old o s es h.1)

last-append :
    (xs : List LiveSegment) (g : LiveSegment) → last_known_sequence (xs ++ g ∷ []) ≡ some g.sequence
unfolding last_known_sequence
last-append [] g = refl
last-append (x ∷ []) g = refl
last-append (x ∷ y ∷ xs) g = last-append (y ∷ xs) g

last-append_entry :
    (s : LiveStream) (e : ManifestEntry)
    → last_known_sequence (append_entry s e).segments ≡ some (pos_part e.sequence)
unfolding append_entry
last-append_entry s e = last-append s.segments _

merged_above_known :
    (known : Option ℕ) (e : ManifestEntry)
    → is_merged known e ≡ true
    → UpTo known (some (pos_part e.sequence))
merged_above_known none e h = tt
merged_above_known (some m) e h = ground arith

merged_above_lo :
    (known o : Option ℕ) (lo : ℤ) (e : ManifestEntry)
    → is_merged known e ≡ true
    → UpToℤ o lo
    → lo <ℤ e.sequence
    → UpTo o (some (pos_part e.sequence))
merged_above_lo known none lo e h k l = tt
merged_above_lo known (some m) lo e h k l = ground arith

merged_itself :
    (known : Option ℕ) (e : ManifestEntry)
    → is_merged known e ≡ true
    → UpToℤ (some (pos_part e.sequence)) e.sequence
merged_itself known e h = ground arith

-- The last sequence number stands at `known` still, or at an entry that is behind `lo`.
abbrev Behind : Option ℕ → ℤ → Option ℕ → Type 0
Behind known lo o = UpTo o known ⊎ UpToℤ o lo

Behind-lt : (known o : Option ℕ) (a b : ℤ) → Behind known a o → a <ℤ b → Behind known b o
Behind-lt known o a b (inl h) k = inl h
Behind-lt known o a b (inr h) k = inr (UpToℤ-lt o a b h k)

Behind-merged :
    (known o : Option ℕ) (lo : ℤ) (e : ManifestEntry)
    → Behind known lo o
    → is_merged known e ≡ true
    → lo <ℤ e.sequence
    → UpTo o (some (pos_part e.sequence))
Behind-merged known o lo e (inl h) m l =
    UpTo-trans o known (some (pos_part e.sequence)) h (merged_above_known known e m)
Behind-merged known o lo e (inr h) m l = merged_above_lo known o lo e m h l

merge_entries_old :
    (known : Option ℕ) (lo : ℤ) (s : LiveStream) (es : List ManifestEntry)
    → Ascends lo es
    → Behind known lo (last_known_sequence s.segments)
    → UpTo known (last_known_sequence s.segments)
    → let last = last_known_sequence (merge_entries known s es).segments in
      UpTo (last_known_sequence s.segments) last × AllOld last es
unfolding merge_entries merge_entry
merge_entries_old known lo s [] asc behind above = (UpTo-refl (last_known_sequence s.segments), tt)
merge_entries_old known lo s (e ∷ es) asc behind above =
    let was = last_known_sequence s.segments in
    let P : LiveStream → Type 0 = λ u.
      UpTo was (last_known_sequence (merge_entries known u es).segments)
      × AllOld (last_known_sequence (merge_entries known u es).segments) (e ∷ es) in
    if_split P (is_merged known e) {x = append_entry s e} {y = s}
      (λ m.
        let t : LiveStream = append_entry s e in
        let n : Option ℕ = some (pos_part e.sequence) in
        let at = last-append_entry s e in
        let (up, old) =
          merge_entries_old known e.sequence t es asc.1
            (subst (Behind known e.sequence) (sym at) (inr (merged_itself known e m)))
            (subst (UpTo known) (sym at) (merged_above_known known e m)) in
        let last = last_known_sequence (merge_entries known t es).segments in
        let up' : UpTo n last = subst (λ o. UpTo o last) at up in
        (
          UpTo-trans was n last (Behind-merged known was lo e behind m asc.0) up',
          (old_later n last e up' (old_itself e), old),
        ))
      (λ skipped.
        let (up, old) =
          merge_entries_old known e.sequence s es asc.1
            (Behind-lt known was lo e.sequence behind asc.0) above in
        let last = last_known_sequence (merge_entries known s es).segments in
        (up, (old_later known last e (UpTo-trans known was last above up) skipped, old)))

-- Where the plugin lists its segments in ascending order, a manifest that has been taken in
-- changes nothing when it is taken in again: no segment is recorded twice.
pub merge_entries_twice :
    (lo : ℤ) (s : LiveStream) (es : List ManifestEntry)
    → Ascends lo es
    → let once = merge_entries (last_known_sequence s.segments) s es in
      merge_entries (last_known_sequence once.segments) once es ≡ once
merge_entries_twice lo s es asc =
    let known = last_known_sequence s.segments in
    let once = merge_entries known s es in
    merge_old (last_known_sequence once.segments) once es
      (merge_entries_old known lo s es asc (inl (UpTo-refl known)) (UpTo-refl known)).1
