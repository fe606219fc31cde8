-- ===== src/XmlTv/Numbers.antt =====
-- ParseEpisodeNum on the parts of an `xmltv_ns` number.
use pvr_dispatcharrai.Prelude.{
  ℕ, ◌≡◌, refl, ap, ◌∙◌, true, false, ◌==◌, some, [], ◌∷◌, ◌++◌, take, length, arith,
}
use pvr_dispatcharrai.Prelude.Text.{Text, find, starts_with}
use pvr_dispatcharrai.XmlTv.{get_field, number_of, up_to, before_slash, parse_episode_num}

-- A text without a byte.
abbrev pub Lacks : ℕ → Text → Type 0
Lacks d [] = Unit {0}
Lacks d (c ∷ cs) = ((c == d) ≡ false) × Lacks d cs

-- The first of a byte that stands behind a text without it.
pub find-Lacks :
    (d : ℕ) (t rest : Text) → Lacks d t → find (t ++ (d ∷ rest)) (d ∷ []) ≡ some (length t)
unfolding find starts_with
find-Lacks d [] rest h = rw (same_self d) refl
  where
    same_self : (a : ℕ) → (a == a) ≡ true
    same_self a = ground arith
find-Lacks d (c ∷ cs) rest h = rw (h.0, find-Lacks d cs rest h.1) refl

take-length-append : (t rest : Text) → take (length t) (t ++ rest) ≡ t
take-length-append [] rest = refl
take-length-append (c ∷ cs) rest = ap (λ k. c ∷ k) (take-length-append cs rest)

before_slash-append : (t rest : Text) → Lacks b'/' t → before_slash (t ++ (b'/' ∷ rest)) ≡ t
unfolding before_slash
before_slash-append t rest h =
    ap (up_to (t ++ (b'/' ∷ rest))) (find-Lacks b'/' t rest h) ∙ take-length-append t (b'/' ∷ rest)

get_field-append : (t rest : Text) → Lacks b'.' t → get_field (t ++ (b'.' ∷ rest)) ≡ (t, rest)
unfolding get_field
get_field-append [] rest h = refl
get_field-append (c ∷ cs) rest h = rw (get_field-append cs rest h.1, h.0) refl

-- In `season.episode.part/parts`, where the season and the episode have no dot and nothing has a
-- slash, ParseEpisodeNum takes the season from the first field and the episode from the second,
-- each by itself: one that is empty or no number does not hide the other, and the part and the
-- number of parts do not matter.
pub parse_episode_num-fields :
    (season episode part parts : Text)
    → Lacks b'.' season
    → Lacks b'.' episode
    → Lacks b'/' (season ++ (b'.' ∷ (episode ++ (b'.' ∷ part))))
    → parse_episode_num ((season ++ (b'.' ∷ (episode ++ (b'.' ∷ part)))) ++ (b'/' ∷ parts))
      ≡ (number_of season, number_of episode)
unfolding parse_episode_num
parse_episode_num-fields season episode part parts s e l =
    rw
      (
        before_slash-append (season ++ (b'.' ∷ (episode ++ (b'.' ∷ part)))) parts l,
        get_field-append season (episode ++ (b'.' ∷ part)) s,
        get_field-append episode part e,
      )
      refl
