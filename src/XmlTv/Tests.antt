-- ===== src/XmlTv/Tests.antt =====
-- A guide of two programmes, of which one has no channel, and the theorems of this component.
use pvr_dispatcharrai.Prelude.{
  ℕ, zero, suc, ◌+◌, ◌*◌, ◌≡◌, refl, false, if◌then◌else◌, some, List, [], ◌∷◌, ◌++◌, pos, negsuc,
  ◌+ℤ◌, ◌-ℤ◌, length, arith,
}
use pvr_dispatcharrai.Prelude.Text.{Text, codes, text_eq, parse_int}
use pvr_dispatcharrai.Time.{Calendar, tm_of}
use pvr_dispatcharrai.XmlTv.{Xml, parse, parse_episode_num, parse_xml_tv_time}
use pvr_dispatcharrai.XmlTv.Guide.{Files, parse-entries_of}
use pvr_dispatcharrai.XmlTv.Offset.{offset_text, parse_xml_tv_time-offset}

-- The nodes: 0 is the document, 1 its root, 2 and 3 the programmes.
abbrev nodes : ℕ → Text → List ℕ
nodes zero name = if text_eq name (codes "tv") then 1 ∷ [] else []
nodes (suc zero) name = if text_eq name (codes "programme") then 2 ∷ 3 ∷ [] else []
nodes (suc (suc n)) name = []

abbrev attributes : ℕ → Text → Text
attributes (suc (suc zero)) key =
    if text_eq key (codes "channel")
    then codes "7"
    else if text_eq key (codes "start")
    then codes "20260701200000 +0200"
    else if text_eq key (codes "stop")
    then codes "20260701210000 +0200"
    else []
attributes _ key = []

abbrev guide : Xml ℕ
guide = record {
  load_buffer = λ content. some 0;
  children = nodes;
  attribute = attributes;
  text = λ n. [];
}

-- The hours of a month.
abbrev hours : Calendar
hours = record {
  portable_time_gm = λ tm. elim tm.tm_mday [
    | pos d ↦ elim tm.tm_hour [ pos h ↦ pos (d * 86400 + h * 3600) | _ ↦ pos 0 ]
    | _ ↦ pos 0
  ];
  gm_time_utc = λ t. tm_of [];
}

parse-entries_of_example : Files guide hours (codes "7") 1 (parse guide hours [] [])
unfolding text_eq
parse-entries_of_example = parse-entries_of guide hours [] [] 0 1 (codes "7") refl refl

-- The programme of channel 7 is filed, and the other is not.
files_one : length (parse guide hours [] []).1 ≡ 1
unfolding parse ◌-ℤ◌ ◌+ℤ◌
files_one = refl

-- Season 3, episode 5.
reads_both : parse_episode_num (codes "2.4.0/1") ≡ (pos 3, pos 5)
unfolding parse_episode_num ◌+ℤ◌
reads_both = refl

-- No season.
reads_episode : parse_episode_num (codes ".4.") ≡ (negsuc 0, pos 5)
unfolding parse_episode_num ◌+ℤ◌
reads_episode = refl

abbrev start_date : Text
start_date = codes "20260701200000"

parse_xml_tv_time-offset_example :
    parse_xml_tv_time hours (start_date ++ (b' ' ∷ offset_text false 2 0))
    ≡ hours.portable_time_gm (tm_of (pos 2026 ∷ pos 7 ∷ pos 1 ∷ pos 20 ∷ pos 0 ∷ pos 0 ∷ []))
      -ℤ (pos (3600 * 2) +ℤ pos (60 * 0))
unfolding parse_int
parse_xml_tv_time-offset_example =
    parse_xml_tv_time-offset hours start_date
      (pos 2026 ∷ pos 7 ∷ pos 1 ∷ pos 20 ∷ pos 0 ∷ pos 0 ∷ []) false 2 0 refl
      (
        refl,
        (
          refl,
          (
            refl,
            (
              refl,
              (refl, (refl, (refl, (refl, (refl, (refl, (refl, (refl, (refl, (refl, tt)))))))))),
            ),
          ),
        ),
      )
      refl (omega arith) (omega arith)
