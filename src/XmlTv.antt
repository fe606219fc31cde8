-- ===== src/XmlTv.antt =====
-- XmlTvParser of src/XmlTvParser.cpp and src/XmlTvParser.h. The document, as pugixml has it, is an
-- argument.
pub mod Guide
pub mod Offset
pub mod Numbers
mod Tests
use pvr_dispatcharrai.Prelude.{
  ℕ, zero, suc, ◌+◌, ◌-◌, ◌*◌, Bool, true, false, ltb, leb, ◌==◌, ◌&&◌, ◌||◌, not, if◌then◌else◌,
  Option, none, some, List, [], ◌∷◌, ◌++◌, map, take, ℤ, pos, negsuc, ◌+ℤ◌, ◌-ℤ◌, eqb_ℤ, length,
  drop, get_or,
}
use pvr_dispatcharrai.Prelude.Text.{Text, codes, is_empty, text_eq, find, substr, parse_int, stoi}
use pvr_dispatcharrai.Time.{Tm, Calendar, scale, tm_of, fields_at, ◌>>=◌}

-- The nodes of a document: the root's children, if it can be parsed, and what is read of a node.
-- A missing attribute or text reads as empty.
pub record Xml (Node : Type 0) : Type 0 where
  pub load_buffer : Text → Option Node
  pub children : Node → Text → List Node
  pub attribute : Node → Text → Text
  pub text : Node → Text

pub record EpgEntry : Type 0 where
  pub channel_xmltv_id : Text
  pub title : Text
  pub subtitle : Text
  pub description : Text
  pub categories : List Text
  pub icon_path : Text
  pub cast : Text
  pub director : Text
  pub writer : Text
  pub year : ℤ
  pub first_aired : Text
  pub is_new : Bool
  pub is_premiere : Bool
  pub is_live : Bool
  pub start_time : ℤ
  pub end_time : ℤ
  pub season_number : ℤ
  pub episode_number : ℤ

-- ParseXmlTvTime.
abbrev pub digits_of_time : List (ℕ × ℕ)
digits_of_time = (0, 4) ∷ (4, 2) ∷ (6, 2) ∷ (8, 2) ∷ (10, 2) ∷ (12, 2) ∷ []

unfoldable pub hours_and_minutes : Option (List ℤ) → ℤ
unfolding ◌+ℤ◌
hours_and_minutes (some (h ∷ m ∷ [])) = scale 3600 h +ℤ scale 60 m
hours_and_minutes _ = pos 0

-- `sign * (offsetHours * 3600 + offsetMinutes * 60)`, or nothing where either is malformed.
unfoldable pub offset_seconds : Text → ℤ
unfolding parse_int hours_and_minutes ◌-ℤ◌
offset_seconds offset_str =
    let seconds = hours_and_minutes (fields_at ((1, 2) ∷ (3, 2) ∷ []) offset_str) in
    let sign = get_or offset_str 0 0 in
    if leb 5 (length offset_str) && ((sign == b'+') || (sign == b'-'))
    then (if sign == b'-' then pos 0 -ℤ seconds else seconds)
    else pos 0

unfoldable pub offset_at : Option ℕ → Text → ℤ
unfolding offset_seconds
offset_at none time_str = pos 0
offset_at (some space_pos) time_str =
    if ltb (space_pos + 5) (length time_str)
    then offset_seconds (drop (space_pos + 1) time_str)
    else pos 0

abbrev pub space : Text
space = b' ' ∷ []

unfoldable pub shifted_time : Calendar → Text → Option (List ℤ) → ℤ
unfolding tm_of find offset_at ◌-ℤ◌
shifted_time c time_str none = pos 0
shifted_time c time_str (some fields) =
    c.portable_time_gm (tm_of fields) -ℤ offset_at (find time_str space) time_str

unfoldable pub parse_xml_tv_time : Calendar → Text → ℤ
unfolding parse_int shifted_time
parse_xml_tv_time c time_str =
    if ltb (length time_str) 14
    then pos 0
    else shifted_time c time_str (fields_at digits_of_time time_str)

-- `std::getline` up to a dot: the field, and what is left of the stream.
unfoldable pub get_field : Text → Text × Text
get_field [] = ([], [])
get_field (c ∷ cs) =
    let (field, rest) = get_field cs in if c == b'.' then ([], cs) else (c ∷ field, rest)

-- The season or the episode that a field tells, 1-indexed; as it was where the field is empty or
-- no number.
unfoldable pub number_of : Text → ℤ
unfolding parse_int ◌+ℤ◌
number_of field = elim (stoi field) [ none ↦ negsuc 0 | some parsed ↦ parsed +ℤ pos 1 ]

-- What stands before a slash.
abbrev pub up_to : Text → Option ℕ → Text
up_to value none = value
up_to value (some slash_pos) = take slash_pos value

unfoldable pub before_slash : Text → Text
unfolding find
before_slash value = up_to value (find value (b'/' ∷ []))

-- ParseEpisodeNum: the season and the episode. `stoi` refuses an empty field.
unfoldable pub parse_episode_num : Text → ℤ × ℤ
unfolding before_slash get_field number_of
parse_episode_num value =
    let (season, rest) = get_field (before_slash value) in
    let (episode, more) = get_field rest in (number_of season, number_of episode)

-- AppendCredit.
unfoldable pub append_credit : Text → Text → Text
append_credit joined name =
    if is_empty name then joined else if is_empty joined then name else joined ++ (b',' ∷ name)

unfoldable pub append_credits : Text → List Text → Text
unfolding append_credit
append_credits joined [] = joined
append_credits joined (name ∷ names) = append_credits (append_credit joined name) names

abbrev pub non_empty : List Text → List Text
non_empty [] = []
non_empty (value ∷ values) =
    let rest = non_empty values in if is_empty value then rest else value ∷ rest

abbrev pub flat : List (List Text) → List Text
flat [] = []
flat (names ∷ more) = names ++ flat more

abbrev pub cast_roles : List Text
cast_roles =
    codes "actor"
    ∷ codes "presenter"
    ∷ codes "guest"
    ∷ codes "producer"
    ∷ codes "commentator"
    ∷ codes "composer"
    ∷ codes "editor"
    ∷ []

abbrev pub has_any : {A : Type 0} → List A → Bool
has_any [] = false
has_any (x ∷ xs) = true

-- The year of a date of four bytes at least.
unfoldable pub year_of_date : Text → ℤ
unfolding parse_int
year_of_date date_str = elim (stoi (take 4 date_str)) [ none ↦ pos 0 | some y ↦ y ]

module _ {Node : Type 0} (x : Xml Node) where
  -- `node.child(name)`: the first such child; a null node is none.
  abbrev pub child : Node → Text → Option Node
  child n name = elim (x.children n name) [ [] ↦ none | c ∷ cs ↦ some c ]

  abbrev pub child_text : Node → Text → Text
  child_text n name = elim (child n name) [ none ↦ [] | some c ↦ x.text c ]

  abbrev pub child_attribute : Node → Text → Text → Text
  child_attribute n name key = elim (child n name) [ none ↦ [] | some c ↦ x.attribute c key ]

  abbrev pub texts : Node → Text → List Text
  texts n name = map x.text (x.children n name)

  -- The credits of a programme in these roles, one role after the other.
  unfoldable pub credits_in : Node → List Text → Text
  unfolding append_credits
  credits_in programme roles = elim (child programme (codes "credits")) [
    | none ↦ []
    | some credits ↦ append_credits [] (flat (map (texts credits) roles))
  ]

  -- The text of the first `episode-num` of the system `xmltv_ns`.
  unfoldable pub first_xmltv_ns : List Node → Option Text
  unfolding text_eq
  first_xmltv_ns [] = none
  first_xmltv_ns (n ∷ ns) =
      let later = first_xmltv_ns ns in
      if text_eq (x.attribute n (codes "system")) (codes "xmltv_ns") then some (x.text n) else later

  unfoldable pub numbers_of : Node → ℤ × ℤ
  unfolding first_xmltv_ns parse_episode_num
  numbers_of programme = elim (first_xmltv_ns (x.children programme (codes "episode-num"))) [
    | none ↦ (negsuc 0, negsuc 0)
    | some value ↦ parse_episode_num value
  ]

  -- What is read of a programme that is taken.
  unfoldable pub read_entry : Calendar → Node → EpgEntry
  unfolding parse_xml_tv_time credits_in numbers_of year_of_date
  read_entry c programme =
      let date_str = child_text programme (codes "date") in
      let dated = leb 4 (length date_str) in
      let numbers = numbers_of programme in
      record {
        channel_xmltv_id = x.attribute programme (codes "channel");
        title = child_text programme (codes "title");
        subtitle = child_text programme (codes "sub-title");
        description = child_text programme (codes "desc");
        categories = non_empty (texts programme (codes "category"));
        icon_path = child_attribute programme (codes "icon") (codes "src");
        cast = credits_in programme cast_roles;
        director = credits_in programme (codes "director" ∷ []);
        writer = credits_in programme (codes "writer" ∷ codes "adapter" ∷ []);
        year = if dated then year_of_date date_str else pos 0;
        first_aired = if dated then date_str else [];
        is_new = has_any (x.children programme (codes "new"));
        is_premiere = has_any (x.children programme (codes "premiere"));
        is_live = has_any (x.children programme (codes "live"));
        start_time = parse_xml_tv_time c (x.attribute programme (codes "start"));
        end_time = parse_xml_tv_time c (x.attribute programme (codes "stop"));
        season_number = numbers.0;
        episode_number = numbers.1;
      }

-- A programme without a channel or without a time is passed over.
unfoldable pub is_taken : EpgEntry → Bool
is_taken e =
    not (is_empty e.channel_xmltv_id)
    && not (eqb_ℤ e.start_time (pos 0) || eqb_ℤ e.end_time (pos 0))

-- The entries by channel.
abbrev pub Guide : Type 0
Guide = List (Text × List EpgEntry)

-- `out[id].push_back(entry)`.
unfoldable pub push_entry : Guide → Text → EpgEntry → Guide
unfolding text_eq
push_entry [] id entry = (id, entry ∷ []) ∷ []
push_entry ((key, entries) ∷ more) id entry =
    let later = push_entry more id entry in
    if text_eq key id then (key, entries ++ (entry ∷ [])) ∷ more else (key, entries) ∷ later

unfoldable pub push_all : Guide → List EpgEntry → Guide
unfolding is_taken push_entry
push_all out [] = out
push_all out (entry ∷ entries) =
    push_all (if is_taken entry then push_entry out entry.channel_xmltv_id entry else out) entries

-- The root `tv`, if there is one, and the guide after its programmes.
unfoldable pub parse_root :
    {Node : Type 0} → Xml Node → Calendar → Guide → Option Node → Bool × Guide
unfolding read_entry push_all
parse_root x c out none = (false, out)
parse_root x c out (some tv) =
    (true, push_all [] (map (read_entry x c) (x.children tv (codes "programme"))))

unfoldable pub parse_document :
    {Node : Type 0} → Xml Node → Calendar → Guide → Option Node → Bool × Guide
unfolding parse_root
parse_document x c out none = (false, out)
parse_document x c out (some doc) = parse_root x c out (child x doc (codes "tv"))

-- XmlTvParser::Parse: whether it succeeds, and the guide after it.
unfoldable pub parse : {Node : Type 0} → Xml Node → Calendar → Text → Guide → Bool × Guide
unfolding parse_document
parse x c xml_content out = parse_document x c out (x.load_buffer xml_content)
