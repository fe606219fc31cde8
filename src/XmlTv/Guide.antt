-- ===== src/XmlTv/Guide.antt =====
-- Which entries Parse files under a channel.
use pvr_dispatcharrai.Prelude.{
  ◌≡◌, not, pos, eqb_ℤ, refl, sym, ap, subst, ◌∙◌, Bool, true, false, ◌&&◌, if◌then◌else◌, if_split,
  Bool-cases, inl, inr, some, List, [], ◌∷◌, ◌++◌, map, append-nil, append_assoc, arith,
}
use pvr_dispatcharrai.Prelude.Text.{Text, codes, is_empty, text_eq}
use pvr_dispatcharrai.Prelude.Find.{text_eq→eq, text_eq_self}
use pvr_dispatcharrai.Time.{Calendar}
use pvr_dispatcharrai.XmlTv.{
  Xml, EpgEntry, child, read_entry, is_taken, Guide, push_entry, push_all, parse_root,
  parse_document, parse,
}

-- The entries of a channel.
unfoldable pub entries_under : Guide → Text → List EpgEntry
unfolding text_eq
entries_under [] id = []
entries_under ((key, entries) ∷ more) id =
    let later = entries_under more id in if text_eq key id then entries else later

-- An entry of channel `id` with a start and an end that are not 0; no channel has the empty name.
unfoldable pub is_wanted : Text → EpgEntry → Bool
unfolding text_eq
is_wanted id e =
    not (is_empty id)
    && (text_eq e.channel_xmltv_id id
        && (not (eqb_ℤ e.start_time (pos 0)) && not (eqb_ℤ e.end_time (pos 0))))

-- The wanted entries of a channel among those that are read, in their order.
unfoldable pub entries_of : Text → List EpgEntry → List EpgEntry
unfolding is_wanted
entries_of id [] = []
entries_of id (e ∷ es) = let rest = entries_of id es in if is_wanted id e then e ∷ rest else rest

clash {ℓ} : {A : Type ℓ} (b : Bool) → b ≡ true → b ≡ false → A
clash true h k = ground arith
clash false h k = ground arith

-- A text that is like one of two different texts is not like the other.
apart : (key id ch : Text) → text_eq key id ≡ false → text_eq key ch ≡ true → text_eq id ch ≡ false
apart key id ch h k = elim (Bool-cases (text_eq id ch)) [
  | inl e ↦ clash (text_eq key id) (ap (text_eq key) {x = id} {y = ch} (text_eq→eq id ch e) ∙ k) h
  | inr e ↦ e
]

-- What is filed under `id` is wanted there.
is_taken-is_wanted :
    (id : Text) (e : EpgEntry) → (is_taken e && text_eq e.channel_xmltv_id id) ≡ is_wanted id e
unfolding is_taken is_wanted
is_taken-is_wanted id e = elim (Bool-cases (text_eq e.channel_xmltv_id id)) [
  | inl same ↦
      let to_id = text_eq→eq e.channel_xmltv_id id same in
      subst (λ k. (is_taken e && text_eq e.channel_xmltv_id k) ≡ is_wanted k e) to_id
        (rw (text_eq_self e.channel_xmltv_id) (ground arith))
  | inr other ↦ rw other (ground arith)
]

module _ {A : Type 0} where
  same_test :
      (b : Bool) (xs more : List A) (e : A)
      → (if b then xs ++ (e ∷ []) else more)
        ≡ (if b then xs else more) ++ (if b then e ∷ [] else [])
  same_test true xs more e = refl
  same_test false xs more e = sym (append-nil more)

  other_test :
      (b d : Bool) (xs more longer tail : List A)
      → (b ≡ true → d ≡ false)
      → longer ≡ more ++ (if d then tail else [])
      → (if b then xs else longer) ≡ (if b then xs else more) ++ (if d then tail else [])
  other_test true d xs more longer tail h k =
      sym (append-nil xs) ∙ ap (λ c. xs ++ (if c then tail else [])) (sym (h refl))
  other_test false d xs more longer tail h k = k

-- One entry is added at the end of those of its channel.
entries_under-push_entry :
    (out : Guide) (id ch : Text) (e : EpgEntry)
    → entries_under (push_entry out id e) ch
      ≡ entries_under out ch ++ (if text_eq id ch then e ∷ [] else [])
unfolding entries_under push_entry
entries_under-push_entry [] id ch e = refl
entries_under-push_entry ((key, es) ∷ more) id ch e =
    if_split
      (λ g.
        entries_under g ch
        ≡ entries_under ((key, es) ∷ more) ch ++ (if text_eq id ch then e ∷ [] else []))
      (text_eq key id) {x = (key, es ++ (e ∷ [])) ∷ more} {y = (key, es) ∷ push_entry more id e}
      (λ h.
        same_test (text_eq key ch) es (entries_under more ch) e
        ∙ ap (λ k. entries_under ((key, es) ∷ more) ch ++ (if text_eq k ch then e ∷ [] else []))
            (text_eq→eq key id h))
      (λ h.
        other_test (text_eq key ch) (text_eq id ch) es (entries_under more ch)
          (entries_under (push_entry more id e) ch) (e ∷ []) (apart key id ch h)
          (entries_under-push_entry more id ch e))

taken-step :
    (b d : Bool) (out pushed : Guide) (ch : Text) (e : EpgEntry) (rest : List EpgEntry)
    → entries_under pushed ch ≡ entries_under out ch ++ (if d then e ∷ [] else [])
    → entries_under (if b then pushed else out) ch ++ rest
      ≡ entries_under out ch ++ (if b && d then e ∷ rest else rest)
taken-step true true out pushed ch e rest h =
    ap (λ k. k ++ rest) h ∙ append_assoc (entries_under out ch) (e ∷ []) rest
taken-step true false out pushed ch e rest h =
    ap (λ k. k ++ rest) (h ∙ append-nil (entries_under out ch))
taken-step false d out pushed ch e rest h = refl

entries_under-push_all :
    (es : List EpgEntry) (out : Guide) (ch : Text)
    → entries_under (push_all out es) ch ≡ entries_under out ch ++ entries_of ch es
unfolding push_all entries_of
entries_under-push_all [] out ch = sym (append-nil (entries_under out ch))
entries_under-push_all (e ∷ es) out ch =
    entries_under-push_all es (if is_taken e then push_entry out e.channel_xmltv_id e else out) ch
    ∙ taken-step (is_taken e) (text_eq e.channel_xmltv_id ch) out
        (push_entry out e.channel_xmltv_id e) ch e (entries_of ch es)
        (entries_under-push_entry out e.channel_xmltv_id ch e)
    ∙ ap (λ b. entries_under out ch ++ (if b then e ∷ entries_of ch es else entries_of ch es))
        (is_taken-is_wanted ch e)

-- It succeeds, and files under a channel what is read of its programmes.
abbrev pub Files : {Node : Type 0} → Xml Node → Calendar → Text → Node → Bool × Guide → Type 0
Files x c ch tv r =
    (r.0 ≡ true)
    × (entries_under r.1 ch
        ≡ entries_of ch (map (read_entry x c) (x.children tv (codes "programme"))))

-- If the document can be parsed and has a root `tv`, then Parse succeeds, and what it files under
-- a channel, whatever was in the guide before, is what it reads of the programmes of that channel,
-- in the order of the document, without those whose start or end is 0; nothing is filed under the
-- empty name.
pub parse-entries_of :
    {Node : Type 0}
    → (x : Xml Node) (c : Calendar) (content : Text) (out : Guide) (doc tv : Node) (ch : Text)
    → x.load_buffer content ≡ some doc
    → child x doc (codes "tv") ≡ some tv
    → Files x c ch tv (parse x c content out)
unfolding parse parse_document parse_root entries_under entries_of
parse-entries_of x c content out doc tv ch h k =
    subst (Files x c ch tv) (sym (ap (parse_document x c out) h ∙ ap (parse_root x c out) k)) (
      refl,
      entries_under-push_all (map (read_entry x c) (x.children tv (codes "programme"))) [] ch,
    )
