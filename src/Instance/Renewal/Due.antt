-- ===== src/Instance/Renewal/Due.antt =====
-- Which rules RenewRecurringRules renews, without the division.
use pvr_dispatcharrai.Prelude.{
  ◌*◌, ◌≡◌, refl, ap, ◌∙◌, Bool, true, false, ◌&&◌, ◌||◌, not, if◌then◌else◌, none, some, List, [],
  ◌∷◌, ℤ, pos, negsuc, ◌+ℤ◌, ◌-ℤ◌, leb_ℤ, ltb_ℤ, eqb_ℤ, +ℤ_parts, -ℤ_parts, arith,
}
use pvr_dispatcharrai.Instance.Renewal.{
  RecurringRule, Occurrence, quotient, is_occupied, is_passed_over, renewals, renew_recurring_rules,
}

-- An occurrence of rule `id` that is in progress, or upcoming and starting before an hour from now.
unfoldable pub is_near : ℤ → ℤ → Occurrence → Bool
unfolding ◌+ℤ◌
is_near now id rec =
    eqb_ℤ rec.recurring_rule_id id
    && (rec.is_in_progress || (rec.is_upcoming && ltb_ℤ rec.start_time (now +ℤ pos 3600)))

unfoldable pub has_near : ℤ → ℤ → List Occurrence → Bool
unfolding is_near
has_near now id [] = false
has_near now id (rec ∷ recs) = is_near now id rec || has_near now id recs

-- A rule is due if it is enabled, ends within 15 days, and has no such occurrence.
unfoldable pub is_due : ℤ → List Occurrence → RecurringRule → Bool
unfolding has_near ◌+ℤ◌
is_due now recs rule =
    rule.enabled
    && ltb_ℤ rule.end_date (now +ℤ pos (15 * 86400))
    && not (has_near now rule.rule_id recs)

unfoldable pub due : ℤ → List Occurrence → List RecurringRule → List (ℤ × ℤ)
unfolding is_due ◌+ℤ◌
due now recs [] = []
due now recs (rule ∷ rules) =
    let rest = due now recs rules in
    if is_due now recs rule then (rule.rule_id, now +ℤ pos (30 * 86400)) ∷ rest else rest

quotient_tests : (z : ℤ) → leb_ℤ (pos 15) (quotient z 86400) ≡ leb_ℤ (pos 1296000) z
quotient_tests (pos n) = ground arith
quotient_tests (negsuc n) = ground arith

end_tests : (e now : ℤ) → leb_ℤ (pos 1296000) (e -ℤ now) ≡ not (ltb_ℤ e (now +ℤ pos 1296000))
end_tests e now = ground (arith, -ℤ_parts e now, +ℤ_parts now (pos 1296000))

start_tests : (t now : ℤ) → ltb_ℤ (t -ℤ now) (pos 3600) ≡ ltb_ℤ t (now +ℤ pos 3600)
start_tests t now = ground (arith, -ℤ_parts t now, +ℤ_parts now (pos 3600))

as_or : (b rest : Bool) → (if b then true else rest) ≡ (b || rest)
as_or true rest = refl
as_or false rest = refl

is_occupied-has_near :
    (now id : ℤ) (recs : List Occurrence) → is_occupied now id recs ≡ has_near now id recs
unfolding is_occupied has_near is_near
is_occupied-has_near now id [] = refl
is_occupied-has_near now id (rec ∷ recs) =
    ap
      (λ soon.
        if eqb_ℤ rec.recurring_rule_id id && (rec.is_in_progress || (rec.is_upcoming && soon))
        then true
        else is_occupied now id recs)
      (start_tests rec.start_time now)
    ∙ as_or (is_near now id rec) (is_occupied now id recs)
    ∙ ap (λ rest. is_near now id rec || rest) (is_occupied-has_near now id recs)

decide :
    (enabled late occupied : Bool)
    → (if not enabled then true else if not late then true else occupied)
      ≡ not (enabled && late && not occupied)
decide true true true = refl
decide true true false = refl
decide true false occupied = refl
decide false late occupied = refl

passed_over-due :
    (now : ℤ) (recs : List Occurrence) (rule : RecurringRule)
    → is_passed_over now (some recs) rule ≡ not (is_due now recs rule)
unfolding is_passed_over is_due
passed_over-due now recs rule =
    let late = ltb_ℤ rule.end_date (now +ℤ pos 1296000) in
    ap
      (λ b.
        if not rule.enabled then true else if b then true else is_occupied now rule.rule_id recs)
      {x = leb_ℤ (pos 15) (quotient (rule.end_date -ℤ now) 86400)}
      (quotient_tests (rule.end_date -ℤ now) ∙ end_tests rule.end_date now)
    ∙ decide rule.enabled late (is_occupied now rule.rule_id recs)
    ∙ ap (λ near. not (rule.enabled && late && not near))
        (is_occupied-has_near now rule.rule_id recs)

swap {ℓ} : {A : Type ℓ} (b : Bool) (x y : A) → (if not b then x else y) ≡ (if b then y else x)
swap true x y = refl
swap false x y = refl

renewals-due :
    (now : ℤ) (recs : List Occurrence) (rules : List RecurringRule)
    → renewals now (some recs) rules ≡ due now recs rules
unfolding renewals due
renewals-due now recs [] = refl
renewals-due now recs (rule ∷ rules) =
    let renewed : ℤ × ℤ = (rule.rule_id, now +ℤ pos (30 * 86400)) in
    ap (λ b. if b then renewals now (some recs) rules else renewed ∷ renewals now (some recs) rules)
      (passed_over-due now recs rule)
    ∙ swap (is_due now recs rule) (renewals now (some recs) rules)
        (renewed ∷ renewals now (some recs) rules)
    ∙ ap (λ rest. if is_due now recs rule then renewed ∷ rest else rest)
        (renewals-due now recs rules)

always : (a b : Bool) → (if not a then true else if b then true else true) ≡ true
always true true = refl
always true false = refl
always false b = refl

unknown_passed : (now : ℤ) (rule : RecurringRule) → is_passed_over now none rule ≡ true
unfolding is_passed_over
unknown_passed now rule =
    always rule.enabled (leb_ℤ (pos 15) (quotient (rule.end_date -ℤ now) 86400))

all_passed : (now : ℤ) (rules : List RecurringRule) → renewals now none rules ≡ []
unfolding renewals is_passed_over
all_passed now [] = refl
all_passed now (rule ∷ rules) =
    ap
      (λ b.
        if b
        then renewals now none rules
        else (rule.rule_id, now +ℤ pos (30 * 86400)) ∷ renewals now none rules)
      (unknown_passed now rule)
    ∙ all_passed now rules

-- RenewRecurringRules, from the rules and the recordings of the server: it renews, to 30 days from
-- now, exactly the enabled rules that end before 15 days from now, have no occurrence in progress
-- and no upcoming one that starts before 3600 seconds from now; and none at all if the recordings
-- are not known.
pub renew_recurring_rules-due :
    (rules : List RecurringRule) (recs : List Occurrence) (now : ℤ)
    → (renew_recurring_rules (some rules) (some recs) now ≡ due now recs rules)
      × (renew_recurring_rules (some rules) none now ≡ [])
unfolding renew_recurring_rules
renew_recurring_rules-due rules recs now = (renewals-due now recs rules, all_passed now rules)
