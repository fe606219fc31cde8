-- ===== src/Instance/Renewal.antt =====
-- RenewRecurringRules.
pub mod Due
use pvr_dispatcharrai.Prelude.{
  ℕ, zero, suc, ◌+◌, ◌*◌, ◌/◌, Bool, true, false, ◌||◌, ◌&&◌, not, if◌then◌else◌, Option, none,
  some, List, [], ◌∷◌, ℤ, pos, negsuc, sub_ℕ, ◌+ℤ◌, ◌-ℤ◌, leb_ℤ, ltb_ℤ, eqb_ℤ,
}

-- What is used of a RecurringRule and of a Recording.
pub record RecurringRule : Type 0 where
  pub rule_id : ℤ
  pub end_date : ℤ
  pub enabled : Bool

pub record Occurrence : Type 0 where
  pub recurring_rule_id : ℤ
  pub start_time : ℤ
  pub is_in_progress : Bool
  pub is_upcoming : Bool

abbrev pub window_days : ℕ
window_days = 30

abbrev pub safety_margin_seconds : ℕ
safety_margin_seconds = 3600

-- `z / n`, which drops the fraction.
abbrev pub quotient : ℤ → ℕ → ℤ
quotient (pos z) n = pos (z / n)
quotient (negsuc z) n = sub_ℕ 0 (suc z / n)

-- Whether an occurrence of the rule is recording, or will soon.
unfoldable pub is_occupied : ℤ → ℤ → List Occurrence → Bool
unfolding ◌-ℤ◌
is_occupied now id [] = false
is_occupied now id (rec ∷ recs) =
    let rest = is_occupied now id recs in
    let soon = rec.is_upcoming && ltb_ℤ (rec.start_time -ℤ now) (pos safety_margin_seconds) in
    if eqb_ℤ rec.recurring_rule_id id && (rec.is_in_progress || soon) then true else rest

-- Without the recordings, any rule counts as occupied.
abbrev pub occupied_among : ℤ → ℤ → Option (List Occurrence) → Bool
occupied_among now id none = true
occupied_among now id (some recs) = is_occupied now id recs

unfoldable pub is_passed_over : ℤ → Option (List Occurrence) → RecurringRule → Bool
unfolding is_occupied ◌-ℤ◌
is_passed_over now recordings rule =
    if not rule.enabled
    then true
    else if leb_ℤ (pos (window_days / 2)) (quotient (rule.end_date -ℤ now) 86400)
    then true
    else occupied_among now rule.rule_id recordings

-- The rules whose end date is sent to the server, with the new date.
unfoldable pub renewals : ℤ → Option (List Occurrence) → List RecurringRule → List (ℤ × ℤ)
unfolding is_passed_over ◌+ℤ◌
renewals now recordings [] = []
renewals now recordings (rule ∷ rules) =
    let rest = renewals now recordings rules in
    if is_passed_over now recordings rule
    then rest
    else (rule.rule_id, now +ℤ pos (window_days * 86400)) ∷ rest

-- RenewRecurringRules: the calls of ExtendRecurringRuleEndDate.
unfoldable pub renew_recurring_rules :
    Option (List RecurringRule) → Option (List Occurrence) → ℤ → List (ℤ × ℤ)
unfolding renewals
renew_recurring_rules none recordings now = []
renew_recurring_rules (some rules) recordings now = renewals now recordings rules
