-- ===== src/Acceptance/Decide/Success.antt =====
-- When a verdict is a success: the gate fails closed.
use blender_design.Common.{
  ◌≡◌, refl, sym, ap, ◌∙◌, Bool, true, false, not, ◌||◌, String, eq_iff, List, [], ◌∷◌, ◌++◌, map,
  none, some, ok, >>=-eq-ok, arith, member, NoRepeats, NoRepeats-of_length, length_of_NoRepeats,
  set_eq, set_eq-member, set_eq_of_member, distinct, length, insert_by, sort_by,
}
use blender_design.Acceptance.FailureCodes.{
  FailureCode, isolation_insufficient, zero_checks_collected, expected_set_mismatch,
  forged_not_applicable,
}
use blender_design.Acceptance.Registry.{SortKey, key_lt, checks, ids}
use blender_design.Acceptance.Contract.{Contract}
use blender_design.Acceptance.Outcome.{CheckOutcome, RawStatus, passed, not_applicable, Verdict}
use blender_design.Acceptance.Decide.{
  status_failure, is_failed, failed_keys, failed_ids, key_id, min_by_priority, verdict_code, when,
  Inputs, isolation_ok, sets_match, triggered_before, outcome_ids, decide, is_none, is_empty,
}
use blender_design.Acceptance.Decide.Parts.{
  status_failures, any_not_tested, Genuine, triggers, Run, decide-Run,
}
use blender_design.Acceptance.Decide.Genuine.{check_outcome-known}

abbrev pub is_accepted : RawStatus → Bool
is_accepted passed = true
is_accepted not_applicable = true
is_accepted _ = false

abbrev pub AllAccepted : List CheckOutcome → Type 0
AllAccepted [] = Unit
AllAccepted (o ∷ os) = (is_accepted o.raw_status ≡ true) × AllAccepted os

-- What a success rests on.
pub record Accepted (i : Inputs) : Type 0 where
  pub no_infra : i.infra_failures ≡ []
  pub grade : i.achieved_grade ≡ "local-trusted"
  pub required : i.contract.required_isolation_grade ≡ "local-trusted"
  pub once : NoRepeats (outcome_ids i.outcomes)
  pub covers : (k : String) → member k (outcome_ids i.outcomes) ≡ member k (ids checks)
  pub files : (k : String) → member k i.actual_files ≡ member k i.expected_files
  pub no_child_na : i.child_declared_na ≡ []
  pub statuses : AllAccepted i.outcomes

pub append-eq-nil : {A : Type 0} (xs ys : List A) → (xs ++ ys) ≡ [] → (xs ≡ []) × (ys ≡ [])
append-eq-nil [] ys h = (refl, h)
append-eq-nil (x ∷ xs) ys h = cc

pub when-eq-nil : (b : Bool) (c : FailureCode) → when b c ≡ [] → b ≡ false
when-eq-nil true c h = cc
when-eq-nil false c h = refl

pub verdict_code-eq-none :
    (codes : List FailureCode) (f n : Bool)
    → verdict_code codes f n ≡ ok none
    → (codes ≡ []) × (f ≡ false) × (n ≡ false)
unfolding verdict_code
verdict_code-eq-none [] f n h = ground arith
verdict_code-eq-none (c ∷ codes) f n h =
    let (m, e, h') = >>=-eq-ok (min_by_priority c codes) (λ c. ok (some c)) h in cc h'

any_failed : List CheckOutcome → Bool
any_failed [] = false
any_failed (o ∷ os) = is_failed o.raw_status || any_failed os

failed_keys-empty :
    (os : List CheckOutcome) {keys : List SortKey}
    → failed_keys os ≡ ok keys
    → is_empty keys ≡ not (any_failed os)
unfolding failed_keys any_failed
failed_keys-empty [] {keys} h = ground arith
failed_keys-empty (o ∷ os) {keys} h = ground (arith, failed_keys-empty os {keys = keys})

is_empty-insert_by :
    (k : SortKey) (ks : List SortKey) → is_empty (map key_id (insert_by key_lt k ks)) ≡ false
unfolding insert_by
is_empty-insert_by k [] = refl
is_empty-insert_by k (l ∷ ks) = ground arith

is_empty-sort_by : (keys : List SortKey) → is_empty (failed_ids keys) ≡ is_empty keys
unfolding sort_by
is_empty-sort_by [] = refl
is_empty-sort_by (k ∷ ks) = is_empty-insert_by k (sort_by key_lt ks)

statuses_of :
    (contract : Contract) (os : List CheckOutcome)
    → Genuine contract os
    → any_failed os ≡ false
    → any_not_tested os ≡ false
    → status_failures os ≡ []
    → AllAccepted os
unfolding any_failed status_failure
statuses_of contract [] g f n s = tt
statuses_of contract (o ∷ os) g f n s = ground (
  arith,
  check_outcome-known contract o g.0,
  statuses_of contract os g.1,
  append-eq-nil (status_failure o.raw_status) (status_failures os) s,
)

of_statuses :
    (os : List CheckOutcome)
    → AllAccepted os
    → (any_failed os ≡ false) × (any_not_tested os ≡ false) × (status_failures os ≡ [])
unfolding any_failed status_failure
of_statuses [] h = (refl, refl, refl)
of_statuses (o ∷ os) h = ground (arith, of_statuses os h.1)

isolation_ok_iff :
    (i : Inputs)
    → isolation_ok i ≡ true
    → (i.achieved_grade ≡ "local-trusted") × (i.contract.required_isolation_grade ≡ "local-trusted")
unfolding isolation_ok
isolation_ok_iff i h = ground (
  arith,
  eq_iff i.achieved_grade "local-trusted",
  eq_iff i.contract.required_isolation_grade "local-trusted",
)

sets_match-parts :
    (i : Inputs)
    → sets_match i ≡ true
    → (length (distinct (outcome_ids i.outcomes)) ≡ length (outcome_ids i.outcomes))
      × (set_eq (outcome_ids i.outcomes) (ids checks) ≡ true)
      × (set_eq i.actual_files i.expected_files ≡ true)
unfolding sets_match
sets_match-parts i h = ground arith

triggered_before-nil :
    (i : Inputs)
    → triggered_before i ≡ []
    → (i.infra_failures ≡ [])
      × (isolation_ok i ≡ true)
      × (sets_match i ≡ true)
      × (i.child_declared_na ≡ [])
unfolding triggered_before
triggered_before-nil i h =
    let (a, h₁) = append-eq-nil i.infra_failures _ h in
    let (b, h₂) = append-eq-nil (when (not (isolation_ok i)) isolation_insufficient) _ h₁ in
    let (c, h₃) = append-eq-nil (when (is_empty i.outcomes) zero_checks_collected) _ h₂ in
    let (d, e) = append-eq-nil (when (not (sets_match i)) expected_set_mismatch) _ h₃ in
    let isolated = when-eq-nil (not (isolation_ok i)) isolation_insufficient b in
    let matched = when-eq-nil (not (sets_match i)) expected_set_mismatch d in
    let silent = when-eq-nil (not (is_empty i.child_declared_na)) forged_not_applicable e in
    ground arith

triggered_before_of :
    (i : Inputs)
    → i.infra_failures ≡ []
    → isolation_ok i ≡ true
    → is_empty i.outcomes ≡ false
    → sets_match i ≡ true
    → i.child_declared_na ≡ []
    → triggered_before i ≡ []
unfolding triggered_before
triggered_before_of i a b c d e = rw (b, d, c, e, a)

-- The registered checks are not none.
some_outcome :
    (os : List CheckOutcome)
    → ((k : String) → member k (outcome_ids os) ≡ member k (ids checks))
    → is_empty os ≡ false
unfolding checks
some_outcome [] h = let e = h "r0.contract.schema_closed" in unfold member in cc e
some_outcome (o ∷ os) h = refl

no_failed_ids :
    (i : Inputs) (keys : List SortKey)
    → failed_keys i.outcomes ≡ ok keys
    → is_empty (failed_ids keys) ≡ not (any_failed i.outcomes)
no_failed_ids i keys e = is_empty-sort_by keys ∙ failed_keys-empty i.outcomes e

from_Run : (i : Inputs) (v : Verdict) (run : Run i v) → is_none run.code ≡ true → Accepted i
from_Run i v run q =
    let code : run.code ≡ none = ground arith in
    let (t, f, n) =
      verdict_code-eq-none (triggers i) (not (is_empty (failed_ids run.keys)))
        (any_not_tested i.outcomes) (rw code at run.code_eq) in
    let (tb, sf) = append-eq-nil (triggered_before i) (status_failures i.outcomes) t in
    let (a, b, c, d) = triggered_before-nil i tb in
    let (g₁, g₂) = isolation_ok_iff i b in
    let (s₁, s₂, s₃) = sets_match-parts i c in
    let empty = no_failed_ids i run.keys run.keys_eq in
    let none_failed : any_failed i.outcomes ≡ false = ground arith in
    record {
      no_infra = a;
      grade = g₁;
      required = g₂;
      once = NoRepeats-of_length (outcome_ids i.outcomes) s₁;
      covers = λ k. set_eq-member k (outcome_ids i.outcomes) (ids checks) s₂;
      files = λ k. set_eq-member k i.actual_files i.expected_files s₃;
      no_child_na = d;
      statuses = statuses_of i.contract i.outcomes run.genuine none_failed n sf;
    }

isolation_ok_of : (i : Inputs) → Accepted i → isolation_ok i ≡ true
unfolding isolation_ok
isolation_ok_of i a = ground (
  arith,
  eq_iff i.achieved_grade "local-trusted",
  eq_iff i.contract.required_isolation_grade "local-trusted",
)

sets_match_of : (i : Inputs) → Accepted i → sets_match i ≡ true
unfolding sets_match
sets_match_of i a = ground (
  arith,
  length_of_NoRepeats (outcome_ids i.outcomes) a.once,
  set_eq_of_member (outcome_ids i.outcomes) (ids checks) a.covers,
  set_eq_of_member i.actual_files i.expected_files a.files,
)

to_run : (i : Inputs) (v : Verdict) (run : Run i v) → Accepted i → is_none run.code ≡ true
unfolding verdict_code
to_run i v run a =
    let (f, n, s) = of_statuses i.outcomes a.statuses in
    let before =
      triggered_before_of i a.no_infra (isolation_ok_of i a) (some_outcome i.outcomes a.covers)
        (sets_match_of i a) a.no_child_na in
    let t : triggers i ≡ [] = rw (before, s) in
    let empty = no_failed_ids i run.keys run.keys_eq in
    let nothing : not (is_empty (failed_ids run.keys)) ≡ false = rw (empty, f) in
    let e = rw (t, nothing, n) at run.code_eq in ground arith

-- A verdict is a success only where there was no infrastructure failure, both isolation grades are
-- the trusted one, the outcomes are those of the registered checks, each once, the files are the
-- expected ones, no child declared a check not applicable, and every outcome passed or is not
-- applicable.
pub decide-success : (i : Inputs) (v : Verdict) → decide i ≡ ok v → v.success ≡ true → Accepted i
decide-success i v h s =
    let run = decide-Run i v h in
    from_Run i v run (ap (λ (w : Verdict). w.success) run.verdict_eq ∙ s)

-- A verdict is a success where there was no infrastructure failure, both isolation grades are the
-- trusted one, the outcomes are those of the registered checks, each once, the files are the
-- expected ones, no child declared a check not applicable, and every outcome passed or is not
-- applicable.
pub success-decide : (i : Inputs) (v : Verdict) → decide i ≡ ok v → Accepted i → v.success ≡ true
success-decide i v h a =
    let run = decide-Run i v h in
    sym (ap (λ (w : Verdict). w.success) run.verdict_eq) ∙ to_run i v run a
