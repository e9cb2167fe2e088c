-- ===== src/Acceptance/Decide.antt =====
-- acceptance/decide.py, `decide`: the outcomes of all checks, the files and the failures of the
-- infrastructure become one verdict.
pub mod Parts
pub mod Genuine
pub mod Priority
pub mod Success
pub mod Total
use blender_design.Common.{
  ℕ, Bool, true, false, not, ◌&&◌, ◌||◌, String, str_eq, List, [], ◌∷◌, ◌++◌, map, Option, none,
  some, all, sort_by, set_eq, distinct, length, Result, ok, err, guard, ◌>>=◌, ◌>>◌, ltb, ◌==◌, ite,
  if◌then◌else◌,
}
use blender_design.Acceptance.FailureCodes.{
  FailureCode, Raised, acceptance_failure, key_error, tool_crashed, tool_output_invalid,
  zero_checks_collected, expected_set_mismatch, forged_not_applicable, evidence_missing,
  evidence_truncated, isolation_insufficient, runner_internal_error, check_failed, is_infra_family,
  family_priority,
}
use blender_design.Acceptance.Registry.{SortKey, spec_of, sort_key, key_lt, checks, ids}
use blender_design.Acceptance.Contract.{Contract}
use blender_design.Acceptance.Outcome.{
  CheckOutcome, CheckOutcome_discrete, RawStatus, failed, warned, truncated, crash, missing,
  not_tested, Verdict,
}
use blender_design.Acceptance.Aggregate.{terminal_of, aggregate}

abbrev pub when : Bool → FailureCode → List FailureCode
when true code = code ∷ []
when false code = []

-- What the loop over the outcomes carries.
pub record Scan : Type 0 where
  pub incomplete : Bool
  pub triggered : List FailureCode

-- The failure that a raw status stands for.
unfoldable pub status_failure : RawStatus → List FailureCode
status_failure crash = tool_crashed ∷ []
status_failure missing = evidence_missing ∷ []
status_failure truncated = evidence_truncated ∷ []
status_failure _ = []

abbrev pub is_not_tested : RawStatus → Bool
is_not_tested not_tested = true
is_not_tested _ = false

-- The outcome is made again, and has to come out the same.
unfoldable pub check_outcome : Contract → CheckOutcome → Result Raised (Unit {0})
check_outcome contract o = do
  rebuilt ←
      aggregate o.id o.findings contract o.tool_id o.tool_version o.source_truncated
        (terminal_of o.raw_status)
  ite (CheckOutcome_discrete o rebuilt) (ok tt) (err (acceptance_failure tool_output_invalid))

unfoldable pub scan_outcomes : Contract → Scan → List CheckOutcome → Result Raised Scan
unfolding status_failure
scan_outcomes contract scan [] = ok scan
scan_outcomes contract scan (o ∷ os) = do
  check_outcome contract o
  scan_outcomes contract
      (record {
        incomplete = scan.incomplete || is_not_tested o.raw_status;
        triggered = scan.triggered ++ status_failure o.raw_status;
      })
      os

abbrev pub is_failed : RawStatus → Bool
is_failed failed = true
is_failed warned = true
is_failed _ = false

abbrev pub outcome_ids : List CheckOutcome → List String
outcome_ids = map (λ (o : CheckOutcome). o.id)

-- The failed ids with their sort keys; `_SPEC[key]` raises for an unknown id.
unfoldable pub failed_keys : List CheckOutcome → Result Raised (List SortKey)
failed_keys [] = ok []
failed_keys (o ∷ os) =
    let rest = failed_keys os in
    if is_failed o.raw_status
    then (elim (spec_of o.id) [
      | none ↦ err key_error
      | some spec ↦ do keys ← rest; ok (sort_key spec ∷ keys)
    ])
    else rest

abbrev pub key_id : SortKey → String
key_id key = key.2

-- `min(..., key=fc.family_priority)`: the first of the codes with the least priority.
unfoldable pub min_by_priority : FailureCode → List FailureCode → Result Raised FailureCode
min_by_priority best [] = do p ← family_priority best; ok best
min_by_priority best (code ∷ codes) = do
  p ← family_priority best
  q ← family_priority code
  min_by_priority (if ltb q p then code else best) codes

-- The last expression of `decide`.
unfoldable pub verdict_code : List FailureCode → Bool → Bool → Result Raised (Option FailureCode)
unfolding min_by_priority
verdict_code (code ∷ codes) any_failed incomplete = do c ← min_by_priority code codes; ok (some c)
verdict_code [] any_failed incomplete = ok (
    if any_failed
    then some check_failed
    else if incomplete
    then some runner_internal_error
    else none)

abbrev pub is_none : Option FailureCode → Bool
is_none none = true
is_none (some c) = false

abbrev pub is_empty {ℓ} : {A : Type ℓ} → List A → Bool
is_empty [] = true
is_empty (x ∷ xs) = false

-- The keyword arguments of `decide`; a set is a list of its elements, and no declaration of checks
-- as not applicable by a child is the empty set.
pub record Inputs : Type 0 where
  pub contract : Contract
  pub outcomes : List CheckOutcome
  pub actual_files : List String
  pub expected_files : List String
  pub achieved_grade : String
  pub infra_failures : List FailureCode
  pub child_declared_na : List String

unfoldable pub isolation_ok : Inputs → Bool
isolation_ok i =
    str_eq i.achieved_grade "local-trusted"
    && str_eq i.contract.required_isolation_grade "local-trusted"

-- Exactly the registered checks, each once, and exactly the expected files.
unfoldable pub sets_match : Inputs → Bool
sets_match i =
    length (distinct (outcome_ids i.outcomes)) == length (outcome_ids i.outcomes)
    && set_eq (outcome_ids i.outcomes) (ids checks)
    && set_eq i.actual_files i.expected_files

-- `triggered` as it stands before the loop.
unfoldable pub triggered_before : Inputs → List FailureCode
triggered_before i =
    i.infra_failures
    ++ (when (not (isolation_ok i)) isolation_insufficient
        ++ (when (is_empty i.outcomes) zero_checks_collected
            ++ (when (not (sets_match i)) expected_set_mismatch
                ++ when (not (is_empty i.child_declared_na)) forged_not_applicable)))

abbrev pub failed_ids : List SortKey → List String
failed_ids keys = map key_id (sort_by key_lt keys)

abbrev pub verdict_of : Inputs → List SortKey → Option FailureCode → Verdict
verdict_of i keys code = record {
  success = is_none code;
  failure_code = code;
  failed_check_ids = failed_ids keys;
  outcomes = i.outcomes;
  failed_gate_ids = [];
  gates = [];
}

unfoldable pub conclude : Inputs → Scan → List SortKey → Result Raised Verdict
conclude i scan keys = do
  code ← verdict_code scan.triggered (not (is_empty (failed_ids keys))) scan.incomplete
  ok (verdict_of i keys code)

unfoldable pub decide : Inputs → Result Raised Verdict
unfolding conclude
decide i = do
  guard (all is_infra_family i.infra_failures) (acceptance_failure runner_internal_error)
  scan ←
      scan_outcomes i.contract (record { incomplete = false; triggered = triggered_before i })
        i.outcomes
  keys ← failed_keys i.outcomes
  conclude i scan keys
