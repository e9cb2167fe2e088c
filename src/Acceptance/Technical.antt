-- ===== src/Acceptance/Technical.antt =====
-- acceptance/decide.py, `decide_technical` and `technical_state`: the gates of a run join the
-- verdict on its checks, and the result is the state of the candidate.
pub mod Scan
pub mod Review
pub mod Rejected
use blender_design.Common.{
  Bool, true, false, not, ◌&&◌, ◌||◌, String, List, [], ◌∷◌, ◌++◌, map, Option, none, some, any,
  all, sort_by, set_eq, distinct, length, Result, ok, err, guard, ◌>>=◌, ◌>>◌, ◌==◌, if◌then◌else◌,
}
use blender_design.Acceptance.FailureCodes.{
  FailureCode, Raised, acceptance_failure, expected_set_mismatch, forged_disposition,
  runner_internal_error, check_failed,
}
use blender_design.Acceptance.Registry.{text_lt}
use blender_design.Acceptance.Outcome.{
  Finding, CheckOutcome, Disposition, RawStatus, passed, failed, warned, not_applicable, Gate,
  Verdict, is_error, is_warning, validate_finding,
}
use blender_design.Acceptance.Decide.{is_none, is_empty, min_by_priority, when}

-- A mapping as the list of its items, each key once.
abbrev pub Gates : Type 0
Gates = List (String × Gate)

abbrev pub gate_keys : Gates → List String
gate_keys = map (λ (g : String × Gate). g.0)

abbrev is_some : Option Disposition → Bool
is_some none = false
is_some (some d) = true

unfoldable pub check_gate_findings : List Finding → Result Raised (Unit {0})
check_gate_findings [] = ok tt
check_gate_findings (f ∷ fs) = do
  validate_finding f
  guard (not (is_some f.disposition)) (acceptance_failure forged_disposition)
  check_gate_findings fs

abbrev pub is_blocking : Finding → Bool
is_blocking f = is_error f || is_warning f

unfoldable pub gate_failed : Gate → Bool
unfolding any
gate_failed gate = gate.complete && any is_blocking gate.findings

pub record GateScan : Type 0 where
  pub failed_ids : List String
  pub incomplete : Bool

unfoldable pub scan_gates : GateScan → Gates → Result Raised GateScan
scan_gates scan [] = ok scan
scan_gates scan ((key, gate) ∷ rest) = do
  check_gate_findings gate.findings
  scan_gates
      (record {
        failed_ids = scan.failed_ids ++ (if gate_failed gate then key ∷ [] else []);
        incomplete = scan.incomplete || not gate.complete;
      })
      rest

-- `[] if base.failure_code in (None, "check_failed") else [base.failure_code]`
abbrev pub carried : Option FailureCode → List FailureCode
carried none = []
carried (some check_failed) = []
carried (some code) = code ∷ []

abbrev pub is_check_failed : Option FailureCode → Bool
is_check_failed (some check_failed) = true
is_check_failed _ = false

unfoldable pub gate_sets_match : List String → Gates → Bool
gate_sets_match expected gates =
    set_eq (gate_keys gates) expected && length (distinct expected) == length expected

unfoldable pub technical_code :
    List FailureCode → Option FailureCode → GateScan → Result Raised (Option FailureCode)
unfolding min_by_priority
technical_code (code ∷ codes) base scan = do c ← min_by_priority code codes; ok (some c)
technical_code [] base scan = ok (
    if is_check_failed base || not (is_empty scan.failed_ids)
    then some check_failed
    else if scan.incomplete
    then some runner_internal_error
    else none)

abbrev item_lt : String × Gate → String × Gate → Bool
item_lt (j, a) (k, b) = text_lt j k

abbrev pub technical_verdict : Verdict → Gates → GateScan → Option FailureCode → Verdict
technical_verdict base gates scan code = record {
  success = is_none code;
  failure_code = code;
  failed_check_ids = base.failed_check_ids;
  outcomes = base.outcomes;
  failed_gate_ids = sort_by text_lt scan.failed_ids;
  gates = sort_by item_lt gates;
}

abbrev pub technical_triggers : Verdict → List String → Gates → List FailureCode
technical_triggers base expected gates =
    carried base.failure_code ++ when (not (gate_sets_match expected gates)) expected_set_mismatch

unfoldable pub decide_technical : Verdict → List String → Gates → Result Raised Verdict
decide_technical base expected gates = do
  scan ← scan_gates (record { failed_ids = []; incomplete = false }) gates
  code ← technical_code (technical_triggers base expected gates) base.failure_code scan
  ok (technical_verdict base gates scan code)

pub data TechnicalState : Type 0 where
  needs_review rejected unverified : TechnicalState

abbrev pub is_judged : RawStatus → Bool
is_judged passed = true
is_judged failed = true
is_judged warned = true
is_judged not_applicable = true
is_judged _ = false

-- Every check was judged, and every gate came to its end.
unfoldable pub is_complete : Verdict → Bool
unfolding all
is_complete v =
    all (λ (o : CheckOutcome). is_judged o.raw_status) v.outcomes
    && all (λ (g : String × Gate). g.1.complete) v.gates

unfoldable pub technical_state : Verdict → TechnicalState
unfolding is_complete
technical_state v =
    if v.success
    then needs_review
    else if is_complete v && is_check_failed v.failure_code
    then rejected
    else unverified
