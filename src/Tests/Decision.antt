-- ===== src/Tests/Decision.antt =====
-- Runs of the acceptance over all registered checks: one that passes, and one with a failed check.
use blender_design.Common.{
  ◌≡◌, refl, ◌≢◌, ◌⊎◌, ◌↔◌, inl, Bool, true, false, String, str_eq, String_discrete, List, [], ◌∷◌,
  Option, none, some, all, any, member, set_eq, subset, ℕ_discrete, distinct, filter, insert_by,
  sort_by, ok, if◌then◌else◌,
}
use blender_design.Acceptance.FailureCodes.{
  FailureCode, check_failed, tool_crashed, is_infra_family, family_priority,
}
use blender_design.Acceptance.Registry.{
  CheckSpec, r2, blend_native, checks, table, spec_of, na_check_ids, text_lt, key_lt, sort_key,
  stage_index, v2_impl,
}
use blender_design.Acceptance.Contract.{Contract, dict_get, allowlisted}
use blender_design.Acceptance.Outcome.{
  Finding, CheckOutcome, CheckOutcome_discrete, RawStatus, passed, failed, not_applicable,
  effective_pass, effective_fail, effective_not_applicable, error, warning, accepted_warning,
  Disposition, Verdict, validate_finding,
}
use blender_design.Acceptance.Aggregate.{
  aggregate, aggregate_na, aggregate_tool, tool_locked, outcome_of, normalize, normalize_all,
  raw_status_of, terminal_of,
}
use blender_design.Acceptance.Aggregate.Rebuild.{aggregate-rebuild}
use blender_design.Acceptance.Decide.{
  Inputs, decide, conclude, verdict_code, min_by_priority, scan_outcomes, check_outcome,
  failed_keys, triggered_before, isolation_ok, sets_match, status_failure, verdict_of,
}
use blender_design.Acceptance.Decide.Parts.{triggers}
use blender_design.Acceptance.Decide.Priority.{Among, IsFirst, decide-IsFirst}
use blender_design.Acceptance.Decide.Success.{Accepted, decide-success, success-decide}
use blender_design.Acceptance.Decide.Total.{Aggregated, none_left, made, decide_total}
use blender_design.Acceptance.Technical.{
  Gates, decide_technical, technical_code, scan_gates, gate_failed, gate_sets_match,
  check_gate_findings, technical_state, is_complete, needs_review, rejected,
}
use blender_design.Acceptance.Technical.Scan.{failed_gates}
use blender_design.Acceptance.Technical.Review.{GatesPass, needs_review_iff}
use blender_design.Acceptance.Technical.Rejected.{rejected_found}

unfoldable contract : Contract
unfolding na_check_ids
contract = record {
  artifact_kind = blend_native;
  na_check_ids = na_check_ids blend_native;
  required_isolation_grade = "local-trusted";
  tools =
      record { id = "python"; path = "/opt/python"; version = "3.11"; sha256 = "aa"; files = [] }
      ∷ [];
  warning_allowlist =
      record {
        check_id = "r2.material.slots_resolved";
        warning_code = "empty_material_slot";
        tool_id = "python";
        tool_version = "3.11";
      }
      ∷ [];
  input_files = [];
  budget = record {
    max_files = 100;
    max_file_bytes = 1000;
    max_total_bytes = 10000;
    max_result_bytes = 100;
  };
  timeout_writers = [];
  log_bytes = 100;
  required_image_ids = [];
}

-- An outcome that the contract's tool made.
abbrev tool_outcome : CheckSpec → RawStatus → List Finding → CheckOutcome
tool_outcome spec raw findings = record {
  id = spec.id;
  stage = spec.stage;
  raw_status = raw;
  effective_status = elim raw [ passed ↦ effective_pass | _ ↦ effective_fail ];
  accepted = elim findings [ [] ↦ false | _ ↦ elim raw [ passed ↦ true | _ ↦ false ] ];
  tool_id = some "python";
  tool_version = some "3.11";
  findings = findings;
  source_truncated = false;
}

abbrev skipped : CheckSpec → CheckOutcome
skipped spec = record {
  id = spec.id;
  stage = spec.stage;
  raw_status = not_applicable;
  effective_status = effective_not_applicable;
  accepted = false;
  tool_id = none;
  tool_version = none;
  findings = [];
  source_truncated = false;
}

abbrev wrong : Finding
wrong = record {
  code = "missing_file";
  severity = error;
  pointer = none;
  offset = none;
  detail = none;
  disposition = none;
}

-- All checks pass, but that of the id `bad`.
unfoldable outcomes : String → List CheckSpec → List CheckOutcome
unfolding contract
outcomes bad [] = []
outcomes bad (c ∷ cs) =
    (if member c.id contract.na_check_ids
      then skipped c
      else if str_eq c.id bad
      then tool_outcome c failed (wrong ∷ [])
      else tool_outcome c passed [])
    ∷ outcomes bad cs

unfoldable inputs : String → Inputs
unfolding outcomes checks
inputs bad = record {
  contract = contract;
  outcomes = outcomes bad checks;
  actual_files = "run" ∷ "gates" ∷ [];
  expected_files = "gates" ∷ "run" ∷ [];
  achieved_grade = "local-trusted";
  infra_failures = [];
  child_declared_na = [];
}

unfoldable verdict : String → Option FailureCode → List String → Verdict
unfolding inputs
verdict bad code failed_ids = record {
  success = elim code [ none ↦ true | some c ↦ false ];
  failure_code = code;
  failed_check_ids = failed_ids;
  outcomes = outcomes bad checks;
  failed_gate_ids = [];
  gates = [];
}

passing_run : decide (inputs "") ≡ ok (verdict "" none [])
unfolding decide inputs verdict all scan_outcomes check_outcome aggregate member spec_of
    aggregate_tool tool_locked normalize_all CheckOutcome_discrete outcome_of raw_status_of
    aggregate_na failed_keys verdict_code triggered_before isolation_ok normalize allowlisted
    dict_get conclude min_by_priority sets_match status_failure family_priority is_infra_family
    validate_finding checks key_lt na_check_ids sort_key stage_index table text_lt v2_impl any
    filter insert_by sort_by String_discrete distinct set_eq subset contract outcomes ℕ_discrete
passing_run = refl

succeeds : (verdict "" none []).success ≡ true
unfolding verdict
succeeds = refl

decide-success_example : Accepted (inputs "")
decide-success_example = decide-success (inputs "") (verdict "" none []) passing_run succeeds

success-decide_example : (verdict "" none []).success ≡ true
success-decide_example =
    success-decide (inputs "") (verdict "" none []) passing_run
      (decide-success (inputs "") (verdict "" none []) passing_run succeeds)

-- The gates of a run: one that ended with a remark, and one that found an error.
abbrev gates : Bool → Gates
gates good =
    ("process", record { complete = true; findings = [] })
    ∷ ("budget", record { complete = true; findings = if good then [] else wrong ∷ [] })
    ∷ []

abbrev gate_ids : List String
gate_ids = "budget" ∷ "process" ∷ []

unfoldable technical : String → Option FailureCode → List String → Bool → List String → Verdict
unfolding inputs
technical bad code failed_ids good failed_gate_ids = record {
  success = elim code [ none ↦ true | some c ↦ false ];
  failure_code = code;
  failed_check_ids = failed_ids;
  outcomes = outcomes bad checks;
  failed_gate_ids = failed_gate_ids;
  gates =
      ("budget", record { complete = true; findings = if good then [] else wrong ∷ [] })
      ∷ ("process", record { complete = true; findings = [] })
      ∷ [];
}

passing_gates :
    decide_technical (verdict "" none []) gate_ids (gates true) ≡ ok (technical "" none [] true [])
unfolding decide_technical verdict technical technical_code scan_gates gate_failed gate_sets_match
    check_gate_findings set_eq subset member distinct sort_by insert_by text_lt any
passing_gates = refl

needs_review_iff_example :
    (technical_state (technical "" none [] true []) ≡ needs_review)
    ↔ (Accepted (inputs "") × GatesPass gate_ids (gates true))
needs_review_iff_example =
    needs_review_iff (inputs "") (verdict "" none []) (technical "" none [] true []) gate_ids
      (gates true) passing_run passing_gates

-- A check fails, and so does a gate.
abbrev bad_check : String
bad_check = "r4.reopen.offline_ok"

failing_run :
    decide (inputs bad_check) ≡ ok (verdict bad_check (some check_failed) (bad_check ∷ []))
unfolding decide inputs verdict all scan_outcomes check_outcome aggregate member spec_of
    aggregate_tool tool_locked normalize_all CheckOutcome_discrete outcome_of raw_status_of
    aggregate_na failed_keys verdict_code triggered_before isolation_ok normalize allowlisted
    dict_get conclude min_by_priority sets_match status_failure family_priority is_infra_family
    validate_finding checks key_lt na_check_ids sort_key stage_index table text_lt v2_impl any
    filter insert_by sort_by String_discrete distinct set_eq subset contract outcomes ℕ_discrete
failing_run = refl

failing_gates :
    decide_technical (verdict bad_check (some check_failed) (bad_check ∷ [])) gate_ids (gates false)
    ≡ ok (technical bad_check (some check_failed) (bad_check ∷ []) false ("budget" ∷ []))
unfolding decide_technical verdict technical technical_code scan_gates gate_failed gate_sets_match
    check_gate_findings set_eq subset member distinct sort_by insert_by text_lt any validate_finding
failing_gates = refl

is_rejected :
    technical_state (technical bad_check (some check_failed) (bad_check ∷ []) false ("budget" ∷ []))
    ≡ rejected
unfolding technical_state technical is_complete all checks table v2_impl outcomes contract
    na_check_ids filter insert_by sort_by text_lt member String_discrete
is_rejected = refl

rejected_found_example :
    (((verdict bad_check (some check_failed) (bad_check ∷ [])).failed_check_ids ≢ [])
      ⊎ (failed_gates (gates false) ≢ []))
    × (is_complete (technical bad_check (some check_failed) (bad_check ∷ []) false ("budget" ∷ []))
        ≡ true)
    × (triggers (inputs bad_check) ≡ [])
    × (gate_sets_match gate_ids (gates false) ≡ true)
rejected_found_example =
    rejected_found (inputs bad_check) (verdict bad_check (some check_failed) (bad_check ∷ []))
      (technical bad_check (some check_failed) (bad_check ∷ []) false ("budget" ∷ [])) gate_ids
      (gates false) failing_run failing_gates is_rejected

-- A warning that the contract accepts.
abbrev empty_slot : Option Disposition → Finding
empty_slot d = record {
  code = "empty_material_slot";
  severity = warning;
  pointer = none;
  offset = none;
  detail = none;
  disposition = d;
}

unfoldable accepted_outcome : CheckOutcome
accepted_outcome = record {
  id = "r2.material.slots_resolved";
  stage = r2;
  raw_status = passed;
  effective_status = effective_pass;
  accepted = true;
  tool_id = some "python";
  tool_version = some "3.11";
  findings = empty_slot (some accepted_warning) ∷ [];
  source_truncated = false;
}

warning_accepted :
    aggregate "r2.material.slots_resolved"
      (empty_slot none ∷ [])
      contract
      (some "python")
      (some "3.11")
      false
      none
    ≡ ok accepted_outcome
unfolding accepted_outcome aggregate member spec_of aggregate_tool tool_locked normalize_all
    outcome_of raw_status_of normalize allowlisted dict_get validate_finding checks table v2_impl
    any contract na_check_ids filter insert_by sort_by text_lt
warning_accepted = refl

aggregate-rebuild_example :
    aggregate accepted_outcome.id accepted_outcome.findings contract accepted_outcome.tool_id
      accepted_outcome.tool_version accepted_outcome.source_truncated
      (terminal_of accepted_outcome.raw_status)
    ≡ ok accepted_outcome
aggregate-rebuild_example =
    aggregate-rebuild "r2.material.slots_resolved" (empty_slot none ∷ []) contract (some "python")
      (some "3.11") false none warning_accepted

-- A run that was cut short, on a machine that is not trusted, after a crash.
unfoldable partial : Inputs
partial = record {
  contract = contract;
  outcomes = accepted_outcome ∷ [];
  actual_files = [];
  expected_files = "run" ∷ [];
  achieved_grade = "none";
  infra_failures = tool_crashed ∷ [];
  child_declared_na = [];
}

partial_families : all is_infra_family partial.infra_failures ≡ true
unfolding partial all is_infra_family
partial_families = refl

partial-Aggregated : Aggregated partial.contract partial.outcomes
unfolding partial
partial-Aggregated =
    made "r2.material.slots_resolved" (empty_slot none ∷ []) (some "python") (some "3.11") false
      none warning_accepted none_left

decide_total_example : (v : Verdict) × (decide partial ≡ ok v)
decide_total_example = decide_total partial partial_families partial-Aggregated

partial_run : decide partial ≡ ok (verdict_of partial [] (some tool_crashed))
unfolding partial accepted_outcome decide inputs verdict all scan_outcomes check_outcome aggregate
    member spec_of aggregate_tool tool_locked normalize_all CheckOutcome_discrete outcome_of
    raw_status_of aggregate_na failed_keys verdict_code triggered_before isolation_ok normalize
    allowlisted dict_get conclude min_by_priority sets_match status_failure family_priority
    is_infra_family validate_finding checks key_lt na_check_ids sort_key stage_index table text_lt
    v2_impl any filter insert_by sort_by String_discrete distinct set_eq subset contract outcomes
    ℕ_discrete
partial_run = refl

partial_crash : Among tool_crashed (triggers partial)
unfolding partial triggered_before
partial_crash = inl refl

decide-IsFirst_example :
    (c : FailureCode) × ((verdict_of partial [] (some tool_crashed)).failure_code ≡ some c)
    × IsFirst c (triggers partial)
decide-IsFirst_example =
    decide-IsFirst partial (verdict_of partial [] (some tool_crashed)) tool_crashed partial_run
      partial_crash
