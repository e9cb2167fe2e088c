-- ===== src/Acceptance/Aggregate.antt =====
-- acceptance/decide.py, `aggregate`: the findings of one check become its outcome.
pub mod Rebuild
use blender_design.Common.{
  Bool, true, false, not, ◌&&◌, ◌||◌, String, str_eq, List, [], ◌∷◌, Option, none, some, any,
  member, Result, ok, err, guard, ◌>>=◌, ◌>>◌, if◌then◌else◌,
}
use blender_design.Acceptance.FailureCodes.{
  Raised, acceptance_failure, toolchain_mismatch, tool_output_invalid, forged_not_applicable,
  forged_disposition,
}
use blender_design.Acceptance.Registry.{CheckSpec, spec_of}
use blender_design.Acceptance.Contract.{Contract, allowlisted, dict_get, tool_versions}
use blender_design.Acceptance.Outcome.{
  Finding, CheckOutcome, Disposition, accepted_warning, other_disposition, RawStatus, passed,
  failed, warned, truncated, crash, missing, not_tested, not_applicable, effective_pass,
  effective_fail, effective_not_applicable, is_error, is_warning, validate_finding,
}

-- `_TERMINALS`, without its `None`
abbrev pub is_terminal : RawStatus → Bool
is_terminal crash = true
is_terminal missing = true
is_terminal not_tested = true
is_terminal _ = false

-- `outcome.raw_status if outcome.raw_status in _TERMINALS else None`, where `decide` calls this.
abbrev pub terminal_of : RawStatus → Option RawStatus
terminal_of s = if is_terminal s then some s else none

abbrev pub terminal_allowed : Option RawStatus → Bool
terminal_allowed none = true
terminal_allowed (some s) = is_terminal s

abbrev is_none {ℓ} : {A : Type ℓ} → Option A → Bool
is_none none = true
is_none (some a) = false

abbrev is_empty {ℓ} : {A : Type ℓ} → List A → Bool
is_empty [] = true
is_empty (x ∷ xs) = false

-- `finding.disposition in (None, disposition)`
abbrev disposition_allowed : Option Disposition → Bool → Bool
disposition_allowed none accepted = true
disposition_allowed (some accepted_warning) accepted = accepted
disposition_allowed (some (other_disposition s)) accepted = false

abbrev derived : Bool → Option Disposition
derived accepted = if accepted then some accepted_warning else none

module _ (contract : Contract) (check_id tool_id tool_version : String) where
  -- The body of the loop over the findings.
  unfoldable pub normalize : Finding → Result Raised Finding
  unfolding validate_finding
  normalize finding =
      let accepted =
        is_warning finding && allowlisted contract check_id finding.code tool_id tool_version in
      do
        validate_finding finding
        guard (disposition_allowed finding.disposition accepted)
            (acceptance_failure forged_disposition)
        ok (record finding { disposition = derived accepted })

  unfoldable pub normalize_all : List Finding → Result Raised (List Finding)
  normalize_all [] = ok []
  normalize_all (f ∷ fs) = do f' ← normalize f; fs' ← normalize_all fs; ok (f' ∷ fs')

-- A warning that no rule of the contract accepts.
abbrev pub is_open_warning : Finding → Bool
is_open_warning f = is_warning f && is_none f.disposition

unfoldable pub raw_status_of : Option RawStatus → Bool → List Finding → RawStatus
unfolding any
raw_status_of (some terminal) truncation normalized = terminal
raw_status_of none truncation normalized =
    if truncation
    then truncated
    else if any is_error normalized
    then failed
    else if any is_open_warning normalized
    then warned
    else passed

abbrev pub is_passed : RawStatus → Bool
is_passed passed = true
is_passed _ = false

-- The branch of a check that the contract declares not applicable.
unfoldable pub aggregate_na :
    CheckSpec
    → List Finding
    → Option String
    → Option String
    → Bool
    → Option RawStatus
    → Result Raised CheckOutcome
aggregate_na spec findings tool_id tool_version source_truncated terminal = do
  guard
      (is_empty findings
        && is_none terminal
        && not source_truncated
        && is_none tool_id
        && is_none tool_version)
      (acceptance_failure forged_not_applicable)
  ok (record {
    id = spec.id;
    stage = spec.stage;
    raw_status = not_applicable;
    effective_status = effective_not_applicable;
    accepted = false;
    tool_id = none;
    tool_version = none;
    findings = [];
    source_truncated = false;
  })

-- The tool of the outcome has to be one of the contract's, in its version.
unfoldable pub tool_locked : Contract → Option String → Option String → Bool
unfolding dict_get
tool_locked contract (some tool_id) (some version) =
    elim (dict_get tool_id (tool_versions contract)) [ none ↦ false | some v ↦ str_eq version v ]
tool_locked contract _ _ = false

abbrev pub text_or_empty : Option String → String
text_or_empty none = ""
text_or_empty (some s) = s

unfoldable pub outcome_of :
    CheckSpec → List Finding → Option String → Option String → Bool → RawStatus → CheckOutcome
unfolding any
outcome_of spec normalized tool_id tool_version source_truncated raw = record {
  id = spec.id;
  stage = spec.stage;
  raw_status = raw;
  effective_status = if is_passed raw then effective_pass else effective_fail;
  accepted = is_passed raw && any is_warning normalized;
  tool_id = tool_id;
  tool_version = tool_version;
  findings = normalized;
  source_truncated = source_truncated;
}

-- The branch of a check that applies.
unfoldable pub aggregate_tool :
    CheckSpec
    → List Finding
    → Contract
    → Option String
    → Option String
    → Bool
    → Option RawStatus
    → Result Raised CheckOutcome
aggregate_tool spec findings contract tool_id tool_version source_truncated terminal = do
  guard (tool_locked contract tool_id tool_version) (acceptance_failure toolchain_mismatch)
  normalized ←
      normalize_all contract spec.id (text_or_empty tool_id) (text_or_empty tool_version) findings
  let raw = raw_status_of terminal source_truncated normalized
  ok (outcome_of spec normalized tool_id tool_version source_truncated raw)

-- The two branches, once the check is known.
abbrev pub aggregate_spec :
    CheckSpec
    → List Finding
    → Contract
    → Option String
    → Option String
    → Bool
    → Option RawStatus
    → Result Raised CheckOutcome
aggregate_spec spec findings contract tool_id tool_version source_truncated terminal =
    if member spec.id contract.na_check_ids
    then aggregate_na spec findings tool_id tool_version source_truncated terminal
    else aggregate_tool spec findings contract tool_id tool_version source_truncated terminal

unfoldable pub aggregate :
    String
    → List Finding
    → Contract
    → Option String
    → Option String
    → Bool
    → Option RawStatus
    → Result Raised CheckOutcome
aggregate check_id findings contract tool_id tool_version source_truncated terminal = do
  guard (terminal_allowed terminal) (acceptance_failure tool_output_invalid)
  elim (spec_of check_id) [
    | none ↦ err (acceptance_failure tool_output_invalid)
    | some spec ↦
        aggregate_spec spec findings contract tool_id tool_version source_truncated terminal
  ]
