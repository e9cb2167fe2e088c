-- ===== src/Acceptance/Outcome.antt =====
-- acceptance/decide.py: findings, outcomes, gates and verdicts. The types of the fields are
-- the records' own, so the code's tests on dynamic types have no counterpart; its tests on values do.
use blender_design.Common.{
  ℕ, Bool, true, false, not, ◌&&◌, String, str_eq, String_discrete, List, Option, some, Result,
  guard, ℕ_discrete,
}
use blender_design.Acceptance.FailureCodes.{
  FailureCode, Raised, acceptance_failure, tool_output_invalid,
}
use blender_design.Acceptance.Registry.{Stage}

-- Texts with a closed set of meanings, and any other text.
pub data Severity : Type 0 where
  error warning info : Severity
  other_severity : String → Severity

pub data Disposition : Type 0 where
  accepted_warning : Disposition
  other_disposition : String → Disposition

pub data RawStatus : Type 0 where
  passed failed warned truncated crash missing not_tested not_applicable : RawStatus
  other_status : String → RawStatus

pub data EffectiveStatus : Type 0 where
  effective_pass effective_fail effective_not_applicable : EffectiveStatus

-- A Python integer: `negsuc n` is -(n + 1).
pub data ℤ : Type 0 where
  pos negsuc : ℕ → ℤ

pub record Finding : Type 0 where
  pub code : String
  pub severity : Severity
  pub pointer : Option String
  pub offset : Option ℤ
  pub detail : Option String
  pub disposition : Option Disposition

pub record CheckOutcome : Type 0 where
  pub id : String
  pub stage : Stage
  pub raw_status : RawStatus
  pub effective_status : EffectiveStatus
  pub accepted : Bool
  pub tool_id : Option String
  pub tool_version : Option String
  pub findings : List Finding
  pub source_truncated : Bool

pub record Gate : Type 0 where
  pub complete : Bool
  pub findings : List Finding

pub record Verdict : Type 0 where
  pub success : Bool
  pub failure_code : Option FailureCode
  pub failed_check_ids : List String
  pub outcomes : List CheckOutcome
  pub failed_gate_ids : List String
  pub gates : List (String × Gate)

unfoldable pub CheckOutcome_discrete : Discrete CheckOutcome
unfolding String_discrete
CheckOutcome_discrete = hlevel (String_discrete, ℕ_discrete)

abbrev pub is_error : Finding → Bool
is_error f = elim f.severity [ error ↦ true | _ ↦ false ]

abbrev pub is_warning : Finding → Bool
is_warning f = elim f.severity [ warning ↦ true | _ ↦ false ]

abbrev known_severity : Severity → Bool
known_severity (other_severity s) = false
known_severity _ = true

abbrev valid_offset : Option ℤ → Bool
valid_offset (some (negsuc n)) = false
valid_offset _ = true

unfoldable pub validate_finding : Finding → Result Raised (Unit {0})
validate_finding f =
    guard (not (str_eq f.code "") && known_severity f.severity && valid_offset f.offset)
      (acceptance_failure tool_output_invalid)
