-- ===== src/Acceptance/FailureCodes.antt =====
-- acceptance/failure_codes.py: the families of failures, in the order of their priority, and the
-- exceptions that the acceptance code raises (AcceptanceFailure of acceptance/primitives.py, and
-- the built-in ones). The text of an exception is not modelled.
use blender_design.Common.{
  ℕ, ◌≡◌, refl, Bool, true, false, String, String_discrete, List, [], ◌∷◌, map, Result, ok, err,
}

-- A code is a text in the program: one of the families, or `other`.
pub data FailureCode : Type 0 where
  contract_invalid toolchain_mismatch tool_crashed tool_output_invalid : FailureCode
  stale_result_file zero_checks_collected expected_set_mismatch forged_not_applicable : FailureCode
  forged_disposition evidence_missing evidence_truncated hash_mismatch : FailureCode
  isolation_insufficient resource_limit_exceeded runner_internal_error check_failed : FailureCode
  other : String → FailureCode

unfoldable pub FailureCode_discrete : Discrete FailureCode
unfolding String_discrete
FailureCode_discrete = hlevel String_discrete

pub data Raised : Type 0 where
  acceptance_failure : FailureCode → Raised
  value_error key_error : Raised

abbrev pub failure_families : List FailureCode
failure_families =
    contract_invalid ∷ toolchain_mismatch ∷ tool_crashed ∷ tool_output_invalid ∷ stale_result_file
    ∷ zero_checks_collected ∷ expected_set_mismatch ∷ forged_not_applicable ∷ forged_disposition
    ∷ evidence_missing ∷ evidence_truncated ∷ hash_mismatch ∷ isolation_insufficient
    ∷ resource_limit_exceeded ∷ runner_internal_error ∷ check_failed ∷ []

-- Membership in INFRA_FAMILIES: every family but `check_failed`.
unfoldable pub is_infra_family : FailureCode → Bool
is_infra_family (other _) = false
is_infra_family check_failed = false
is_infra_family _ = true

unfoldable pub family_priority : FailureCode → Result Raised ℕ
family_priority contract_invalid = ok 0
family_priority toolchain_mismatch = ok 1
family_priority tool_crashed = ok 2
family_priority tool_output_invalid = ok 3
family_priority stale_result_file = ok 4
family_priority zero_checks_collected = ok 5
family_priority expected_set_mismatch = ok 6
family_priority forged_not_applicable = ok 7
family_priority forged_disposition = ok 8
family_priority evidence_missing = ok 9
family_priority evidence_truncated = ok 10
family_priority hash_mismatch = ok 11
family_priority isolation_insufficient = ok 12
family_priority resource_limit_exceeded = ok 13
family_priority runner_internal_error = ok 14
family_priority check_failed = ok 15
family_priority (other _) = err value_error

-- The index in the tuple is the priority.
family_priority_table :
    map family_priority failure_families
    ≡ ok 0
      ∷ ok 1
      ∷ ok 2
      ∷ ok 3
      ∷ ok 4
      ∷ ok 5
      ∷ ok 6
      ∷ ok 7
      ∷ ok 8
      ∷ ok 9
      ∷ ok 10
      ∷ ok 11
      ∷ ok 12
      ∷ ok 13
      ∷ ok 14
      ∷ ok 15
      ∷ []
unfolding family_priority
family_priority_table = refl
