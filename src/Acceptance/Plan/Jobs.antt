-- ===== src/Acceptance/Plan/Jobs.antt =====
-- acceptance/plan.py, JobSpec.__post_init__: the tests on the fields of a job, and on its parameters,
-- which must have a canonical form.
use blender_design.Common.{
  ◌≡◌, refl, Bool, true, false, not, ◌&&◌, String, str_eq, List, [], ◌∷◌, all, member, Result, ok,
  err, ◌>>◌, guard-eq-ok, >>=-eq-ok,
}
use blender_design.Protocol.Framing.{Bytes}
use blender_design.Protocol.Json.{Json, obj}
use blender_design.Acceptance.FailureCodes.{Raised, acceptance_failure, contract_invalid}
use blender_design.Acceptance.Contract.{require}
use blender_design.Acceptance.Paths.{valid_id}
use blender_design.Acceptance.Canonical.Numbers.{CanonicalError, Floats}
use blender_design.Acceptance.Canonical.{Unicode, canonicalize}
use blender_design.Acceptance.Plan.{JobSpec}

abbrev job_tools : List String
job_tools = "python" ∷ "blender" ∷ "node" ∷ []

-- `_strings`, on a list of texts
unfoldable pub strings : List String → Result Raised (Unit {0})
unfolding require all
strings value = require (all valid_id value)

abbrev pub is_mapping : Json → Bool
is_mapping (obj fields) = true
is_mapping _ = false

-- `canonicalize(parameters)`, with its `except` clause
abbrev pub canonical_or_raise : Result CanonicalError Bytes → Result Raised (Unit {0})
canonical_or_raise (ok bytes) = ok tt
canonical_or_raise (err e) = err (acceptance_failure contract_invalid)

-- `JobSpec(...)`, with its parameters
unfoldable pub job_spec : Floats → Unicode → Json → JobSpec → Result Raised JobSpec
unfolding require member strings canonicalize
job_spec floats unicode parameters j = do
  require (valid_id j.job_id && not (str_eq j.writer ""))
  require (member j.tool_id job_tools)
  strings j.check_ids
  strings j.input_ids
  strings j.blocking_check_ids
  require (is_mapping parameters)
  canonical_or_raise (canonicalize floats unicode parameters)
  ok j

-- What holds of a job that was accepted.
pub record Sound (floats : Floats) (unicode : Unicode) (parameters : Json) (j : JobSpec)
    : Type 0 where
  pub id_valid : (valid_id j.job_id && not (str_eq j.writer "")) ≡ true
  pub tool_known : member j.tool_id job_tools ≡ true
  pub check_ids_valid : all valid_id j.check_ids ≡ true
  pub input_ids_valid : all valid_id j.input_ids ≡ true
  pub blocking_valid : all valid_id j.blocking_check_ids ≡ true
  pub mapping : is_mapping parameters ≡ true
  pub canonical : Bytes
  pub canonical_eq : canonicalize floats unicode parameters ≡ ok canonical

canonical_or_raise-eq-ok :
    (r : Result CanonicalError Bytes) {u : Unit {0}}
    → canonical_or_raise r ≡ ok u
    → (bytes : Bytes) × (r ≡ ok bytes)
canonical_or_raise-eq-ok (ok bytes) h = (bytes, refl)
canonical_or_raise-eq-ok (err e) h = cc

-- A job is accepted only with valid ids, a known tool, and parameters that have a canonical form;
-- it is returned as it is.
pub job_spec-Sound :
    (floats : Floats) (unicode : Unicode) (parameters : Json) (j : JobSpec) {j' : JobSpec}
    → job_spec floats unicode parameters j ≡ ok j'
    → Sound floats unicode parameters j × (j ≡ j')
unfolding job_spec require strings
job_spec-Sound floats unicode parameters j {j'} h =
    let raised = acceptance_failure contract_invalid in
    let (a, h₁) = guard-eq-ok (valid_id j.job_id && not (str_eq j.writer "")) raised _ h in
    let (b, h₂) = guard-eq-ok (member j.tool_id job_tools) raised _ h₁ in
    let (c, h₃) = guard-eq-ok (all valid_id j.check_ids) raised _ h₂ in
    let (d, h₄) = guard-eq-ok (all valid_id j.input_ids) raised _ h₃ in
    let (e, h₅) = guard-eq-ok (all valid_id j.blocking_check_ids) raised _ h₄ in
    let (f, h₆) = guard-eq-ok (is_mapping parameters) raised _ h₅ in
    let (u, g, h₇) =
      >>=-eq-ok (canonical_or_raise (canonicalize floats unicode parameters)) (λ _. ok j) h₆ in
    let (bytes, k) = canonical_or_raise-eq-ok (canonicalize floats unicode parameters) g in
    (
      record {
        id_valid = a;
        tool_known = b;
        check_ids_valid = c;
        input_ids_valid = d;
        blocking_valid = e;
        mapping = f;
        canonical = bytes;
        canonical_eq = k;
      },
      cc h₇,
    )
