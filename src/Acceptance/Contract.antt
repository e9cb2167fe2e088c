-- ===== src/Acceptance/Contract.antt =====
-- acceptance/contract.py: the fields of a frozen contract that the decision, the plan and the
-- stages read, and the tests on them. The document is read and validated elsewhere.
use blender_design.Common.{
  ℕ, Bool, ◌&&◌, String, str_eq, List, [], ◌∷◌, map, Option, none, some, any, Result, guard,
  if◌then◌else◌,
}
use blender_design.Acceptance.FailureCodes.{Raised, acceptance_failure, contract_invalid}
use blender_design.Acceptance.Registry.{Kind}

pub record WarningRule : Type 0 where
  pub check_id : String
  pub warning_code : String
  pub tool_id : String
  pub tool_version : String

pub record ToolFile : Type 0 where
  pub path : String
  pub bytes : ℕ
  pub sha256 : String

pub record Tool : Type 0 where
  pub id : String
  pub path : String
  pub version : String
  pub sha256 : String
  pub files : List ToolFile

pub record InputFile : Type 0 where
  pub id : String
  pub bytes : ℕ
  pub sha256 : String

pub record Budget : Type 0 where
  pub max_files : ℕ
  pub max_file_bytes : ℕ
  pub max_total_bytes : ℕ
  pub max_result_bytes : ℕ

pub record Contract : Type 0 where
  pub artifact_kind : Kind
  pub na_check_ids : List String
  pub required_isolation_grade : String
  pub tools : List Tool
  pub warning_allowlist : List WarningRule
  pub input_files : List InputFile
  pub budget : Budget
  -- the keys of limits.timeout_seconds
  pub timeout_writers : List String
  pub log_bytes : ℕ
  pub required_image_ids : List String

-- `require`
unfoldable pub require : Bool → Result Raised (Unit {0})
require condition = guard condition (acceptance_failure contract_invalid)

-- `dict(row) == target`
abbrev rule_matches : String → String → String → String → WarningRule → Bool
rule_matches check_id code tool_id version row =
    str_eq row.check_id check_id
    && str_eq row.warning_code code
    && str_eq row.tool_id tool_id
    && str_eq row.tool_version version

unfoldable pub allowlisted : Contract → String → String → String → String → Bool
unfolding any
allowlisted self check_id code tool_id version =
    any (rule_matches check_id code tool_id version) self.warning_allowlist

-- A dict built from pairs: the last pair of a key counts.
unfoldable pub dict_get {ℓ} : {V : Type ℓ} → String → List (String × V) → Option V
dict_get k [] = none
dict_get k ((j, v) ∷ rest) = elim (dict_get k rest) [
  | some w ↦ some w
  | none ↦ if str_eq j k then some v else none
]

-- `{tool["id"]: tool["version"] for tool in contract.raw["tools"]}`
abbrev pub tool_versions : Contract → List (String × String)
tool_versions c = map (λ (t : Tool). (t.id, t.version)) c.tools
