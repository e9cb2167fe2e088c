-- ===== src/Acceptance/Stages.antt =====
-- acceptance/stages.py: the stages R0 (the tools) and R1 (the input files).
pub mod Locked
pub mod Bound
use blender_design.Common.{
  ℕ, Bool, true, false, ◌&&◌, String, str_eq, List, [], ◌∷◌, map, Option, none, some, member,
  distinct, set_eq, all, length, leb, ◌==◌, ◌+◌, if◌then◌else◌,
}
use blender_design.Acceptance.Registry.{Kind, interchange}
use blender_design.Acceptance.Contract.{Contract, Tool, ToolFile, InputFile, dict_get}
use blender_design.Acceptance.Dicts.{keys}
use blender_design.Acceptance.Outcome.{Finding, error}

-- An entry of the measurements; "files" may be missing.
pub record MeasuredTool : Type 0 where
  pub id : String
  pub path : String
  pub version : String
  pub sha256 : String
  pub files : Option (List ToolFile)

-- BoundFile of acceptance/input_bundle.py
pub record BoundFile : Type 0 where
  pub id : String
  pub path : String
  pub bytes : ℕ
  pub sha256 : String

abbrev pub Findings : Type 0
Findings = List (String × List Finding)

-- `Finding(code, "error", detail=detail)`
abbrev pub error_finding : String → Option String → Finding
error_finding code detail = record {
  code = code;
  severity = error;
  pointer = none;
  offset = none;
  detail = detail;
  disposition = none;
}

-- `[] if good else [finding]`
abbrev pub unless : Bool → Finding → List Finding
unless true finding = []
unless false finding = finding ∷ []

unfoldable pub same_files : List ToolFile → List ToolFile → Bool
same_files [] [] = true
same_files [] (y ∷ ys) = false
same_files (x ∷ xs) [] = false
same_files (x ∷ xs) (y ∷ ys) =
    str_eq x.path y.path && (x.bytes == y.bytes) && str_eq x.sha256 y.sha256 && same_files xs ys

abbrev pub declared_tools : Contract → List (String × Tool)
declared_tools c = map (λ (t : Tool). (t.id, t)) c.tools

abbrev pub measured_tools : List MeasuredTool → List (String × MeasuredTool)
measured_tools = map (λ (t : MeasuredTool). (t.id, t))

-- `Path(path).resolve()` and `verify_blender_gltf`, which reads the files of Blender and whose
-- failure is a message, are parameters.
module _ (resolve : String → String) (verify_blender_gltf : Tool → Option String) where
  unfoldable pub same_tool : Option Tool → Option MeasuredTool → Bool
  unfolding same_files
  same_tool (some t) (some m) =
      str_eq m.sha256 t.sha256
      && str_eq m.version t.version
      && str_eq (resolve m.path) (resolve t.path)
      && (elim m.files [ none ↦ false | some fs ↦ same_files fs t.files ])
  same_tool _ _ = false

  unfoldable pub gltf_error : Contract → Option String
  unfolding dict_get
  gltf_error c = elim c.artifact_kind [
    | interchange ↦ elim (dict_get "blender" (declared_tools c)) [
      | some t ↦ verify_blender_gltf t
      | none ↦ none
    ]
    | _ ↦ none
  ]

  unfoldable pub tools_locked : Contract → List MeasuredTool → Bool
  unfolding same_tool dict_get distinct set_eq all gltf_error
  tools_locked c tools_measured =
      let declared = declared_tools c in
      let measured = measured_tools tools_measured in
      (length (distinct (keys measured)) == length tools_measured)
      && set_eq (keys measured) (keys declared)
      && (elim (gltf_error c) [ none ↦ true | some message ↦ false ])
      && all (λ key. same_tool (dict_get key declared) (dict_get key measured))
          (distinct (keys declared))

  unfoldable pub run_r0 : Contract → List MeasuredTool → Findings
  unfolding tools_locked
  run_r0 c tools_measured =
      ("r0.contract.schema_closed", [])
      ∷ ("r0.contract.na_set_declared", [])
      ∷ (
        "r0.contract.tools_locked",
        unless (tools_locked c tools_measured)
            (error_finding "tool_identity_mismatch" (gltf_error c)),
      )
      ∷ []

unfoldable pub total_bytes : List (String × BoundFile) → ℕ
total_bytes [] = 0
total_bytes ((k, f) ∷ rest) = f.bytes + total_bytes rest

abbrev pub expected_files : Contract → List (String × InputFile)
expected_files c = map (λ (r : InputFile). (r.id, r)) c.input_files

abbrev pub same_file : Option InputFile → BoundFile → Bool
same_file none actual = true
same_file (some e) actual = (actual.bytes == e.bytes) && str_eq actual.sha256 e.sha256

-- The input files are a mapping: each key stands once.
unfoldable pub identity_ok : Contract → List (String × BoundFile) → Bool
unfolding set_eq all dict_get
identity_ok c input_files =
    set_eq (keys input_files) (keys (expected_files c))
    && all (λ (p : String × BoundFile). same_file (dict_get p.0 (expected_files c)) p.1) input_files

unfoldable pub within : Contract → List (String × BoundFile) → Bool
unfolding all total_bytes
within c input_files =
    leb (length input_files) c.budget.max_files
    && leb (total_bytes input_files) c.budget.max_total_bytes
    && all (λ (p : String × BoundFile). leb p.1.bytes c.budget.max_file_bytes) input_files

unfoldable pub run_r1 : Contract → List (String × BoundFile) → Findings
unfolding identity_ok within
run_r1 c input_files =
    (
      "r1.input.digest_recorded",
      unless (identity_ok c input_files) (error_finding "input_identity_mismatch" none),
    )
    ∷ ("r1.input.no_link_or_device", [])
    ∷ (
      "r1.input.size_within_limit",
      unless (within c input_files) (error_finding "input_budget_exceeded" none),
    )
    ∷ []
