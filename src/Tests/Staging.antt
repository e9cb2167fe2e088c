-- ===== src/Tests/Staging.antt =====
-- The first stages over a contract with one tool and one input file.
use blender_design.Common.{
  ◌≡◌, ◌↔◌, refl, true, String, List, [], ◌∷◌, Option, none, some, member, NoRepeats, distinct,
  set_eq, subset, all,
}
use blender_design.Acceptance.Registry.{interchange}
use blender_design.Acceptance.Contract.{Contract, Tool, dict_get}
use blender_design.Acceptance.Dicts.{keys}
use blender_design.Acceptance.Stages.{
  MeasuredTool, BoundFile, run_r0, run_r1, tools_locked, gltf_error, same_tool, same_files,
  identity_ok, within, total_bytes,
}
use blender_design.Acceptance.Stages.Locked.{Locked, run_r0-Locked}
use blender_design.Acceptance.Stages.Bound.{Bound, run_r1-Bound}

unfoldable contract : Contract
contract = record {
  artifact_kind = interchange;
  na_check_ids = [];
  required_isolation_grade = "local-trusted";
  tools =
      record {
        id = "blender";
        path = "/opt/blender";
        version = "4.5";
        sha256 = "aa";
        files = record { path = "/opt/m.py"; bytes = 7; sha256 = "cc" } ∷ [];
      }
      ∷ [];
  warning_allowlist = [];
  input_files = record { id = "asset"; bytes = 900; sha256 = "bb" } ∷ [];
  budget = record {
    max_files = 1;
    max_file_bytes = 1000;
    max_total_bytes = 1000;
    max_result_bytes = 100;
  };
  timeout_writers = [];
  log_bytes = 100;
  required_image_ids = [];
}

abbrev resolve : String → String
resolve path = path

-- The files of Blender verify.
abbrev verified : Tool → Option String
verified tool = none

abbrev measured : MeasuredTool
measured = record {
  id = "blender";
  path = "/opt/blender";
  version = "4.5";
  sha256 = "aa";
  files = some (record { path = "/opt/m.py"; bytes = 7; sha256 = "cc" } ∷ []);
}

abbrev files : List (String × BoundFile)
files =
    ("asset", record { id = "asset"; path = "/in/asset.blend"; bytes = 900; sha256 = "bb" }) ∷ []

run_r0-Locked_example :
    (dict_get "r0.contract.tools_locked" (run_r0 resolve verified contract (measured ∷ []))
      ≡ some [])
    ↔ Locked resolve verified contract (measured ∷ [])
run_r0-Locked_example = run_r0-Locked resolve verified contract (measured ∷ [])

locked : tools_locked resolve verified contract (measured ∷ []) ≡ true
unfolding tools_locked contract same_tool same_files gltf_error dict_get set_eq subset member
    distinct all
locked = refl

each_once : NoRepeats (keys files)
unfolding member
each_once = (refl, tt)

run_r1-Bound_example :
    ((dict_get "r1.input.digest_recorded" (run_r1 contract files) ≡ some [])
      × (dict_get "r1.input.size_within_limit" (run_r1 contract files) ≡ some []))
    ↔ Bound contract files
run_r1-Bound_example = run_r1-Bound contract files each_once

bounded : (identity_ok contract files ≡ true) × (within contract files ≡ true)
unfolding identity_ok within contract total_bytes dict_get set_eq subset member all
bounded = (refl, refl)
