-- ===== src/Tests/Planning.antt =====
-- A plan of two jobs: an inspection, and a look at the file that it wrote, which the first can block.
use Prim.Native.String.{◌++◌ as join_text}
use blender_design.Common.{
  ◌≡◌, ◌≤◌, refl, true, String, List, [], ◌∷◌, ◌++◌, ok, member, subset, distinct, length, filter,
  sort_by, insert_by, all, NoRepeats,
}
use blender_design.Acceptance.Registry.{
  blend_native, checks, checks_for_kind, table, v2_impl, ids, text_lt,
}
use blender_design.Acceptance.Contract.{Contract, require}
use blender_design.Acceptance.Paths.{valid_id, relative_path, segments}
use blender_design.Acceptance.Plan.{
  FileSpec, JobSpec, RunPlan, file_ok, file_spec, file_specs, file_ids, file_paths, source_ids,
  claim_checks, plan_outputs, job_ok, plan_job, plan_jobs, image_ids, plan_ok, run_plan,
  assemble_plan,
}
use blender_design.Acceptance.Plan.Steps.{all_check_ids, all_output_ids, AllRelative, Owned}
use blender_design.Acceptance.Plan.Promises.{
  assemble_plan-Owned, assemble_plan-order, assemble_plan-AllRelative,
}

abbrev contract : Contract
contract = record {
  artifact_kind = blend_native;
  na_check_ids = [];
  required_isolation_grade = "local-trusted";
  tools =
      record { id = "python"; path = "/opt/python"; version = "3.11"; sha256 = "aa"; files = [] }
      ∷ record {
        id = "acceptance";
        path = "/opt/acceptance";
        version = "1";
        sha256 = "bb";
        files = [];
      }
      ∷ record { id = "blender"; path = "/opt/blender"; version = "5.0"; sha256 = "cc"; files = [] }
      ∷ [];
  warning_allowlist = [];
  input_files = record { id = "scene"; bytes = 100; sha256 = "dd" } ∷ [];
  budget = record {
    max_files = 12;
    max_file_bytes = 1000;
    max_total_bytes = 10000;
    max_result_bytes = 100;
  };
  timeout_writers = "inspector" ∷ "reopen_probe" ∷ [];
  log_bytes = 100;
  required_image_ids = "view" ∷ [];
}

abbrev inspect : JobSpec
inspect = record {
  job_id = "inspect";
  writer = "inspector";
  tool_id = "blender";
  check_ids = "r2.inventory.no_nan_inf" ∷ "r2.geometry.validate_clean" ∷ [];
  input_ids = "scene" ∷ [];
  outputs =
      record {
        id = "view";
        path = "views/front.png";
        writer = "inspector";
        media_type = "image/png";
        max_bytes = 500;
      }
      ∷ [];
  blocking_check_ids = [];
}

abbrev reopen : JobSpec
reopen = record {
  job_id = "reopen";
  writer = "reopen_probe";
  tool_id = "blender";
  check_ids = "r4.reopen.offline_ok" ∷ [];
  input_ids = "scene" ∷ "view" ∷ [];
  outputs = [];
  blocking_check_ids = "r2.geometry.validate_clean" ∷ [];
}

abbrev common_files : String → String → List FileSpec
common_files job writer =
    record {
      id = join_text job ".result";
      path = join_text job "/result.json";
      writer = writer;
      media_type = "application/json";
      max_bytes = 100;
    }
    ∷ record {
      id = join_text job ".request";
      path = join_text job "/request.json";
      writer = "coordinator";
      media_type = "application/json";
      max_bytes = 100;
    }
    ∷ record {
      id = join_text job ".job";
      path = join_text job "/job.json";
      writer = "coordinator";
      media_type = "application/json";
      max_bytes = 100;
    }
    ∷ record {
      id = join_text job ".log";
      path = join_text job "/process.log";
      writer = "coordinator";
      media_type = "text/plain";
      max_bytes = 100;
    }
    ∷ []

abbrev files : List FileSpec
files =
    record {
      id = "run";
      path = "run.json";
      writer = "coordinator";
      media_type = "application/json";
      max_bytes = 100;
    }
    ∷ record {
      id = "gates";
      path = "gates.json";
      writer = "coordinator";
      media_type = "application/json";
      max_bytes = 100;
    }
    ∷ record {
      id = "view";
      path = "inspect/views/front.png";
      writer = "inspector";
      media_type = "image/png";
      max_bytes = 500;
    }
    ∷ (common_files "inspect" "inspector" ++ common_files "reopen" "reopen_probe")

unfoldable plan : RunPlan
unfolding checks_for_kind
plan = record {
  jobs = inspect ∷ reopen ∷ [];
  files = files;
  check_ids = ids (checks_for_kind blend_native);
  na_check_ids = [];
  required_tools = "acceptance" ∷ "blender" ∷ "python" ∷ [];
  gate_ids = "native.reference" ∷ [];
}

assembled : assemble_plan contract (inspect ∷ reopen ∷ []) ("native.reference" ∷ []) ≡ ok plan
unfolding assemble_plan plan run_plan plan_ok plan_jobs plan_job job_ok plan_outputs claim_checks
    file_specs file_spec file_ok require valid_id relative_path segments checks_for_kind checks
    table v2_impl filter member subset distinct sort_by insert_by text_lt all
assembled = refl

assemble_plan-Owned_example :
    NoRepeats (all_check_ids (inspect ∷ reopen ∷ [])) × Owned contract (inspect ∷ reopen ∷ [])
assemble_plan-Owned_example =
    assemble_plan-Owned contract (inspect ∷ reopen ∷ []) ("native.reference" ∷ []) plan assembled

assemble_plan-order_example :
    (subset reopen.input_ids (source_ids contract ++ all_output_ids (inspect ∷ [])) ≡ true)
    × (subset reopen.blocking_check_ids (all_check_ids (inspect ∷ [])) ≡ true)
assemble_plan-order_example =
    assemble_plan-order contract (inspect ∷ []) reopen [] ("native.reference" ∷ []) plan assembled

assemble_plan-AllRelative_example :
    NoRepeats (file_ids plan.files)
    × NoRepeats (file_paths plan.files)
    × AllRelative plan.files
    × (length plan.files ≤ contract.budget.max_files)
    × (subset contract.required_image_ids (image_ids contract plan.files) ≡ true)
assemble_plan-AllRelative_example =
    assemble_plan-AllRelative contract (inspect ∷ reopen ∷ []) ("native.reference" ∷ []) plan
      assembled
