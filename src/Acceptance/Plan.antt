-- ===== src/Acceptance/Plan.antt =====
-- acceptance/plan.py: the jobs of a run, the files that they write, and `assemble_plan`, which
-- checks that they fit the contract. The parameters of a job, which it does not read, stand beside
-- the job where they are tested (Acceptance/Plan/Jobs).
pub mod Steps
pub mod Rounds
pub mod Promises
pub mod Jobs
use Prim.Native.String.{◌++◌ as join_text}
use blender_design.Common.{
  ℕ, Bool, true, false, not, ◌&&◌, String, str_eq, List, [], ◌∷◌, ◌++◌, map, Option, none, some,
  all, filter, sort_by, member, subset, distinct, length, Result, ok, err, guard, ◌>>=◌, ◌>>◌, ltb,
  leb, ◌==◌, if◌then◌else◌,
}
use blender_design.Acceptance.FailureCodes.{Raised}
use blender_design.Acceptance.Registry.{CheckSpec, checks_for_kind, find_spec, ids, text_lt}
use blender_design.Acceptance.Contract.{Contract, InputFile, Tool, require}
use blender_design.Acceptance.Paths.{valid_id, relative_path}

pub record FileSpec : Type 0 where
  pub id : String
  pub path : String
  pub writer : String
  pub media_type : String
  pub max_bytes : ℕ

abbrev media : List String
media =
    "application/json" ∷ "image/png" ∷ "model/gltf-binary" ∷ "application/octet-stream"
    ∷ "text/plain" ∷ []

-- The conditions of FileSpec.__post_init__.
unfoldable pub file_ok : FileSpec → Bool
unfolding member
file_ok f =
    valid_id f.id
    && relative_path f.path
    && not (str_eq f.writer "")
    && member f.media_type media
    && ltb 0 f.max_bytes

unfoldable pub file_spec : FileSpec → Result Raised FileSpec
unfolding require
file_spec f = do require (file_ok f); ok f

pub record JobSpec : Type 0 where
  pub job_id : String
  pub writer : String
  pub tool_id : String
  pub check_ids : List String
  pub input_ids : List String
  pub outputs : List FileSpec
  pub blocking_check_ids : List String

pub record RunPlan : Type 0 where
  pub jobs : List JobSpec
  pub files : List FileSpec
  pub check_ids : List String
  pub na_check_ids : List String
  pub required_tools : List String
  pub gate_ids : List String

-- The variables of the loop over the jobs.
pub record Building : Type 0 where
  pub claimed : List String
  pub known_inputs : List String
  pub job_ids : List String
  pub files : List FileSpec

abbrev pub file_ids : List FileSpec → List String
file_ids = map (λ (f : FileSpec). f.id)

abbrev pub file_paths : List FileSpec → List String
file_paths = map (λ (f : FileSpec). f.path)

abbrev pub source_ids : Contract → List String
source_ids contract = map (λ (f : InputFile). f.id) contract.input_files

abbrev pub tool_ids : Contract → List String
tool_ids contract = map (λ (t : Tool). t.id) contract.tools

-- `len(set(xs)) == len(xs)`
abbrev pub no_repeats : List String → Bool
no_repeats xs = length (distinct xs) == length xs

-- `FileSpec(...)` for each of the files, in turn.
unfoldable pub file_specs : List FileSpec → Result Raised (List FileSpec)
unfolding file_spec
file_specs [] = ok []
file_specs (f ∷ fs) = do f' ← file_spec f; fs' ← file_specs fs; ok (f' ∷ fs')

-- The `_strings` of RunPlan.__post_init__ on the four fields.
unfoldable pub run_plan : RunPlan → Result Raised RunPlan
unfolding require all
run_plan plan = do
  require (all valid_id plan.check_ids)
  require (all valid_id plan.na_check_ids)
  require (all valid_id plan.required_tools)
  require (all valid_id plan.gate_ids)
  ok plan

module _ (contract : Contract) where
  abbrev pub claimable : String → List String → String → Bool
  claimable writer claimed k = elim (find_spec k (checks_for_kind contract.artifact_kind)) [
    | none ↦ false
    | some spec ↦ str_eq spec.writer writer && not (member k claimed)
  ]

  unfoldable pub claim_checks : String → List String → List String → Result Raised (List String)
  unfolding require
  claim_checks writer claimed [] = ok claimed
  claim_checks writer claimed (k ∷ ks) = do
    require (claimable writer claimed k)
    claim_checks writer (claimed ++ k ∷ []) ks

  abbrev pub in_job : String → String → String
  in_job job_id path = join_text job_id (join_text "/" path)

  -- The loop over the outputs of a job: the ids that are known then, and the files.
  unfoldable pub plan_outputs :
      JobSpec
      → List String
      → List FileSpec
      → List FileSpec
      → Result Raised (List String × List FileSpec)
  unfolding require file_spec
  plan_outputs job known files [] = ok (known, files)
  plan_outputs job known files (output ∷ outputs) = do
    require (str_eq output.writer job.writer && not (str_eq output.path "result.json"))
    require (not (member output.id known))
    f ← file_spec (record output { path = in_job job.job_id output.path })
    plan_outputs job (known ++ output.id ∷ []) (files ++ f ∷ []) outputs

  abbrev owned : String → String → String → String → String → ℕ → FileSpec
  owned job_id suffix name owner media_type limit = record {
    id = join_text job_id (join_text "." suffix);
    path = in_job job_id name;
    writer = owner;
    media_type = media_type;
    max_bytes = limit;
  }

  -- The four files that every job has.
  abbrev pub standard_files : JobSpec → List FileSpec
  standard_files job =
      owned job.job_id "result" "result.json" job.writer "application/json"
        contract.budget.max_result_bytes
      ∷ owned job.job_id "request" "request.json" "coordinator" "application/json"
          contract.budget.max_result_bytes
      ∷ owned job.job_id "job" "job.json" "coordinator" "application/json"
          contract.budget.max_result_bytes
      ∷ owned job.job_id "log" "process.log" "coordinator" "text/plain" contract.log_bytes
      ∷ []

  -- The tests at the head of a round.
  unfoldable pub job_ok : Building → JobSpec → Bool
  unfolding subset
  job_ok b job =
      not (member job.job_id b.job_ids)
      && not (str_eq job.writer "coordinator")
      && member job.writer contract.timeout_writers
      && no_repeats job.input_ids
      && subset job.input_ids b.known_inputs
      && subset job.blocking_check_ids b.claimed

  -- The variables at the end of a round.
  abbrev pub after_job :
      Building → JobSpec → List String → List String × List FileSpec → List FileSpec → Building
  after_job b job claimed outputs standard = record {
    claimed = claimed;
    known_inputs = outputs.0;
    job_ids = b.job_ids ++ job.job_id ∷ [];
    files = outputs.1 ++ standard;
  }

  unfoldable pub plan_job : Building → JobSpec → Result Raised Building
  unfolding job_ok claim_checks plan_outputs file_specs require
  plan_job b job = do
    require (job_ok b job)
    claimed ← claim_checks job.writer b.claimed job.check_ids
    outputs ← plan_outputs job b.known_inputs b.files job.outputs
    standard ← file_specs (standard_files job)
    ok (after_job b job claimed outputs standard)

  unfoldable pub plan_jobs : Building → List JobSpec → Result Raised Building
  unfolding plan_job
  plan_jobs b [] = ok b
  plan_jobs b (job ∷ jobs) = do b' ← plan_job b job; plan_jobs b' jobs

  abbrev coordinator_file : String → FileSpec
  coordinator_file key = record {
    id = key;
    path = join_text key ".json";
    writer = "coordinator";
    media_type = "application/json";
    max_bytes = contract.budget.max_result_bytes;
  }

  -- `{"python", "acceptance", "blender"} | {job.tool_id for job in jobs}`
  abbrev pub required_of : List JobSpec → List String
  required_of jobs = "python" ∷ "acceptance" ∷ "blender" ∷ map (λ (j : JobSpec). j.tool_id) jobs

  abbrev pub image_ids : List FileSpec → List String
  image_ids files = file_ids (filter (λ (f : FileSpec). str_eq f.media_type "image/png") files)

  -- The tests after the loop.
  unfoldable pub plan_ok : List JobSpec → List FileSpec → Bool
  unfolding distinct subset filter
  plan_ok jobs files =
      no_repeats (file_ids files)
      && no_repeats (file_paths files)
      && leb (length files) contract.budget.max_files
      && subset contract.required_image_ids (image_ids files)
      && subset (required_of jobs) (tool_ids contract)

  abbrev pub plan_of : List JobSpec → List String → List FileSpec → RunPlan
  plan_of jobs gate_ids files = record {
    jobs = jobs;
    files = files;
    check_ids = ids (checks_for_kind contract.artifact_kind);
    na_check_ids = contract.na_check_ids;
    required_tools = sort_by text_lt (distinct (required_of jobs));
    gate_ids = gate_ids;
  }

  unfoldable pub assemble_plan : List JobSpec → List String → Result Raised RunPlan
  unfolding require file_specs plan_jobs plan_ok run_plan
  assemble_plan jobs gate_ids = do
    require (all valid_id gate_ids && no_repeats gate_ids)
    files ← file_specs (coordinator_file "run" ∷ coordinator_file "gates" ∷ [])
    b ←
        plan_jobs
          (record { claimed = []; known_inputs = source_ids contract; job_ids = []; files = files })
          jobs
    require (plan_ok jobs b.files)
    run_plan (plan_of jobs gate_ids b.files)
