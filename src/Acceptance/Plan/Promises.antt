-- ===== src/Acceptance/Plan/Promises.antt =====
-- What a plan promises to the run that follows it.
use blender_design.Common.{
  ◌≡◌, ◌≤◌, true, ◌&&◌, String, List, [], ◌∷◌, ◌++◌, all, subset, length, distinct, NoRepeats,
  NoRepeats-of_length, ok, >>=-eq-ok, ◌>>=◌, ◌>>◌, arith,
}
use blender_design.Acceptance.Contract.{Contract, require}
use blender_design.Acceptance.Paths.{valid_id}
use blender_design.Acceptance.Plan.{
  FileSpec, JobSpec, Building, RunPlan, file_specs, file_ids, file_paths, source_ids, no_repeats,
  plan_jobs, coordinator_file, image_ids, plan_ok, plan_of, run_plan, assemble_plan,
}
use blender_design.Acceptance.Plan.Steps.{
  all_check_ids, all_output_ids, AllRelative, Owned, require-eq-ok, file_specs-AllRelative,
}
use blender_design.Acceptance.Plan.Rounds.{plan_jobs-Rounds, plan_jobs-middle}

run_plan-eq-ok :
    (p : RunPlan) {plan : RunPlan}
    → run_plan p ≡ ok plan
    → (p ≡ plan)
      × (all valid_id p.check_ids ≡ true)
      × (all valid_id p.na_check_ids ≡ true)
      × (all valid_id p.required_tools ≡ true)
      × (all valid_id p.gate_ids ≡ true)
unfolding run_plan
run_plan-eq-ok p h =
    let (checks, h₁) = require-eq-ok (all valid_id p.check_ids) _ h in
    let (na, h₂) = require-eq-ok (all valid_id p.na_check_ids) _ h₁ in
    let (tools, h₃) = require-eq-ok (all valid_id p.required_tools) _ h₂ in
    let (gates, h₄) = require-eq-ok (all valid_id p.gate_ids) (ok p) h₃ in
    (cc h₄, checks, na, tools, gates)

module _ (contract : Contract) (gate_ids : List String) where
  abbrev before_jobs : List FileSpec → Building
  before_jobs files = record {
    claimed = [];
    known_inputs = source_ids contract;
    job_ids = [];
    files = files;
  }

  -- The parts of a call that returns.
  record Assembled (jobs : List JobSpec) (plan : RunPlan) : Type 0 where
    files : List FileSpec
    built : Building
    relative : AllRelative files
    jobs_eq : plan_jobs contract (before_jobs files) jobs ≡ ok built
    fits : plan_ok contract jobs built.files ≡ true
    plan_eq : plan_of contract jobs gate_ids built.files ≡ plan

  assemble_plan-Assembled :
      (jobs : List JobSpec) (plan : RunPlan)
      → assemble_plan contract jobs gate_ids ≡ ok plan
      → Assembled jobs plan
  unfolding assemble_plan
  assemble_plan-Assembled jobs plan h =
      let start = coordinator_file contract "run" ∷ coordinator_file contract "gates" ∷ [] in
      let finish = λ (b : Building).
        require (plan_ok contract jobs b.files)
        >> run_plan (plan_of contract jobs gate_ids b.files) in
      let rest =
        λ (files : List FileSpec). plan_jobs contract (before_jobs files) jobs >>= finish in
      let (_, h₁) =
        require-eq-ok (all valid_id gate_ids && no_repeats gate_ids) (file_specs start >>= rest)
          h in
      let (files, e₁, h₂) = >>=-eq-ok (file_specs start) rest h₁ in
      let (b, e₂, h₃) = >>=-eq-ok (plan_jobs contract (before_jobs files) jobs) finish h₂ in
      let (fits, h₄) =
        require-eq-ok (plan_ok contract jobs b.files)
          (run_plan (plan_of contract jobs gate_ids b.files)) h₃ in
      record {
        files = files;
        built = b;
        relative = file_specs-AllRelative start e₁;
        jobs_eq = e₂;
        fits = fits;
        plan_eq = (run_plan-eq-ok (plan_of contract jobs gate_ids b.files) h₄).0;
      }

  plan_ok-eq-true :
      (jobs : List JobSpec) (files : List FileSpec)
      → plan_ok contract jobs files ≡ true
      → (length (distinct (file_ids files)) ≡ length (file_ids files))
        × (length (distinct (file_paths files)) ≡ length (file_paths files))
        × (length files ≤ contract.budget.max_files)
        × (subset contract.required_image_ids (image_ids contract files) ≡ true)
  unfolding plan_ok
  plan_ok-eq-true jobs files h = ground arith

-- In a plan that `assemble_plan` returns, no check is claimed twice, by one job or by two, and every
-- check that a job claims is registered for the kind of the artifact, with the job's writer.
pub assemble_plan-Owned :
    (contract : Contract) (jobs : List JobSpec) (gate_ids : List String) (plan : RunPlan)
    → assemble_plan contract jobs gate_ids ≡ ok plan
    → NoRepeats (all_check_ids jobs) × Owned contract jobs
assemble_plan-Owned contract jobs gate_ids plan h =
    let a = assemble_plan-Assembled contract gate_ids jobs plan h in
    let rs = plan_jobs-Rounds contract (before_jobs contract gate_ids a.files) jobs a.jobs_eq in
    (rw (← rs.claimed_eq) (rs.once tt), rs.owned)

-- The jobs of a plan can run in their order: each job's inputs are source files or outputs of jobs
-- before it, and the checks that block it are claimed by jobs before it.
pub assemble_plan-order :
    (contract : Contract) (before : List JobSpec) (job : JobSpec) (after : List JobSpec)
    (gate_ids : List String) (plan : RunPlan)
    → assemble_plan contract (before ++ job ∷ after) gate_ids ≡ ok plan
    → (subset job.input_ids (source_ids contract ++ all_output_ids before) ≡ true)
      × (subset job.blocking_check_ids (all_check_ids before) ≡ true)
assemble_plan-order contract before job after gate_ids plan h =
    let a = assemble_plan-Assembled contract gate_ids (before ++ job ∷ after) plan h in
    let (b, rs, (b', r)) =
      plan_jobs-middle contract (before_jobs contract gate_ids a.files) before job after
        a.jobs_eq in
    (rw (← rs.known_eq) r.inputs, rw (← rs.claimed_eq) r.blocking)

-- The files of a plan have different ids and different paths, each path is relative and stays below
-- the directory of the run, they are no more than the budget allows, and the images that the review
-- needs are among them.
pub assemble_plan-AllRelative :
    (contract : Contract) (jobs : List JobSpec) (gate_ids : List String) (plan : RunPlan)
    → assemble_plan contract jobs gate_ids ≡ ok plan
    → NoRepeats (file_ids plan.files)
      × NoRepeats (file_paths plan.files)
      × AllRelative plan.files
      × (length plan.files ≤ contract.budget.max_files)
      × (subset contract.required_image_ids (image_ids contract plan.files) ≡ true)
assemble_plan-AllRelative contract jobs gate_ids plan h =
    let a = assemble_plan-Assembled contract gate_ids jobs plan h in
    let rs = plan_jobs-Rounds contract (before_jobs contract gate_ids a.files) jobs a.jobs_eq in
    let (one_id, one_path, few, images) =
      plan_ok-eq-true contract gate_ids jobs a.built.files a.fits in
    rw (← a.plan_eq) (
      NoRepeats-of_length (file_ids a.built.files) one_id,
      NoRepeats-of_length (file_paths a.built.files) one_path,
      rs.relative a.relative,
      few,
      images,
    )
