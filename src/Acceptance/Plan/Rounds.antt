-- ===== src/Acceptance/Plan/Rounds.antt =====
-- What the rounds of the loop of `assemble_plan` have gone through.
use blender_design.Common.{
  ◌≡◌, refl, sym, ap, ◌∙◌, true, String, List, [], ◌∷◌, ◌++◌, append-nil, append_assoc, subset,
  NoRepeats, ok, >>=-eq-ok, ◌>>=◌, arith,
}
use blender_design.Acceptance.Contract.{Contract}
use blender_design.Acceptance.Plan.{
  FileSpec, JobSpec, Building, file_specs, file_ids, claim_checks, plan_outputs, standard_files,
  after_job, job_ok, plan_job, plan_jobs,
}
use blender_design.Acceptance.Plan.Steps.{
  all_check_ids, all_output_ids, AllRelative, AllRelative-append, file_specs-AllRelative,
  require-eq-ok, OwnedBy, Owned, claim_checks-eq-ok, plan_outputs-eq-ok,
}

module _ (contract : Contract) where
  -- A round of the loop over the jobs that came to its end.
  pub record Round (b : Building) (job : JobSpec) (b' : Building) : Type 0 where
    pub inputs : subset job.input_ids b.known_inputs ≡ true
    pub blocking : subset job.blocking_check_ids b.claimed ≡ true
    pub claimed_eq : b'.claimed ≡ b.claimed ++ job.check_ids
    pub known_eq : b'.known_inputs ≡ b.known_inputs ++ file_ids job.outputs
    pub owned : OwnedBy contract job.writer job.check_ids
    pub once : NoRepeats b.claimed → NoRepeats b'.claimed
    pub relative : AllRelative b.files → AllRelative b'.files

  job_ok-eq-true :
      (b : Building) (job : JobSpec)
      → job_ok contract b job ≡ true
      → (subset job.input_ids b.known_inputs ≡ true)
        × (subset job.blocking_check_ids b.claimed ≡ true)
  unfolding job_ok
  job_ok-eq-true b job h = ground arith

  pub plan_job-Round :
      (b : Building) (job : JobSpec) {b' : Building}
      → plan_job contract b job ≡ ok b'
      → Round b job b'
  unfolding plan_job
  plan_job-Round b job {b'} h =
      let standard = file_specs (standard_files contract job) in
      let outputs = plan_outputs contract job b.known_inputs b.files job.outputs in
      let end = λ (c : List String) (o : List String × List FileSpec).
        standard >>= λ s. ok (after_job contract b job c o s) in
      let (fits, h₁) =
        require-eq-ok (job_ok contract b job)
          (claim_checks contract job.writer b.claimed job.check_ids >>= λ c. outputs >>= end c) h in
      let (c, e₁, h₂) =
        >>=-eq-ok (claim_checks contract job.writer b.claimed job.check_ids)
          (λ c. outputs >>= end c) h₁ in
      let (o, e₂, h₃) = >>=-eq-ok outputs (end c) h₂ in
      let (s, e₃, h₄) = >>=-eq-ok standard (λ s. ok (after_job contract b job c o s)) h₃ in
      let same : after_job contract b job c o s ≡ b' = cc h₄ in
      let (inputs, blocking) = job_ok-eq-true b job fits in
      let (claimed, owned, once) =
        claim_checks-eq-ok contract job.writer b.claimed job.check_ids e₁ in
      let (known, relative) =
        plan_outputs-eq-ok contract job b.known_inputs b.files job.outputs e₂ in
      rw (← same) (record {
        inputs = inputs;
        blocking = blocking;
        claimed_eq = claimed;
        known_eq = known;
        owned = owned;
        once = once;
        relative = λ n.
            AllRelative-append o.1 s (relative n)
              (file_specs-AllRelative (standard_files contract job) e₃);
      })

  -- The rounds of all jobs.
  pub record Rounds (b : Building) (jobs : List JobSpec) (b' : Building) : Type 0 where
    pub claimed_eq : b'.claimed ≡ b.claimed ++ all_check_ids jobs
    pub known_eq : b'.known_inputs ≡ b.known_inputs ++ all_output_ids jobs
    pub owned : Owned contract jobs
    pub once : NoRepeats b.claimed → NoRepeats b'.claimed
    pub relative : AllRelative b.files → AllRelative b'.files

  Rounds-cons :
      (b b₁ b' : Building) (job : JobSpec) (jobs : List JobSpec)
      → Round b job b₁
      → Rounds b₁ jobs b'
      → Rounds b (job ∷ jobs) b'
  Rounds-cons b b₁ b' job jobs r rs = record {
    claimed_eq =
        rs.claimed_eq
        ∙ ap (λ xs. xs ++ all_check_ids jobs) r.claimed_eq
        ∙ append_assoc b.claimed job.check_ids (all_check_ids jobs);
    known_eq =
        rs.known_eq
        ∙ ap (λ xs. xs ++ all_output_ids jobs) r.known_eq
        ∙ append_assoc b.known_inputs (file_ids job.outputs) (all_output_ids jobs);
    owned = (r.owned, rs.owned);
    once = λ n. rs.once (r.once n);
    relative = λ n. rs.relative (r.relative n);
  }

  pub plan_jobs-Rounds :
      (b : Building) (jobs : List JobSpec) {b' : Building}
      → plan_jobs contract b jobs ≡ ok b'
      → Rounds b jobs b'
  unfolding plan_jobs
  plan_jobs-Rounds b [] {b'} h =
      let e : b ≡ b' = cc h in
      rw (← e) (record {
        claimed_eq = sym (append-nil b.claimed);
        known_eq = sym (append-nil b.known_inputs);
        owned = tt;
        once = λ n. n;
        relative = λ n. n;
      })
  plan_jobs-Rounds b (job ∷ jobs) {b'} h =
      let (b₁, e, h₁) = >>=-eq-ok (plan_job contract b job) (λ b₁. plan_jobs contract b₁ jobs) h in
      Rounds-cons b b₁ b' job jobs (plan_job-Round b job e) (plan_jobs-Rounds b₁ jobs h₁)

  -- The round of one job, after those of the jobs before it.
  pub plan_jobs-middle :
      (b : Building) (before : List JobSpec) (job : JobSpec) (after : List JobSpec) {b' : Building}
      → plan_jobs contract b (before ++ job ∷ after) ≡ ok b'
      → (b₁ : Building) × Rounds b before b₁ × ((b₂ : Building) × Round b₁ job b₂)
  unfolding plan_jobs
  plan_jobs-middle b [] job after h =
      let (b₁, e, h₁) = >>=-eq-ok (plan_job contract b job) (λ b₁. plan_jobs contract b₁ after) h in
      (b, plan_jobs-Rounds b [] refl, (b₁, plan_job-Round b job e))
  plan_jobs-middle b (first ∷ before) job after h =
      let (b₁, e, h₁) =
        >>=-eq-ok (plan_job contract b first) (λ b₁. plan_jobs contract b₁ (before ++ job ∷ after))
          h in
      let (b₂, rs, round) = plan_jobs-middle b₁ before job after h₁ in
      (b₂, Rounds-cons b b₁ b₂ first before (plan_job-Round b first e) rs, round)
