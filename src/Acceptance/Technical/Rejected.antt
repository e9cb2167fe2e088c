-- ===== src/Acceptance/Technical/Rejected.antt =====
-- A rejection is a judgement on the candidate: it rests on a failed check or a failed gate.
use blender_design.Common.{
  ◌≡◌, ◌≢◌, sym, subst, ap, ◌∙◌, ◌⊎◌, inl, inr, Bool, true, false, not, String, List, [], ◌∷◌, ◌++◌,
  Option, none, some, all, ok, >>=-eq-ok, arith,
}
use blender_design.Acceptance.FailureCodes.{
  FailureCode, check_failed, expected_set_mismatch, is_infra_family,
}
use blender_design.Acceptance.Outcome.{Verdict}
use blender_design.Acceptance.Decide.{
  Inputs, decide, is_empty, failed_ids, min_by_priority, verdict_code, when,
}
use blender_design.Acceptance.Decide.Parts.{Run, decide-Run, triggers, any_not_tested}
use blender_design.Acceptance.Decide.Priority.{Among, min_by_priority-IsFirst}
use blender_design.Acceptance.Decide.Success.{verdict_code-eq-none, append-eq-nil, when-eq-nil}
use blender_design.Acceptance.Decide.Total.{triggers-infra}
use blender_design.Acceptance.Technical.{
  Gates, GateScan, carried, is_check_failed, gate_sets_match, technical_code, technical_triggers,
  decide_technical, rejected, technical_state, is_complete,
}
use blender_design.Acceptance.Technical.Scan.{failed_gates, decide_technical-run}

infra_of_Among :
    (c : FailureCode) (codes : List FailureCode)
    → all is_infra_family codes ≡ true
    → Among c codes
    → is_infra_family c ≡ true
unfolding all
infra_of_Among c [] h a = absurd a
infra_of_Among c (d ∷ ds) h (inl e) = rw e (ground arith)
infra_of_Among c (d ∷ ds) h (inr a) = infra_of_Among c ds (ground arith) a

-- With infrastructure families alone before it, `check_failed` is reported for failed checks only.
verdict_code-check_failed :
    (codes : List FailureCode) (f n : Bool)
    → all is_infra_family codes ≡ true
    → verdict_code codes f n ≡ ok (some check_failed)
    → (codes ≡ []) × (f ≡ true)
unfolding verdict_code is_infra_family
verdict_code-check_failed [] f n h k = ground arith
verdict_code-check_failed (c ∷ codes) f n h k =
    let (m, e, k') = >>=-eq-ok (min_by_priority c codes) (λ c. ok (some c)) k in
    let (among, p, q, b) = min_by_priority-IsFirst c codes e in
    let family = infra_of_Among m (c ∷ codes) h among in
    let same : m ≡ check_failed = cc k' in absurd (ground arith)

not_triggered :
    (b : Option FailureCode) (x : Bool)
    → ¬ Among check_failed (carried b ++ when x expected_set_mismatch)
not_triggered b x a = ground arith

technical_code-check_failed :
    (codes : List FailureCode) (base : Option FailureCode) (scan : GateScan)
    → ¬ Among check_failed codes
    → technical_code codes base scan ≡ ok (some check_failed)
    → (codes ≡ []) × ((is_check_failed base ≡ true) ⊎ (is_empty scan.failed_ids ≡ false))
unfolding technical_code
technical_code-check_failed [] base scan h k = ground arith
technical_code-check_failed (c ∷ codes) base scan h k =
    let (m, e, k') = >>=-eq-ok (min_by_priority c codes) (λ c. ok (some c)) k in
    let (among, p, q, b) = min_by_priority-IsFirst c codes e in
    let same : m ≡ check_failed = cc k' in absurd (h (subst (λ x. Among x (c ∷ codes)) same among))

rejected_code :
    (v : Verdict)
    → technical_state v ≡ rejected
    → (v.failure_code ≡ some check_failed) × (is_complete v ≡ true)
unfolding technical_state
rejected_code v h = ground arith

module _ (i : Inputs) (base : Verdict) (outer : Run i base) where
  infra : all is_infra_family (triggers i) ≡ true
  infra = triggers-infra i outer.families

  base_code : base.failure_code ≡ outer.code
  base_code = sym (ap (λ (w : Verdict). w.failure_code) outer.verdict_eq)

  base_ids : base.failed_check_ids ≡ failed_ids outer.keys
  base_ids = sym (ap (λ (w : Verdict). w.failed_check_ids) outer.verdict_eq)

  some_failed :
      is_check_failed base.failure_code ≡ true → (triggers i ≡ []) × (base.failed_check_ids ≢ [])
  some_failed h =
      let c : outer.code ≡ some check_failed = ground (arith, base_code) in
      let (t, f) =
        verdict_code-check_failed (triggers i) (not (is_empty (failed_ids outer.keys)))
          (any_not_tested i.outcomes) infra (rw c at outer.code_eq) in
      (t, λ e. let empty : failed_ids outer.keys ≡ [] = sym base_ids ∙ e in ground arith)

  none_triggered : carried base.failure_code ≡ [] → triggers i ≡ []
  none_triggered h = elim (split base.failure_code h) [
    | inl e ↦
        (verdict_code-eq-none (triggers i) (not (is_empty (failed_ids outer.keys)))
          (any_not_tested i.outcomes) (rw (sym base_code ∙ e) at outer.code_eq)).0
    | inr e ↦ (some_failed e).0
  ]
    where
      split : (b : Option FailureCode) → carried b ≡ [] → (b ≡ none) ⊎ (is_check_failed b ≡ true)
      split b k = ground arith

-- A candidate is rejected only where a check or a gate found something wrong, every check was
-- judged and every gate ended, and nothing went wrong on the side of the runner (no trigger of
-- `decide`, the expected gates).
pub rejected_found :
    (i : Inputs) (base v : Verdict) (expected : List String) (gates : Gates)
    → decide i ≡ ok base
    → decide_technical base expected gates ≡ ok v
    → technical_state v ≡ rejected
    → ((base.failed_check_ids ≢ []) ⊎ (failed_gates gates ≢ []))
      × (is_complete v ≡ true)
      × (triggers i ≡ [])
      × (gate_sets_match expected gates ≡ true)
rejected_found i base v expected gates h k state =
    let outer = decide-Run i base h in
    let run = decide_technical-run base expected gates v k in
    let (c, complete) = rejected_code v state in
    let code : run.code ≡ some check_failed =
      ap (λ (w : Verdict). w.failure_code) run.verdict_eq ∙ c in
    let (t, found) =
      technical_code-check_failed (technical_triggers base expected gates) base.failure_code
        run.scan (not_triggered base.failure_code (not (gate_sets_match expected gates)))
        (rw code at run.code_eq) in
    let (b, m) = append-eq-nil (carried base.failure_code) _ t in
    let matched = when-eq-nil (not (gate_sets_match expected gates)) expected_set_mismatch m in
    (
      elim found [
        | inl e ↦ inl (some_failed i base outer e).1
        | inr e ↦ inr (λ q. let ids = run.failed_eq ∙ q in ground arith)
      ],
      complete,
      none_triggered i base outer b,
      ground arith,
    )
