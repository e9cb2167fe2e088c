-- ===== src/Acceptance/Technical/Review.antt =====
-- What the technical state of a candidate rests on, from the inputs of `decide` on.
use blender_design.Common.{
  ◌≡◌, ◌↔◌, refl, sym, ap, ◌∙◌, true, false, not, String, List, [], ◌∷◌, Option, none, some, any,
  member, NoRepeats, NoRepeats-of_length, length_of_NoRepeats, set_eq-member, set_eq_of_member, ok,
  >>=-eq-ok, arith,
}
use blender_design.Acceptance.FailureCodes.{FailureCode, expected_set_mismatch}
use blender_design.Acceptance.Outcome.{Verdict}
use blender_design.Acceptance.Decide.{Inputs, decide, is_none, is_empty, min_by_priority}
use blender_design.Acceptance.Decide.Parts.{Run, decide-Run}
use blender_design.Acceptance.Decide.Success.{
  Accepted, decide-success, success-decide, append-eq-nil, when-eq-nil,
}
use blender_design.Acceptance.Technical.{
  Gates, gate_keys, is_blocking, gate_failed, GateScan, carried, is_check_failed, gate_sets_match,
  technical_code, technical_triggers, decide_technical, needs_review, technical_state,
}
use blender_design.Acceptance.Technical.Scan.{
  failed_gates, any_incomplete, GateRun, decide_technical-run,
}

-- Each gate came to its end with no error and no warning.
abbrev pub AllClean : Gates → Type 0
AllClean [] = Unit
AllClean ((key, gate) ∷ rest) =
    (gate.complete ≡ true) × (any is_blocking gate.findings ≡ false) × AllClean rest

-- The gates are the expected ones, and each is clean.
pub record GatesPass (expected : List String) (gates : Gates) : Type 0 where
  pub once : NoRepeats expected
  pub covers : (k : String) → member k (gate_keys gates) ≡ member k expected
  pub clean : AllClean gates

technical_code-eq-none :
    (codes : List FailureCode) (base : Option FailureCode) (scan : GateScan)
    → technical_code codes base scan ≡ ok none
    → (codes ≡ [])
      × (is_check_failed base ≡ false)
      × (is_empty scan.failed_ids ≡ true)
      × (scan.incomplete ≡ false)
unfolding technical_code
technical_code-eq-none [] base scan h = ground arith
technical_code-eq-none (c ∷ codes) base scan h =
    let (m, e, h') = >>=-eq-ok (min_by_priority c codes) (λ c. ok (some c)) h in cc h'

uncarried : (b : Option FailureCode) → carried b ≡ [] → is_check_failed b ≡ false → b ≡ none
uncarried b h k = ground arith

clean_of_scan :
    (gates : Gates)
    → is_empty (failed_gates gates) ≡ true
    → any_incomplete gates ≡ false
    → AllClean gates
unfolding gate_failed
clean_of_scan [] h k = tt
clean_of_scan ((key, gate) ∷ rest) h k = ground (arith, clean_of_scan rest)

scan_of_clean :
    (gates : Gates) → AllClean gates → (failed_gates gates ≡ []) × (any_incomplete gates ≡ false)
unfolding gate_failed
scan_of_clean [] h = (refl, refl)
scan_of_clean ((key, gate) ∷ rest) h = ground (arith, scan_of_clean rest h.2)

gate_sets_match_iff :
    (expected : List String) (gates : Gates)
    → gate_sets_match expected gates ≡ true
    → NoRepeats expected × ((k : String) → member k (gate_keys gates) ≡ member k expected)
unfolding gate_sets_match
gate_sets_match_iff expected gates h = (
  NoRepeats-of_length expected (ground arith),
  λ k. set_eq-member k (gate_keys gates) expected (ground arith),
)

gate_sets_match_of :
    (expected : List String) (gates : Gates)
    → GatesPass expected gates
    → gate_sets_match expected gates ≡ true
unfolding gate_sets_match
gate_sets_match_of expected gates g = ground (
  arith,
  length_of_NoRepeats expected g.once,
  set_eq_of_member (gate_keys gates) expected g.covers,
)

pass_of_run :
    (base : Verdict) (expected : List String) (gates : Gates) (v : Verdict)
    → GateRun base expected gates v
    → v.success ≡ true
    → (base.failure_code ≡ none) × GatesPass expected gates
pass_of_run base expected gates v run s =
    let flag : is_none run.code ≡ true = ap (λ (w : Verdict). w.success) run.verdict_eq ∙ s in
    let code : run.code ≡ none = ground arith in
    let (t, c, f, n) =
      technical_code-eq-none (technical_triggers base expected gates) base.failure_code run.scan
        (rw code at run.code_eq) in
    let (b, m) = append-eq-nil (carried base.failure_code) _ t in
    let matched = when-eq-nil (not (gate_sets_match expected gates)) expected_set_mismatch m in
    let (once, covers) = gate_sets_match_iff expected gates (ground arith) in
    (
      uncarried base.failure_code b c,
      record {
        once = once;
        covers = covers;
        clean = clean_of_scan gates (rw run.failed_eq at f) (rw run.incomplete_eq at n);
      },
    )

run_of_pass :
    (base : Verdict) (expected : List String) (gates : Gates) (v : Verdict)
    → GateRun base expected gates v
    → base.failure_code ≡ none
    → GatesPass expected gates
    → v.success ≡ true
unfolding technical_code
run_of_pass base expected gates v run b g =
    let (f, n) = scan_of_clean gates g.clean in
    let ids = run.failed_eq ∙ f in
    let ends = run.incomplete_eq ∙ n in
    let matched = gate_sets_match_of expected gates g in
    let t : technical_triggers base expected gates ≡ [] = rw (b, matched) in
    let e = rw (t, b, ids, ends) at run.code_eq in
    let flag : is_none run.code ≡ true = ground arith in
    sym (ap (λ (w : Verdict). w.success) run.verdict_eq) ∙ flag

code_of_success :
    (i : Inputs) (base : Verdict) → Run i base → base.success ≡ true → base.failure_code ≡ none
code_of_success i base run h =
    let q = ap (λ (w : Verdict). w.success) run.verdict_eq in
    let c = ap (λ (w : Verdict). w.failure_code) run.verdict_eq in ground arith

success_of_code :
    (i : Inputs) (base : Verdict) → Run i base → base.failure_code ≡ none → base.success ≡ true
success_of_code i base run h =
    let q = ap (λ (w : Verdict). w.success) run.verdict_eq in
    let c = ap (λ (w : Verdict). w.failure_code) run.verdict_eq in ground arith

unfolded_state : (v : Verdict) → technical_state v ≡ needs_review → v.success ≡ true
unfolding technical_state
unfolded_state v h = ground arith

folded_state : (v : Verdict) → v.success ≡ true → technical_state v ≡ needs_review
unfolding technical_state
folded_state v h = ground arith

-- A candidate goes to review exactly where `decide` had all it accepts (no failure of the
-- infrastructure, trusted isolation, each registered check once and passed or not applicable, the
-- expected files) and the gates are the expected ones, all ended and with no error or warning.
pub needs_review_iff :
    (i : Inputs) (base v : Verdict) (expected : List String) (gates : Gates)
    → decide i ≡ ok base
    → decide_technical base expected gates ≡ ok v
    → (technical_state v ≡ needs_review) ↔ (Accepted i × GatesPass expected gates)
needs_review_iff i base v expected gates h k =
    let run = decide_technical-run base expected gates v k in
    let outer = decide-Run i base h in
    (
      λ state.
          let (b, g) = pass_of_run base expected gates v run (unfolded_state v state) in
          (decide-success i base h (success_of_code i base outer b), g),
      λ (a, g). folded_state v (
          run_of_pass base expected gates v run
            (code_of_success i base outer (success-decide i base h a)) g),
    )
