-- ===== src/Acceptance/Technical/Scan.antt =====
-- The loop over the gates, and what makes the technical verdict a success.
use blender_design.Common.{
  ◌≡◌, refl, sym, ◌∙◌, Bool, true, false, not, ◌||◌, String, List, [], ◌∷◌, ◌++◌, append_assoc,
  append-nil, Option, ok, >>=-eq-ok, ◌>>=◌, if◌then◌else◌,
}
use blender_design.Acceptance.FailureCodes.{FailureCode}
use blender_design.Acceptance.Outcome.{Verdict}
use blender_design.Acceptance.Technical.{
  Gates, check_gate_findings, gate_failed, GateScan, scan_gates, technical_code, technical_verdict,
  technical_triggers, decide_technical,
}

-- The keys of the failed gates, and whether a gate did not come to its end.
abbrev pub failed_gates : Gates → List String
failed_gates [] = []
failed_gates ((key, gate) ∷ rest) = (if gate_failed gate then key ∷ [] else []) ++ failed_gates rest

abbrev pub any_incomplete : Gates → Bool
any_incomplete [] = false
any_incomplete ((key, gate) ∷ rest) = not gate.complete || any_incomplete rest

or-false : (b : Bool) → (b || false) ≡ b
or-false true = refl
or-false false = refl

or_assoc : (a b c : Bool) → ((a || b) || c) ≡ (a || (b || c))
or_assoc true b c = refl
or_assoc false b c = refl

scan_gates-eq-ok :
    (scan : GateScan) (gates : Gates) {after : GateScan}
    → scan_gates scan gates ≡ ok after
    → (after.failed_ids ≡ scan.failed_ids ++ failed_gates gates)
      × (after.incomplete ≡ (scan.incomplete || any_incomplete gates))
unfolding scan_gates
scan_gates-eq-ok scan [] {after} h =
    let e : scan ≡ after = cc h in
    (rw (← e) (sym (append-nil scan.failed_ids)), rw (← e) (sym (or-false scan.incomplete)))
scan_gates-eq-ok scan ((key, gate) ∷ rest) {after} h =
    let (u, e, h') = >>=-eq-ok (check_gate_findings gate.findings) _ h in
    let (e₁, e₂) =
      scan_gates-eq-ok
        (record {
          failed_ids = scan.failed_ids ++ (if gate_failed gate then key ∷ [] else []);
          incomplete = scan.incomplete || not gate.complete;
        })
        rest h' in
    (
      e₁
          ∙ append_assoc scan.failed_ids (if gate_failed gate then key ∷ [] else [])
              (failed_gates rest),
      e₂ ∙ or_assoc scan.incomplete (not gate.complete) (any_incomplete rest),
    )

-- The parts of a call that returns.
pub record GateRun (base : Verdict) (expected : List String) (gates : Gates) (v : Verdict)
    : Type 0 where
  pub scan : GateScan
  pub code : Option FailureCode
  pub failed_eq : scan.failed_ids ≡ failed_gates gates
  pub incomplete_eq : scan.incomplete ≡ any_incomplete gates
  pub code_eq :
      technical_code (technical_triggers base expected gates) base.failure_code scan ≡ ok code
  pub verdict_eq : technical_verdict base gates scan code ≡ v

module _ (base : Verdict) (expected : List String) (gates : Gates) (v : Verdict) where
  gates_scanned :
      (scan : GateScan)
      → (scan.failed_ids ≡ failed_gates gates) × (scan.incomplete ≡ any_incomplete gates)
      → (technical_code (technical_triggers base expected gates) base.failure_code scan >>= λ code.
          ok (technical_verdict base gates scan code))
        ≡ ok v
      → GateRun base expected gates v
  gates_scanned scan (e₁, e₂) h =
      let (code, e, h') =
        >>=-eq-ok (technical_code (technical_triggers base expected gates) base.failure_code scan)
          (λ code. ok (technical_verdict base gates scan code)) h in
      record {
        scan = scan;
        code = code;
        failed_eq = e₁;
        incomplete_eq = e₂;
        code_eq = e;
        verdict_eq = cc h';
      }

  pub decide_technical-run :
      decide_technical base expected gates ≡ ok v → GateRun base expected gates v
  unfolding decide_technical
  decide_technical-run h =
      let (scan, e, h') =
        >>=-eq-ok (scan_gates (record { failed_ids = []; incomplete = false }) gates)
          (λ scan.
            technical_code (technical_triggers base expected gates) base.failure_code scan
            >>= λ code. ok (technical_verdict base gates scan code))
          h in
      gates_scanned scan (scan_gates-eq-ok (record { failed_ids = []; incomplete = false }) gates e)
        h'
