-- ===== src/Acceptance/Decide/Parts.antt =====
-- What a call of `decide` that returns has gone through.
use blender_design.Common.{
  ◌≡◌, refl, sym, ◌∙◌, Bool, true, false, not, ◌||◌, List, [], ◌∷◌, ◌++◌, append-nil, append_assoc,
  Option, all, Result, ok, guard-eq-ok, >>=-eq-ok, ◌>>=◌,
}
use blender_design.Acceptance.FailureCodes.{
  FailureCode, Raised, acceptance_failure, runner_internal_error, is_infra_family,
}
use blender_design.Acceptance.Registry.{SortKey}
use blender_design.Acceptance.Contract.{Contract}
use blender_design.Acceptance.Outcome.{CheckOutcome, Verdict}
use blender_design.Acceptance.Decide.{
  Scan, status_failure, is_not_tested, check_outcome, scan_outcomes, failed_keys, failed_ids,
  verdict_code, verdict_of, conclude, Inputs, triggered_before, decide, is_empty,
}

-- The failures that the statuses of the outcomes stand for.
abbrev pub status_failures : List CheckOutcome → List FailureCode
status_failures [] = []
status_failures (o ∷ os) = status_failure o.raw_status ++ status_failures os

abbrev pub any_not_tested : List CheckOutcome → Bool
any_not_tested [] = false
any_not_tested (o ∷ os) = is_not_tested o.raw_status || any_not_tested os

-- Every outcome is as `aggregate` makes it.
abbrev pub Genuine : Contract → List CheckOutcome → Type 0
Genuine contract [] = Unit
Genuine contract (o ∷ os) = (check_outcome contract o ≡ ok tt) × Genuine contract os

-- All failures but those of the checks themselves.
abbrev pub triggers : Inputs → List FailureCode
triggers i = triggered_before i ++ status_failures i.outcomes

or-false : (b : Bool) → (b || false) ≡ b
or-false true = refl
or-false false = refl

or_assoc : (a b c : Bool) → ((a || b) || c) ≡ (a || (b || c))
or_assoc true b c = refl
or_assoc false b c = refl

pub scan_outcomes-eq-ok :
    (contract : Contract) (scan : Scan) (os : List CheckOutcome) {after : Scan}
    → scan_outcomes contract scan os ≡ ok after
    → Genuine contract os
      × (after.incomplete ≡ (scan.incomplete || any_not_tested os))
      × (after.triggered ≡ scan.triggered ++ status_failures os)
unfolding scan_outcomes
scan_outcomes-eq-ok contract scan [] {after} h =
    let e : scan ≡ after = cc h in
    (tt, rw (← e) (sym (or-false scan.incomplete)), rw (← e) (sym (append-nil scan.triggered)))
scan_outcomes-eq-ok contract scan (o ∷ os) {after} h =
    let (u, e, h') = >>=-eq-ok (check_outcome contract o) _ h in
    let (genuine, e₁, e₂) = scan_outcomes-eq-ok contract _ os h' in
    (
      (e, genuine),
      e₁ ∙ or_assoc scan.incomplete (is_not_tested o.raw_status) (any_not_tested os),
      e₂ ∙ append_assoc scan.triggered (status_failure o.raw_status) (status_failures os),
    )

pub scan_outcomes_total :
    (contract : Contract) (scan : Scan) (os : List CheckOutcome)
    → Genuine contract os
    → (after : Scan) × (scan_outcomes contract scan os ≡ ok after)
unfolding scan_outcomes
scan_outcomes_total contract scan [] g = (scan, refl)
scan_outcomes_total contract scan (o ∷ os) g =
    let (after, e) =
      scan_outcomes_total contract
        (record {
          incomplete = scan.incomplete || is_not_tested o.raw_status;
          triggered = scan.triggered ++ status_failure o.raw_status;
        })
        os g.1 in
    (after, rw g.0 e)

-- The parts of a run, as one record.
pub record Run (i : Inputs) (v : Verdict) : Type 0 where
  pub keys : List SortKey
  pub code : Option FailureCode
  pub families : all is_infra_family i.infra_failures ≡ true
  pub genuine : Genuine i.contract i.outcomes
  pub keys_eq : failed_keys i.outcomes ≡ ok keys
  pub code_eq :
      verdict_code (triggers i) (not (is_empty (failed_ids keys))) (any_not_tested i.outcomes)
      ≡ ok code
  pub verdict_eq : verdict_of i keys code ≡ v

module _ (i : Inputs) (v : Verdict) (families : all is_infra_family i.infra_failures ≡ true) where
  concluded :
      (scan : Scan) (keys : List SortKey)
      → failed_keys i.outcomes ≡ ok keys
      → Genuine i.contract i.outcomes
        × (scan.incomplete ≡ any_not_tested i.outcomes)
        × (scan.triggered ≡ triggers i)
      → conclude i scan keys ≡ ok v
      → Run i v
  unfolding conclude
  concluded scan keys keys_eq (genuine, e₁, e₂) h =
      let (code, code_eq, h') =
        >>=-eq-ok (verdict_code scan.triggered (not (is_empty (failed_ids keys))) scan.incomplete)
          (λ code. ok (verdict_of i keys code)) h in
      record {
        keys = keys;
        code = code;
        families = families;
        genuine = genuine;
        keys_eq = keys_eq;
        code_eq = rw (← e₁, ← e₂) code_eq;
        verdict_eq = cc h';
      }

  scanned :
      (scan : Scan)
      → scan_outcomes i.contract
          (record { incomplete = false; triggered = triggered_before i })
          i.outcomes
        ≡ ok scan
      → (failed_keys i.outcomes >>= conclude i scan) ≡ ok v
      → Run i v
  scanned scan e h =
      let (keys, keys_eq, h') = >>=-eq-ok (failed_keys i.outcomes) (conclude i scan) h in
      concluded scan keys keys_eq (scan_outcomes-eq-ok i.contract _ i.outcomes e) h'

start : Inputs → Result Raised Scan
start i =
    scan_outcomes i.contract (record { incomplete = false; triggered = triggered_before i })
      i.outcomes

pub decide-Run : (i : Inputs) (v : Verdict) → decide i ≡ ok v → Run i v
unfolding decide start
decide-Run i v h =
    let (families, h₁) =
      guard-eq-ok (all is_infra_family i.infra_failures) (acceptance_failure runner_internal_error)
        (start i >>= λ scan. failed_keys i.outcomes >>= conclude i scan) h in
    let (scan, e, h₂) =
      >>=-eq-ok (start i) (λ scan. failed_keys i.outcomes >>= conclude i scan) h₁ in
    scanned i v families scan e h₂
