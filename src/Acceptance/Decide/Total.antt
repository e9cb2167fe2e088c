-- ===== src/Acceptance/Decide/Total.antt =====
-- `decide` returns a verdict on everything that the acceptance core itself makes.
use blender_design.Common.{
  ℕ, ltb, ◌≡◌, refl, Bool, true, false, not, List, [], ◌∷◌, ◌++◌, Option, some, all, Result, ok,
  err, arith, Bool-cases, inl, inr, if◌then◌else◌, String,
}
use blender_design.Acceptance.FailureCodes.{
  FailureCode, Raised, isolation_insufficient, zero_checks_collected, expected_set_mismatch,
  forged_not_applicable, is_infra_family, family_priority,
}
use blender_design.Acceptance.Registry.{SortKey, sort_key}
use blender_design.Acceptance.Contract.{Contract}
use blender_design.Acceptance.Outcome.{Finding, CheckOutcome, RawStatus, Verdict}
use blender_design.Acceptance.Aggregate.{aggregate, terminal_of}
use blender_design.Acceptance.Aggregate.Rebuild.{aggregate-eq-ok}
use blender_design.Acceptance.Decide.{
  Scan, status_failure, when, failed_keys, min_by_priority, verdict_code, conclude, verdict_of,
  failed_ids, isolation_ok, sets_match, Inputs, triggered_before, decide, is_empty, is_failed,
}
use blender_design.Acceptance.Decide.Parts.{
  status_failures, Genuine, triggers, scan_outcomes_total, scan_outcomes-eq-ok,
}
use blender_design.Acceptance.Decide.Genuine.{check_outcome-eq-ok, check_outcome-aggregate}

-- Outcomes that calls of `aggregate` under the contract returned.
pub data Aggregated (contract : Contract) : List CheckOutcome → Type 0 where
  none_left : Aggregated contract []
  made :
      {o : CheckOutcome} {os : List CheckOutcome} (check_id : String) (fs : List Finding)
      (t v : Option String) (b : Bool) (terminal : Option RawStatus)
      → aggregate check_id fs contract t v b terminal ≡ ok o
      → Aggregated contract os
      → Aggregated contract (o ∷ os)

Aggregated-Genuine :
    {contract : Contract} {os : List CheckOutcome} → Aggregated contract os → Genuine contract os
Aggregated-Genuine none_left = tt
Aggregated-Genuine {contract} (made {o} check_id fs t v b terminal h rest) =
    (check_outcome-aggregate contract check_id fs t v b terminal o h, Aggregated-Genuine rest)

failed_keys_total :
    (contract : Contract) (os : List CheckOutcome)
    → Genuine contract os
    → (keys : List SortKey) × (failed_keys os ≡ ok keys)
unfolding failed_keys
failed_keys_total contract [] g = ([], refl)
failed_keys_total contract (o ∷ os) g =
    let e = check_outcome-eq-ok contract o g.0 in
    let (spec, k, e', h') =
      aggregate-eq-ok o.id o.findings contract o.tool_id o.tool_version o.source_truncated
        (terminal_of o.raw_status) e in
    let (keys, r) = failed_keys_total contract os g.1 in
    elim (Bool-cases (is_failed o.raw_status)) [
      | inl f ↦ (sort_key spec ∷ keys, rw (f, e', r))
      | inr f ↦ (keys, rw f r)
    ]

number : Result Raised ℕ → ℕ
number (ok p) = p
number (err e) = 0

family_priority_total :
    (d : FailureCode) → is_infra_family d ≡ true → (p : ℕ) × (family_priority d ≡ ok p)
unfolding is_infra_family family_priority number
family_priority_total d h = (number (family_priority d), ground arith)

min_by_priority_total :
    (best : FailureCode) (codes : List FailureCode)
    → is_infra_family best ≡ true
    → all is_infra_family codes ≡ true
    → (c : FailureCode) × (min_by_priority best codes ≡ ok c)
unfolding min_by_priority all
min_by_priority_total best [] h k = let (p, e) = family_priority_total best h in (best, rw e)
min_by_priority_total best (d ∷ ds) h k =
    let hd : is_infra_family d ≡ true = ground arith in
    let hds : all is_infra_family ds ≡ true = ground arith in
    let (p, e) = family_priority_total best h in
    let (q, e') = family_priority_total d hd in
    let chosen : is_infra_family (if ltb q p then d else best) ≡ true = ground arith in
    let (c, r) = min_by_priority_total (if ltb q p then d else best) ds chosen hds in
    (c, rw (e, e') r)

all-append :
    (xs ys : List FailureCode)
    → all is_infra_family xs ≡ true
    → all is_infra_family ys ≡ true
    → all is_infra_family (xs ++ ys) ≡ true
unfolding all
all-append [] ys h k = k
all-append (x ∷ xs) ys h k = ground (arith, all-append xs ys)

all-when :
    (b : Bool) (c : FailureCode) → is_infra_family c ≡ true → all is_infra_family (when b c) ≡ true
unfolding all
all-when b c h = ground arith

status_failures-infra : (os : List CheckOutcome) → all is_infra_family (status_failures os) ≡ true
unfolding all status_failure is_infra_family
status_failures-infra [] = refl
status_failures-infra (o ∷ os) = ground (arith, status_failures-infra os)

pub triggers-infra :
    (i : Inputs)
    → all is_infra_family i.infra_failures ≡ true
    → all is_infra_family (triggers i) ≡ true
unfolding triggered_before is_infra_family
triggers-infra i h =
    all-append _ _
      (all-append _ _ h (
        all-append _ _ (all-when (not (isolation_ok i)) isolation_insufficient refl) (
          all-append _ _ (all-when (is_empty i.outcomes) zero_checks_collected refl) (
            all-append _ _ (all-when (not (sets_match i)) expected_set_mismatch refl)
              (all-when (not (is_empty i.child_declared_na)) forged_not_applicable refl)))))
      (status_failures-infra i.outcomes)

verdict_code_total :
    (codes : List FailureCode) (f n : Bool)
    → all is_infra_family codes ≡ true
    → (code : Option FailureCode) × (verdict_code codes f n ≡ ok code)
unfolding verdict_code all
verdict_code_total [] f n h = (_, refl)
verdict_code_total (c ∷ cs) f n h =
    let (m, e) = min_by_priority_total c cs (ground arith) (ground arith) in (some m, rw e)

-- On outcomes that `aggregate` returned under the contract, and failures of known infrastructure
-- families, `decide` returns a verdict: no exception, in particular no `KeyError` from the sort
-- of the failed ids and no `ValueError` from the priorities.
pub decide_total :
    (i : Inputs)
    → all is_infra_family i.infra_failures ≡ true
    → Aggregated i.contract i.outcomes
    → (v : Verdict) × (decide i ≡ ok v)
unfolding decide conclude
decide_total i h a =
    let g = Aggregated-Genuine a in
    let start : Scan = record { incomplete = false; triggered = triggered_before i } in
    let (scan, e) = scan_outcomes_total i.contract start i.outcomes g in
    let (g', e₁, e₂) = scan_outcomes-eq-ok i.contract start i.outcomes e in
    let (keys, k) = failed_keys_total i.contract i.outcomes g in
    let (code, c) =
      verdict_code_total scan.triggered (not (is_empty (failed_ids keys))) scan.incomplete
        (rw e₂ (triggers-infra i h)) in
    (verdict_of i keys code, rw (h, e, k, c))
