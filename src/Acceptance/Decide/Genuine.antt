-- ===== src/Acceptance/Decide/Genuine.antt =====
-- The consistency check that `decide` makes on each outcome accepts what `aggregate` made, and
-- nothing else.
use mathlib.Core.Logic.{if_pos, if_neg}
use blender_design.Common.{
  ◌≡◌, refl, sym, ap, ◌∙◌, inl, inr, Bool, true, false, String, List, Option, Result, ok, err,
  >>=-eq-ok, arith, Bool-cases, member,
}
use blender_design.Acceptance.FailureCodes.{Raised}
use blender_design.Acceptance.Registry.{CheckSpec}
use blender_design.Acceptance.Contract.{Contract}
use blender_design.Acceptance.Outcome.{
  Finding, CheckOutcome, CheckOutcome_discrete, RawStatus, other_status,
}
use blender_design.Acceptance.Aggregate.{
  terminal_of, terminal_allowed, raw_status_of, outcome_of, aggregate_na, aggregate_spec, aggregate,
}
use blender_design.Acceptance.Aggregate.Rebuild.{
  aggregate-rebuild, aggregate-eq-ok, aggregate_tool-eq-ok,
}
use blender_design.Acceptance.Decide.{check_outcome}

abbrev pub rebuild : Contract → CheckOutcome → Result Raised CheckOutcome
rebuild contract o =
    aggregate o.id o.findings contract o.tool_id o.tool_version o.source_truncated
      (terminal_of o.raw_status)

pub check_outcome-eq-ok :
    (contract : Contract) (o : CheckOutcome)
    → check_outcome contract o ≡ ok tt
    → rebuild contract o ≡ ok o
unfolding check_outcome
check_outcome-eq-ok contract o h =
    let (r, e, h') = >>=-eq-ok (rebuild contract o) _ h in
    elim (CheckOutcome_discrete o r) [
      | yes p ↦ e ∙ ap ok (sym p)
      | no n ↦ absurd (not_ok (rw (if_neg _ n) at h'))
    ]
  where
    not_ok : {x : Raised} → ◌≡◌ {A = Result Raised (Unit {0})} (err x) (ok tt) → ⊥
    not_ok q = cc

check_outcome_of_rebuild :
    (contract : Contract) (o : CheckOutcome)
    → rebuild contract o ≡ ok o
    → check_outcome contract o ≡ ok tt
unfolding check_outcome
check_outcome_of_rebuild contract o h = rw h (if_pos (CheckOutcome_discrete o o) refl _ _)

-- `decide` never takes an outcome of `aggregate` for an inconsistent one.
pub check_outcome-aggregate :
    (contract : Contract) (check_id : String) (fs : List Finding) (t v : Option String) (b : Bool)
    (terminal : Option RawStatus) (o : CheckOutcome)
    → aggregate check_id fs contract t v b terminal ≡ ok o
    → check_outcome contract o ≡ ok tt
check_outcome-aggregate contract check_id fs t v b terminal o h =
    check_outcome_of_rebuild contract o (aggregate-rebuild check_id fs contract t v b terminal h)

abbrev pub known_status : RawStatus → Bool
known_status (other_status s) = false
known_status _ = true

raw_status_of-known :
    (t : Option RawStatus) (b : Bool) (fs : List Finding)
    → terminal_allowed t ≡ true
    → known_status (raw_status_of t b fs) ≡ true
unfolding raw_status_of
raw_status_of-known t b fs h = ground arith

aggregate_spec-known :
    (spec : CheckSpec) (fs : List Finding) (contract : Contract) (t v : Option String) (b : Bool)
    (terminal : Option RawStatus) (o : CheckOutcome)
    → terminal_allowed terminal ≡ true
    → aggregate_spec spec fs contract t v b terminal ≡ ok o
    → known_status o.raw_status ≡ true
unfolding aggregate_na outcome_of
aggregate_spec-known spec fs contract t v b terminal o k h =
    elim (Bool-cases (member spec.id contract.na_check_ids)) [
      | inl e ↦ let h' = rw e at h in ground arith
      | inr e ↦
          let (fs', locked, n, q) =
            aggregate_tool-eq-ok spec fs contract t v b terminal (rw e at h) in
          rw (← q) (raw_status_of-known terminal b fs' k)
    ]

pub check_outcome-known :
    (contract : Contract) (o : CheckOutcome)
    → check_outcome contract o ≡ ok tt
    → known_status o.raw_status ≡ true
check_outcome-known contract o h =
    let e = check_outcome-eq-ok contract o h in
    let (spec, k, e', h') =
      aggregate-eq-ok o.id o.findings contract o.tool_id o.tool_version o.source_truncated
        (terminal_of o.raw_status) e in
    aggregate_spec-known spec o.findings contract o.tool_id o.tool_version o.source_truncated
      (terminal_of o.raw_status) o k h'
