-- ===== src/Acceptance/Aggregate/Rebuild.antt =====
-- An outcome that `aggregate` made is made again from its own fields.
use blender_design.Common.{
  ◌≡◌, refl, inl, inr, Bool, true, String, List, [], ◌∷◌, Option, some, Result, ok, err, >>=-eq-ok,
  guard-eq-ok, arith, Bool-cases, Option-cases, member, eq_iff,
}
use blender_design.Acceptance.FailureCodes.{Raised}
use blender_design.Acceptance.Registry.{CheckSpec, spec_of, checks, find_spec}
use blender_design.Acceptance.Contract.{Contract}
use blender_design.Acceptance.Outcome.{Finding, CheckOutcome, RawStatus}
use blender_design.Acceptance.Aggregate.{
  terminal_of, terminal_allowed, normalize, normalize_all, raw_status_of, aggregate_na, tool_locked,
  outcome_of, aggregate_tool, aggregate_spec, aggregate, text_or_empty,
}

module _ (contract : Contract) (check_id tool_id tool_version : String) where
  normalize_idem :
      (f f' : Finding)
      → normalize contract check_id tool_id tool_version f ≡ ok f'
      → normalize contract check_id tool_id tool_version f' ≡ ok f'
  unfolding normalize
  normalize_idem f f' h = ground arith

  normalize_all_idem :
      (fs fs' : List Finding)
      → normalize_all contract check_id tool_id tool_version fs ≡ ok fs'
      → normalize_all contract check_id tool_id tool_version fs' ≡ ok fs'
  unfolding normalize_all
  normalize_all_idem [] fs' h = let e : [] ≡ fs' = cc h in rw (← e)
  normalize_all_idem (f ∷ fs) fs' h =
      let (g, e, h') = >>=-eq-ok (normalize contract check_id tool_id tool_version f) _ h in
      let (gs, e', h'') =
        >>=-eq-ok (normalize_all contract check_id tool_id tool_version fs) (λ gs. ok (g ∷ gs))
          h' in
      let q : g ∷ gs ≡ fs' = cc h'' in
      rw (← q) (rw (normalize_idem f g e) (rw (normalize_all_idem fs gs e')))

terminal_of_allowed : (s : RawStatus) → terminal_allowed (terminal_of s) ≡ true
terminal_of_allowed s = ground arith

raw_status_of-terminal_of :
    (t : Option RawStatus) (b : Bool) (fs : List Finding)
    → terminal_allowed t ≡ true
    → raw_status_of (terminal_of (raw_status_of t b fs)) b fs ≡ raw_status_of t b fs
unfolding raw_status_of
raw_status_of-terminal_of t b fs h = ground arith

module _ (spec : CheckSpec) (fs : List Finding) (contract : Contract) where
  pub aggregate_tool-eq-ok :
      (t v : Option String) (b : Bool) (terminal : Option RawStatus) {o : CheckOutcome}
      → aggregate_tool spec fs contract t v b terminal ≡ ok o
      → (fs' : List Finding) × (tool_locked contract t v ≡ true)
        × (normalize_all contract spec.id (text_or_empty t) (text_or_empty v) fs ≡ ok fs')
        × (outcome_of spec fs' t v b (raw_status_of terminal b fs') ≡ o)
  unfolding aggregate_tool
  aggregate_tool-eq-ok t v b terminal h =
      let (locked, h') = guard-eq-ok (tool_locked contract t v) _ _ h in
      let (fs', e, h'') =
        >>=-eq-ok (normalize_all contract spec.id (text_or_empty t) (text_or_empty v) fs) _ h' in
      (fs', locked, e, cc h'')

module _ (spec : CheckSpec) (fs : List Finding) (contract : Contract) where
  aggregate_tool-rebuild :
      (t v : Option String) (b : Bool) (terminal : Option RawStatus) {o : CheckOutcome}
      → terminal_allowed terminal ≡ true
      → aggregate_tool spec fs contract t v b terminal ≡ ok o
      → (aggregate_tool spec o.findings contract o.tool_id o.tool_version o.source_truncated
            (terminal_of o.raw_status)
          ≡ ok o)
        × (o.id ≡ spec.id)
  unfolding aggregate_tool outcome_of
  aggregate_tool-rebuild t v b terminal {o} k h =
      let (fs', locked, e, q) = aggregate_tool-eq-ok spec fs contract t v b terminal h in
      rw (← q) (
        rw
          (
            locked,
            normalize_all_idem contract spec.id (text_or_empty t) (text_or_empty v) fs fs' e,
            raw_status_of-terminal_of terminal b fs' k,
          )
          (refl, refl))

  aggregate_na-rebuild :
      (t v : Option String) (b : Bool) (terminal : Option RawStatus) {o : CheckOutcome}
      → aggregate_na spec fs t v b terminal ≡ ok o
      → (aggregate_na spec o.findings o.tool_id o.tool_version o.source_truncated
            (terminal_of o.raw_status)
          ≡ ok o)
        × (o.id ≡ spec.id)
  unfolding aggregate_na
  aggregate_na-rebuild t v b terminal h = ground arith

find_spec-id :
    (k : String) (cs : List CheckSpec) (spec : CheckSpec) → find_spec k cs ≡ some spec → spec.id ≡ k
find_spec-id k [] spec h = cc
find_spec-id k (c ∷ cs) spec h = ground (arith, eq_iff c.id k, find_spec-id k cs spec)

pub spec_of-id : (k : String) (spec : CheckSpec) → spec_of k ≡ some spec → spec.id ≡ k
unfolding spec_of
spec_of-id k spec h = find_spec-id k checks spec h

aggregate_spec-rebuild :
    (spec : CheckSpec) (fs : List Finding) (contract : Contract) (t v : Option String) (b : Bool)
    (terminal : Option RawStatus) {o : CheckOutcome}
    → terminal_allowed terminal ≡ true
    → aggregate_spec spec fs contract t v b terminal ≡ ok o
    → (aggregate_spec spec o.findings contract o.tool_id o.tool_version o.source_truncated
          (terminal_of o.raw_status)
        ≡ ok o)
      × (o.id ≡ spec.id)
aggregate_spec-rebuild spec fs contract t v b terminal k h =
    elim (Bool-cases (member spec.id contract.na_check_ids)) [
      | inl e ↦ rw e (aggregate_na-rebuild spec fs contract t v b terminal (rw e at h))
      | inr e ↦ rw e (aggregate_tool-rebuild spec fs contract t v b terminal k (rw e at h))
    ]

-- The parts of a call that returns.
pub aggregate-eq-ok :
    (check_id : String) (fs : List Finding) (contract : Contract) (t v : Option String) (b : Bool)
    (terminal : Option RawStatus) {o : CheckOutcome}
    → aggregate check_id fs contract t v b terminal ≡ ok o
    → (spec : CheckSpec) × (terminal_allowed terminal ≡ true)
      × (spec_of check_id ≡ some spec)
      × (aggregate_spec spec fs contract t v b terminal ≡ ok o)
unfolding aggregate
aggregate-eq-ok check_id fs contract t v b terminal h =
    let (k, h') = guard-eq-ok (terminal_allowed terminal) _ _ h in
    elim (Option-cases (spec_of check_id)) [
      | inl e ↦ absurd (no_error (rw e at h'))
      | inr (spec, e) ↦ (spec, k, e, rw e at h')
    ]
  where
    no_error :
        {x : Raised} {o : CheckOutcome} → ◌≡◌ {A = Result Raised CheckOutcome} (err x) (ok o) → ⊥
    no_error h = cc

-- An outcome of `aggregate` is reproduced by `aggregate` from its own id, findings, tool and
-- truncation flag, with the terminal state that its raw status shows: what `decide` recomputes to
-- see that nobody changed the outcome.
pub aggregate-rebuild :
    (check_id : String) (fs : List Finding) (contract : Contract) (t v : Option String) (b : Bool)
    (terminal : Option RawStatus) {o : CheckOutcome}
    → aggregate check_id fs contract t v b terminal ≡ ok o
    → aggregate o.id o.findings contract o.tool_id o.tool_version o.source_truncated
        (terminal_of o.raw_status)
      ≡ ok o
unfolding aggregate
aggregate-rebuild check_id fs contract t v b terminal {o} h =
    let (spec, k, e, h') = aggregate-eq-ok check_id fs contract t v b terminal h in
    let (again, same) = aggregate_spec-rebuild spec fs contract t v b terminal k h' in
    let known : spec_of o.id ≡ some spec = rw (same, spec_of-id check_id spec e) e in
    rw (terminal_of_allowed o.raw_status, known) again
