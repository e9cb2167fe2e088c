-- ===== src/Bridge/Queue/Bounds.antt =====
-- What holds of the queue whenever its lock is free, and every critical section keeps.
use blender_design.Common.{
  ℕ, ◌+◌, ◌≤◌, ◌<◌, ◌≡◌, sym, ap, ◌∙◌, false, ◌&&◌, List, [], ◌∷◌, ◌++◌, Option, none, some, ok,
  arith, length, leb, length-append,
}
use blender_design.Bridge.Queue.{
  max_scene_summary_tasks, Task, is_summary, summary_weight, count_summaries, Queue, submit, drain,
  complete_active, requeue, take_first,
}

module _ {C : Type 0} where
  abbrev flying : Option (Task C) → ℕ
  flying none = 0
  flying (some t) = 1

  abbrev flying_summaries : Option (Task C) → ℕ
  flying_summaries none = 0
  flying_summaries (some t) = summary_weight t

  -- `taken` is the task that the main thread has in hand.
  pub record IsBounded (taken : Option (Task C)) (q : Queue C) : Type 0 where
    pub active_eq : q.active ≡ flying taken
    pub within : length q.tasks + q.active ≤ q.capacity
    pub summaries_eq : q.scene_summaries ≡ count_summaries q.tasks + flying_summaries taken
    pub few_summaries : q.scene_summaries ≤ max_scene_summary_tasks

  count_summaries-append :
      (ts us : List (Task C)) → count_summaries (ts ++ us) ≡ count_summaries ts + count_summaries us
  unfolding count_summaries
  count_summaries-append [] us = omega arith
  count_summaries-append (t ∷ ts) us = omega (arith, count_summaries-append ts us)

  count_one : (t : Task C) → count_summaries (t ∷ []) ≡ summary_weight t
  unfolding count_summaries
  count_one t = omega arith

  abbrev append_task : Task C → Queue C → Queue C
  append_task t q = record q {
    tasks = q.tasks ++ t ∷ [];
    scene_summaries = q.scene_summaries + summary_weight t;
  }

  submit-eq-ok :
      (q q' : Queue C) (t : Task C)
      → submit q t ≡ ok q'
      → (length q.tasks + q.active < q.capacity)
        × (is_summary t && leb max_scene_summary_tasks q.scene_summaries ≡ false)
        × (append_task t q ≡ q')
  unfolding submit
  submit-eq-ok q q' t e = ground arith

  append_task-IsBounded :
      (taken : Option (Task C)) (q : Queue C) (t : Task C)
      → length q.tasks + q.active < q.capacity
      → is_summary t && leb max_scene_summary_tasks q.scene_summaries ≡ false
      → IsBounded taken q
      → IsBounded taken (append_task t q)
  append_task-IsBounded taken q t room few b =
      let len = length-append q.tasks (t ∷ []) in
      let count =
        count_summaries-append q.tasks (t ∷ [])
        ∙ ap (λ n. count_summaries q.tasks + n) (count_one t) in
      record {
        active_eq = b.active_eq;
        within = omega (arith, room, len);
        summaries_eq = omega (arith, b.summaries_eq, count);
        few_summaries = ground arith;
      }

  -- An accepted task fits: the capacity and the limit on summaries hold after `submit` too.
  pub submit-IsBounded :
      (taken : Option (Task C)) (q q' : Queue C) (t : Task C)
      → IsBounded taken q
      → submit q t ≡ ok q'
      → IsBounded taken q'
  submit-IsBounded taken q q' t b e =
      let (room, few, same) = submit-eq-ok q q' t e in
      rw (sym same) (append_task-IsBounded taken q t room few b)

  pub drain-IsBounded :
      (taken : Option (Task C)) (q : Queue C) → IsBounded taken q → IsBounded taken (drain q).0
  unfolding drain count_summaries
  drain-IsBounded taken q b = record {
    active_eq = b.active_eq;
    within = omega (arith, b.within);
    summaries_eq = omega (arith, b.summaries_eq);
    few_summaries = omega (arith, b.few_summaries);
  }

  pub take_first-IsBounded :
      (t : Task C) (rest : List (Task C)) (q : Queue C)
      → IsBounded none q
      → q.tasks ≡ t ∷ rest
      → IsBounded (some t) (take_first rest q)
  unfolding take_first count_summaries
  take_first-IsBounded t rest q b e =
      let len = ap length e in
      let count = ap count_summaries e in
      record {
        active_eq = omega (arith, b.active_eq);
        within = omega (arith, b.within, len);
        summaries_eq = omega (arith, b.summaries_eq, count);
        few_summaries = b.few_summaries;
      }

  pub complete_active-IsBounded :
      (t : Task C) (q : Queue C) → IsBounded (some t) q → IsBounded none (complete_active t q)
  unfolding complete_active
  complete_active-IsBounded t q b = record {
    active_eq = omega (arith, b.active_eq);
    within = omega (arith, b.within);
    summaries_eq = omega (arith, b.summaries_eq);
    few_summaries = omega (arith, b.few_summaries);
  }

  pub requeue-IsBounded :
      (t : Task C) (c : C) (q : Queue C)
      → IsBounded (some t) q
      → IsBounded none (requeue (record t { continuation = some c }) q)
  unfolding requeue
  requeue-IsBounded t c q b =
      let u : Task C = record t { continuation = some c } in
      let len = length-append q.tasks (u ∷ []) in
      let count =
        count_summaries-append q.tasks (u ∷ [])
        ∙ ap (λ n. count_summaries q.tasks + n) (count_one u) in
      record {
        active_eq = omega (arith, b.active_eq);
        within = omega (arith, b.within, b.active_eq, len);
        summaries_eq = omega (arith, b.summaries_eq, count);
        few_summaries = b.few_summaries;
      }
