-- ===== src/Bridge/Queue/Interleaving.antt =====
-- The critical sections of both threads as steps of one relation: any interleaving of submissions,
-- drains and rounds keeps the queue within its bounds.
use blender_design.Common.{◌≡◌, List, ◌∷◌, Option, none, some, ok}
use blender_design.Bridge.Queue.{Task, Queue, submit, drain, complete_active, requeue, take_first}
use blender_design.Bridge.Queue.Bounds.{
  IsBounded, submit-IsBounded, drain-IsBounded, take_first-IsBounded, complete_active-IsBounded,
  requeue-IsBounded,
}

module _ {C : Type 0} where
  -- One critical section: the task that the main thread has in hand, and the queue, before and after.
  pub data Step : Option (Task C) → Queue C → Option (Task C) → Queue C → Type 0 where
    submitted :
        (taken : Option (Task C)) (q q' : Queue C) (t : Task C)
        → submit q t ≡ ok q'
        → Step taken q taken q'
    drained : (taken : Option (Task C)) (q : Queue C) → Step taken q taken (drain q).0
    took :
        (q : Queue C) (t : Task C) (rest : List (Task C))
        → q.tasks ≡ t ∷ rest
        → Step none q (some t) (take_first rest q)
    completed : (q : Queue C) (t : Task C) → Step (some t) q none (complete_active t q)
    requeued :
        (q : Queue C) (t : Task C) (c : C)
        → Step (some t) q none (requeue (record t { continuation = some c }) q)

  pub data Reach : Option (Task C) → Queue C → Option (Task C) → Queue C → Type 0 where
    here : (taken : Option (Task C)) (q : Queue C) → Reach taken q taken q
    then_step :
        {a b c : Option (Task C)} {p q r : Queue C} → Step a p b q → Reach b q c r → Reach a p c r

  Step-IsBounded :
      {a b : Option (Task C)} {p q : Queue C} → Step a p b q → IsBounded a p → IsBounded b q
  Step-IsBounded (submitted taken q q' t e) b = submit-IsBounded taken q q' t b e
  Step-IsBounded (drained taken q) b = drain-IsBounded taken q b
  Step-IsBounded (took q t rest e) b = take_first-IsBounded t rest q b e
  Step-IsBounded (completed q t) b = complete_active-IsBounded t q b
  Step-IsBounded (requeued q t c) b = requeue-IsBounded t c q b

  -- From a queue within its bounds, whatever critical sections of the two threads follow, in
  -- whatever order, the queue is within its bounds: at most `capacity` tasks are pending, at most
  -- two of them are scene summaries, and the counters `_active` and `_scene_summaries` are exact.
  pub Reach-IsBounded :
      {a b : Option (Task C)} {p q : Queue C} → Reach a p b q → IsBounded a p → IsBounded b q
  Reach-IsBounded (here taken q) b = b
  Reach-IsBounded (then_step s r) b = Reach-IsBounded r (Step-IsBounded s b)
