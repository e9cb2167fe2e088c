-- ===== src/Bridge/Queue/Ticks.antt =====
-- What a whole `tick` comes to: the rounds of `Rounds`, one after the other.
use blender_design.Common.{
  ℕ, zero, suc, ◌+◌, ◌≤◌, ◌≡◌, refl, sym, ap, ◌∙◌, Bool, true, false, ◌&&◌, List, [], ◌∷◌, ◌++◌,
  Option, none, some, arith, leb, if◌then◌else◌, inl, inr, if-cases, some-injective, none≢some,
}
use blender_design.Protocol.Envelope.{Request}
use blender_design.Bridge.Queue.{
  busy_interval, idle_interval, Task, Env, Queue, World, complete_active, requeue, take_first, now,
  run_task, tick_loop, tick,
}
use blender_design.Bridge.Queue.Bounds.{
  IsBounded, take_first-IsBounded, complete_active-IsBounded, requeue-IsBounded,
}
use blender_design.Bridge.Queue.Effects.{settled, AllTimely, Effect, QueueAfter}
use blender_design.Bridge.Queue.Rounds.{run_task-Settles}

module _ {C : Type 0} where
  -- How many queued requests satisfy `p`.
  abbrev pub queued : (Request → Bool) → List (Task C) → ℕ
  queued p [] = 0
  queued p (t ∷ ts) = (if p t.request then 1 else 0) + queued p ts

  queued-append :
      (p : Request → Bool) (ts us : List (Task C)) → queued p (ts ++ us) ≡ queued p ts + queued p us
  queued-append p [] us = omega arith
  queued-append p (t ∷ ts) us = omega (arith, queued-append p ts us)

  -- What the rounds from `w` to `w'` keep.
  pub record Kept (w w' : World C) : Type 0 where
    pub count_eq :
        (p : Request → Bool)
        → settled p w'.events + queued p w'.queue.tasks
          ≡ settled p w.events + queued p w.queue.tasks
    pub timely : AllTimely w.events → AllTimely w'.events
    pub bounded : IsBounded none w.queue → IsBounded none w'.queue
    pub forward : w.observed ≤ w'.observed

  Kept-trans : {u v w : World C} → Kept u v → Kept v w → Kept u w
  Kept-trans a b = record {
    count_eq = λ p. b.count_eq p ∙ a.count_eq p;
    timely = λ h. b.timely (a.timely h);
    bounded = λ h. b.bounded (a.bounded h);
    forward = omega arith;
  }

  Kept-observe : (w : World C) → Kept w (record w { observed = w.observed + 1 })
  Kept-observe w = record {
    count_eq = λ p. refl;
    timely = λ h. h;
    bounded = λ h. h;
    forward = omega arith;
  }

  Kept-refl : (w : World C) → Kept w w
  Kept-refl w = record {
    count_eq = λ p. refl;
    timely = λ h. h;
    bounded = λ h. h;
    forward = omega arith;
  }

  left_queue :
      (finished : Bool) (t : Task C) (q q' : Queue C)
      → QueueAfter finished t q q'
      → (p : Request → Bool)
      → queued p q'.tasks + (if finished && p t.request then 1 else 0)
        ≡ queued p q.tasks + (if p t.request then 1 else 0)
  unfolding complete_active requeue
  left_queue true t q q' e p = let same = ap (λ r. queued p r.tasks) e in omega (arith, same)
  left_queue false t q q' (c, e) p =
      let u : Task C = record t { continuation = some c } in
      let same = ap (λ r. queued p r.tasks) e in
      omega (arith, same, queued-append p q.tasks (u ∷ []))

  left-IsBounded :
      (finished : Bool) (t : Task C) (q q' : Queue C)
      → QueueAfter finished t q q'
      → IsBounded (some t) q
      → IsBounded none q'
  left-IsBounded true t q q' e b = rw e (complete_active-IsBounded t q b)
  left-IsBounded false t q q' (c, e) b = rw e (requeue-IsBounded t c q b)

  round_Kept :
      (finished : Bool) (t : Task C) (rest : List (Task C)) (w w' : World C)
      → w.queue.tasks ≡ t ∷ rest
      → Effect finished t (record w { queue = take_first rest w.queue }) w'
      → Kept w w'
  unfolding take_first
  round_Kept finished t rest w w' e f = record {
    count_eq = λ p. omega (
      arith,
      f.count_eq p,
      left_queue finished t (take_first rest w.queue) w'.queue f.queue_after p,
      ap (queued p) e,
    );
    timely = f.timely;
    bounded = λ b.
        left-IsBounded finished t (take_first rest w.queue) w'.queue f.queue_after
          (take_first-IsBounded t rest w.queue b e);
    forward = f.forward;
  }

  module _ (env : Env C) where
    -- The rounds from a queue whose tasks are `ts`.
    tasks-Kept :
        (end fuel : ℕ) (w : World C) (out : ℕ × World C) (ts : List (Task C))
        → ((v : World C) → tick_loop env end fuel v ≡ some out → Kept v out.1)
        → w.queue.tasks ≡ ts
        → (elim ts as (λ _. Option (ℕ × World C)) [
          | [] ↦ some (idle_interval, w)
          | t ∷ rest ↦
              let (stop, w₂) = run_task env end t (record w { queue = take_first rest w.queue }) in
              let later = tick_loop env end fuel w₂ in
              if stop then some (busy_interval, w₂) else later
        ])
          ≡ some out
        → Kept w out.1
    tasks-Kept end fuel w out [] ih q e = rw (sym (some-injective _ _ e)) (Kept-refl w)
    tasks-Kept end fuel w out (t ∷ rest) ih q e =
        let v : World C = record w { queue = take_first rest w.queue } in
        let (finished, f) = run_task-Settles env t end v in
        let r = run_task env end t v in
        let k = round_Kept finished t rest w r.1 q f in
        elim (if-cases r.0 (some (busy_interval, r.1)) (tick_loop env end fuel r.1) (some out) e) [
          | inl (_, h) ↦ rw (sym (some-injective _ _ h)) k
          | inr (_, h) ↦ Kept-trans k (ih r.1 h)
        ]

    loop-Kept :
        (end fuel : ℕ) (w : World C) (out : ℕ × World C)
        → tick_loop env end fuel w ≡ some out
        → Kept w out.1
    unfolding tick_loop
    loop-Kept end zero w out e = absurd (none≢some e)
    loop-Kept end (suc fuel) w out e =
        let w₁ = (now env w).1 in
        elim (if-cases (leb end (env.clock w.observed)) _ _ (some out) e) [
          | inl (_, h) ↦ rw (sym (some-injective _ _ h)) (Kept-observe w)
          | inr (_, h) ↦
              Kept-trans (Kept-observe w) (
                tasks-Kept end fuel w₁ out w₁.queue.tasks (λ v k. loop-Kept end fuel v out k) refl
                  h)
        ]

    tick-Kept :
        (fuel budget : ℕ) (w : World C) (out : ℕ × World C)
        → tick env fuel budget w ≡ some out
        → Kept w out.1
    unfolding tick
    tick-Kept fuel budget w out e =
        Kept-trans (Kept-observe w)
          (loop-Kept (env.clock w.observed + budget) fuel (now env w).1 out e)

    -- No request is lost, answered twice or invented by a `tick`: for each set of requests, given by
    -- a test `p`, those settled (replied to or dropped) so far and those still queued are, together,
    -- as many after the tick as before it.
    pub tick-settles :
        (fuel budget : ℕ) (w : World C) (out : ℕ × World C) (p : Request → Bool)
        → tick env fuel budget w ≡ some out
        → settled p out.1.events + queued p out.1.queue.tasks
          ≡ settled p w.events + queued p w.queue.tasks
    tick-settles fuel budget w out p e = (tick-Kept fuel budget w out e).count_eq p

    -- A `tick` hands no reply to a connection once the clock has been seen at the task's deadline
    -- or past it: if the replies before the tick were timely, all replies after it are.
    pub tick-AllTimely :
        (fuel budget : ℕ) (w : World C) (out : ℕ × World C)
        → tick env fuel budget w ≡ some out
        → AllTimely w.events
        → AllTimely out.1.events
    tick-AllTimely fuel budget w out e = (tick-Kept fuel budget w out e).timely

    -- A `tick` that starts with no task in hand and a queue within its bounds ends so: the counters
    -- are exact, and the capacity and the limit on scene summaries hold, on every path of its rounds.
    pub tick-IsBounded :
        (fuel budget : ℕ) (w : World C) (out : ℕ × World C)
        → tick env fuel budget w ≡ some out
        → IsBounded none w.queue
        → IsBounded none out.1.queue
    tick-IsBounded fuel budget w out e = (tick-Kept fuel budget w out e).bounded
