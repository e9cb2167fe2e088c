-- ===== src/Bridge/Queue/Effects.antt =====
-- What a piece of `tick` does to the queue, the events and the number of observations.
use blender_design.Common.{
  ℕ, ◌+◌, ◌≤◌, ◌<◌, ◌≡◌, refl, ap, ◌∙◌, Bool, true, false, ◌&&◌, List, [], ◌∷◌, ◌++◌, some, arith,
  if◌then◌else◌,
}
use blender_design.Protocol.Envelope.{Request}
use blender_design.Bridge.Queue.{
  Task, Queue, Event, replied, dropped, closed, World, complete_active, requeue,
}

module _ {C : Type 0} where
  -- How many tasks whose request satisfies `p` an event answers or drops.
  abbrev pub settles : (Request → Bool) → Event C → ℕ
  settles p (replied t response at) = if p t.request then 1 else 0
  settles p (dropped t) = if p t.request then 1 else 0
  settles p (closed c) = 0

  abbrev pub settled : (Request → Bool) → List (Event C) → ℕ
  settled p [] = 0
  settled p (e ∷ es) = settles p e + settled p es

  -- A reply was sent before the deadline of its task.
  abbrev pub Timely : Event C → Type 0
  Timely (replied t response at) = at < t.deadline
  Timely _ = Unit

  abbrev pub AllTimely : List (Event C) → Type 0
  AllTimely [] = Unit
  AllTimely (e ∷ es) = Timely e × AllTimely es

  pub settled-append :
      (p : Request → Bool) (es fs : List (Event C))
      → settled p (es ++ fs) ≡ settled p es + settled p fs
  settled-append p [] fs = omega arith
  settled-append p (e ∷ es) fs = omega (arith, settled-append p es fs)

  pub AllTimely-append :
      (es fs : List (Event C)) → AllTimely es → AllTimely fs → AllTimely (es ++ fs)
  AllTimely-append [] fs h k = k
  AllTimely-append (e ∷ es) fs h k = (h.0, AllTimely-append es fs h.1 k)

  abbrev pub QueueAfter : Bool → Task C → Queue C → Queue C → Type 0
  QueueAfter true t q q' = q' ≡ complete_active t q
  QueueAfter false t q q' = (c : C) × (q' ≡ requeue (record t { continuation = some c }) q)

  -- From `w` to `w'` nothing was settled, and the queue was not touched.
  pub record Quiet (w w' : World C) : Type 0 where
    pub queue_eq : w'.queue ≡ w.queue
    pub count_eq : (p : Request → Bool) → settled p w'.events ≡ settled p w.events
    pub timely : AllTimely w.events → AllTimely w'.events
    pub forward : w.observed ≤ w'.observed

  -- From `w` to `w'` the task `t` was settled once (`true`), or put back and not settled (`false`).
  pub record Effect (finished : Bool) (t : Task C) (w w' : World C) : Type 0 where
    pub queue_after : QueueAfter finished t w.queue w'.queue
    pub count_eq :
        (p : Request → Bool)
        → settled p w'.events ≡ settled p w.events + (if finished && p t.request then 1 else 0)
    pub timely : AllTimely w.events → AllTimely w'.events
    pub forward : w.observed ≤ w'.observed

  pub Quiet-refl : (w : World C) → Quiet w w
  Quiet-refl w = record {
    queue_eq = refl;
    count_eq = λ p. refl;
    timely = λ h. h;
    forward = omega arith;
  }

  pub Quiet-observe : (w : World C) → Quiet w (record w { observed = w.observed + 1 })
  Quiet-observe w = record {
    queue_eq = refl;
    count_eq = λ p. refl;
    timely = λ h. h;
    forward = omega arith;
  }

  pub Quiet-close :
      (c : C) (w : World C) → Quiet w (record w { events = w.events ++ closed c ∷ [] })
  Quiet-close c w = record {
    queue_eq = refl;
    count_eq = λ p. omega (arith, settled-append p w.events (closed c ∷ []));
    timely = λ h. AllTimely-append w.events (closed c ∷ []) h (tt, tt);
    forward = omega arith;
  }

  pub Quiet-trans : {u v w : World C} → Quiet u v → Quiet v w → Quiet u w
  Quiet-trans a b = record {
    queue_eq = b.queue_eq ∙ a.queue_eq;
    count_eq = λ p. b.count_eq p ∙ a.count_eq p;
    timely = λ h. b.timely (a.timely h);
    forward = omega arith;
  }

  moved :
      (finished : Bool) (t : Task C) (p q r : Queue C)
      → q ≡ p
      → QueueAfter finished t q r
      → QueueAfter finished t p r
  moved true t p q r e a = a ∙ ap (complete_active t) e
  moved false t p q r e (c, a) = (c, a ∙ ap (requeue (record t { continuation = some c })) e)

  pub Quiet-Effect :
      {finished : Bool} {t : Task C} {u v w : World C}
      → Quiet u v
      → Effect finished t v w
      → Effect finished t u w
  Quiet-Effect {finished} {t} {u} {v} {w} a b = record {
    queue_after = moved finished t u.queue v.queue w.queue a.queue_eq b.queue_after;
    count_eq = λ p. omega (arith, b.count_eq p, a.count_eq p);
    timely = λ h. b.timely (a.timely h);
    forward = omega arith;
  }

  -- A task settled by one event, on its way out of the queue.
  pub Effect-settle :
      (t : Task C) (e : Event C) (w : World C)
      → ((p : Request → Bool) → settles p e ≡ (if p t.request then 1 else 0))
      → Timely e
      → Effect true t w
          (record w { queue = complete_active t w.queue; events = w.events ++ e ∷ [] })
  Effect-settle t e w same now = record {
    queue_after = refl;
    count_eq = λ p. omega (arith, settled-append p w.events (e ∷ []), same p);
    timely = λ h. AllTimely-append w.events (e ∷ []) h (now, tt);
    forward = omega arith;
  }

  pub Effect-put_back :
      (t : Task C) (c : C) (w : World C)
      → Effect false t w (record w { queue = requeue (record t { continuation = some c }) w.queue })
  Effect-put_back t c w = record {
    queue_after = (c, refl);
    count_eq = λ p. omega arith;
    timely = λ h. h;
    forward = omega arith;
  }
