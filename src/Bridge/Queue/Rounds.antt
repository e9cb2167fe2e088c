-- ===== src/Bridge/Queue/Rounds.antt =====
-- The round of one task settles it once, by a timely reply or by dropping it, or puts it back.
use blender_design.Common.{
  ℕ, ◌+◌, ◌<◌, refl, Bool, true, false, Option, none, some, arith, leb, Bool-cases, inl, inr,
}
use blender_design.Protocol.Framing.{Bytes}
use blender_design.Bridge.Queue.{
  Task, HandlerResult, frame, steps, handler_raised, StepResult, yielded, returned, returned_other,
  step_raised, Env, World, dropped, replied, now, is_cancelled, drop_task, reply_task, respond,
  after_step, advance, run_steps, result_of, use_result, run_task, close, close_any, observe, fail,
}
use blender_design.Bridge.Queue.Effects.{
  Quiet, Effect, Quiet-refl, Quiet-observe, Quiet-close, Quiet-trans, Quiet-Effect, Effect-settle,
  Effect-put_back,
}

module _ {C : Type 0} (env : Env C) (t : Task C) where
  is_cancelled-Quiet : (w : World C) → Quiet w (is_cancelled env t w).1
  unfolding is_cancelled
  is_cancelled-Quiet w = go t.cancelled
    where
      go :
          (e : Option ℕ)
          → Quiet w
              (elim e as (λ _. Bool × World C) [
                | none ↦ (false, w)
                | some event ↦ (env.is_set w.observed event, record w { observed = w.observed + 1 })
              ]).1
      go none = Quiet-refl w
      go (some e) = Quiet-observe w

  drop_task-Effect : (w : World C) → Effect true t w (drop_task env t w)
  unfolding drop_task
  drop_task-Effect w = Effect-settle t (dropped t) w (λ p. refl) tt

  reply_task-Effect :
      (response : Bytes) (at : ℕ) (w : World C)
      → at < t.deadline
      → Effect true t w (reply_task env t response at w)
  unfolding reply_task
  reply_task-Effect response at w h = Effect-settle t (replied t response at) w (λ p. refl) h

  respond-Effect : (response : Bytes) (w : World C) → Effect true t w (respond env t response w)
  unfolding respond
  respond-Effect response w =
      let w₁ = (is_cancelled env t w).1 in
      let q₁ = is_cancelled-Quiet w in
      let q₂ = Quiet-trans q₁ (Quiet-observe w₁) in
      elim (Bool-cases (is_cancelled env t w).0) [
        | inl e ↦ rw e (Quiet-Effect q₁ (drop_task-Effect w₁))
        | inr e ↦ elim (Bool-cases (leb t.deadline (env.clock w₁.observed))) [
          | inl d ↦ rw (e, d) (Quiet-Effect q₂ (drop_task-Effect (now env w₁).1))
          | inr d ↦
              rw (e, d)
                (Quiet-Effect q₂ (
                  reply_task-Effect response (env.clock w₁.observed) (now env w₁).1 (ground arith)))
        ]
      ]

  close_any-Quiet : (c : Option C) (w : World C) → Quiet w (close_any env c w)
  close_any-Quiet none w = Quiet-refl w
  close_any-Quiet (some c) w = Quiet-close c w

  fail-Effect : (c : Option C) (w : World C) → Effect true t w (fail env t c w)
  fail-Effect c w =
      Quiet-Effect (Quiet-trans (Quiet-observe w) (close_any-Quiet c (observe env w)))
        (respond-Effect (env.failure_frame w.observed t.request) (close_any env c (observe env w)))

  -- A step of a round: it says whether the task was settled, and where it comes to.
  abbrev pub Settles : World C → World C → Type 0
  Settles w w' = (finished : Bool) × Effect finished t w w'

  after-Quiet : {u v : World C} (w : World C) → Quiet u v → Settles v w → Settles u w
  after-Quiet w q (finished, e) = (finished, Quiet-Effect q e)

  after_step-Settles : (c : C) (r : StepResult C) (w : World C) → Settles w (after_step env t c r w)
  unfolding after_step
  after_step-Settles c (yielded c') w =
      let w₁ = (is_cancelled env t w).1 in
      let q₁ = is_cancelled-Quiet w in
      elim (Bool-cases (is_cancelled env t w).0) [
        | inl e ↦ rw e (
          true,
          Quiet-Effect (Quiet-trans q₁ (Quiet-close c' w₁)) (drop_task-Effect (close env c' w₁)),
        )
        | inr e ↦ rw e (false, Quiet-Effect q₁ (Effect-put_back t c' w₁))
      ]
  after_step-Settles c (returned response) w = (true, respond-Effect response w)
  after_step-Settles c returned_other w = (true, fail-Effect (some c) w)
  after_step-Settles c step_raised w = (true, fail-Effect (some c) w)

  run_steps-Settles : (end : ℕ) (c : C) (w : World C) → Settles w (run_steps env end t c w).1
  unfolding run_steps advance
  run_steps-Settles end c w =
      let w₁ = (now env w).1 in
      let w₂ = (now env w₁).1 in
      let q₁ = Quiet-observe w in
      let q₂ = Quiet-trans q₁ (Quiet-observe w₁) in
      elim (Bool-cases (leb t.deadline (env.clock w.observed))) [
        | inl d ↦ rw d (
          true,
          Quiet-Effect (Quiet-trans q₁ (Quiet-close c w₁)) (drop_task-Effect (close env c w₁)),
        )
        | inr d ↦ elim (Bool-cases (leb end (env.clock w₁.observed))) [
          | inl l ↦ rw (d, l) (false, Quiet-Effect q₂ (Effect-put_back t c w₂))
          | inr l ↦
              rw (d, l)
                (after-Quiet _ (Quiet-trans q₂ (Quiet-observe w₂))
                  (after_step-Settles c (env.next w₂.observed c) (observe env w₂)))
        ]
      ]

  use_result-Settles :
      (end : ℕ) (r : HandlerResult C) (w : World C) → Settles w (use_result env end t (r, w)).1
  unfolding use_result
  use_result-Settles end handler_raised w = (true, fail-Effect none w)
  use_result-Settles end (frame response) w =
      let w₁ = (is_cancelled env t w).1 in
      let q₁ = is_cancelled-Quiet w in
      elim (Bool-cases (is_cancelled env t w).0) [
        | inl e ↦ rw e (true, Quiet-Effect q₁ (drop_task-Effect w₁))
        | inr e ↦ rw e (true, Quiet-Effect q₁ (respond-Effect response w₁))
      ]
  use_result-Settles end (steps c) w =
      let w₁ = (is_cancelled env t w).1 in
      let q₁ = is_cancelled-Quiet w in
      elim (Bool-cases (is_cancelled env t w).0) [
        | inl e ↦ rw e (
          true,
          Quiet-Effect (Quiet-trans q₁ (Quiet-close c w₁)) (drop_task-Effect (close env c w₁)),
        )
        | inr e ↦ rw e (after-Quiet _ q₁ (run_steps-Settles end c w₁))
      ]

  result_of-Settles :
      (end : ℕ) (c : Option C) (w : World C)
      → Settles w (use_result env end t (result_of env t c w)).1
  result_of-Settles end none w =
      after-Quiet _ (Quiet-observe w)
        (use_result-Settles end (env.handler w.observed t.request) (observe env w))
  result_of-Settles end (some c) w = use_result-Settles end (steps c) w

  -- A round settles its task once, or puts it back.
  pub run_task-Settles : (end : ℕ) (w : World C) → Settles w (run_task env end t w).1
  unfolding run_task
  run_task-Settles end w =
      let w₁ = (is_cancelled env t w).1 in
      let w₂ = (now env w₁).1 in
      let q₁ = is_cancelled-Quiet w in
      let q₂ = Quiet-trans q₁ (Quiet-observe w₁) in
      elim (Bool-cases (is_cancelled env t w).0) [
        | inl e ↦ rw e (
          true,
          Quiet-Effect (Quiet-trans q₁ (close_any-Quiet t.continuation w₁))
              (drop_task-Effect (close_any env t.continuation w₁)),
        )
        | inr e ↦ elim (Bool-cases (leb t.deadline (env.clock w₁.observed))) [
          | inl d ↦
              rw (e, d)
                (
                  true,
                  Quiet-Effect (Quiet-trans q₂ (close_any-Quiet t.continuation w₂))
                      (drop_task-Effect (close_any env t.continuation w₂)),
                )
          | inr d ↦ rw (e, d) (after-Quiet _ q₂ (result_of-Settles end t.continuation w₂))
        ]
      ]
