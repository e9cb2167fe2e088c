-- ===== src/Bridge/Queue/Ends.antt =====
-- The loop of `tick` ends when the clock reaches the end of the budget: each round looks at the clock.
use blender_design.Common.{
  ℕ, zero, suc, ◌+◌, ◌≤◌, ◌<◌, ◌≡◌, refl, ◌≢◌, false, List, [], ◌∷◌, Option, some, arith, leb, ltb,
  Bool-cases, inl, inr, if◌then◌else◌,
}
use blender_design.Bridge.Queue.{
  busy_interval, idle_interval, pending, Task, Env, World, take_first, now, run_task, tick_loop,
  tick,
}
use blender_design.Bridge.Queue.Rounds.{run_task-Settles}

module _ {C : Type 0} (env : Env C) where
  Ends : ℕ → ℕ → World C → Type 0
  Ends end fuel w = (out : ℕ × World C) × (tick_loop env end fuel w ≡ some out)

  tasks-end :
      (end fuel : ℕ) (w : World C) (ts : List (Task C))
      → ((v : World C) → w.observed ≤ v.observed → Ends end fuel v)
      → (out : ℕ × World C) × ((elim ts as (λ _. Option (ℕ × World C)) [
        | [] ↦ some (idle_interval, w)
        | t ∷ rest ↦
            let (stop, w₂) = run_task env end t (record w { queue = take_first rest w.queue }) in
            let later = tick_loop env end fuel w₂ in
            if stop then some (busy_interval, w₂) else later
      ])
          ≡ some out)
  unfolding Ends
  tasks-end end fuel w [] ih = ((idle_interval, w), refl)
  tasks-end end fuel w (t ∷ rest) ih =
      let v : World C = record w { queue = take_first rest w.queue } in
      let r = run_task env end t v in
      let f = run_task-Settles env t end v in
      elim (Bool-cases r.0) [
        | inl e ↦ rw e ((busy_interval, r.1), refl)
        | inr e ↦ rw e (ih r.1 f.1.forward)
      ]

  not_yet :
      (end n seen : ℕ)
      → ((a b : ℕ) → a ≤ b → env.clock a ≤ env.clock b)
      → end ≤ env.clock n
      → leb end (env.clock seen) ≡ false
      → seen < n
  not_yet end n seen monotone reached e = elim (Bool-cases (leb n seen)) [
    | inl l ↦
        let back = monotone n seen (ground arith) in
        absurd (late end (env.clock seen) (omega (arith, back)) e)
    | inr l ↦ ground arith
  ]
    where
      late : (a b : ℕ) → a ≤ b → leb a b ≢ false
      late a b h e = ground arith

  loop-Ends :
      (end n fuel : ℕ) (w : World C)
      → ((a b : ℕ) → a ≤ b → env.clock a ≤ env.clock b)
      → end ≤ env.clock n
      → 0 < fuel
      → n < w.observed + fuel
      → Ends end fuel w
  unfolding Ends tick_loop
  loop-Ends end n zero w monotone reached some_fuel enough = absurd (omega arith)
  loop-Ends end n (suc fuel) w monotone reached some_fuel enough =
      let w₁ = (now env w).1 in
      elim (Bool-cases (leb end (env.clock w.observed))) [
        | inl e ↦
            rw e ((if ltb 0 (pending w₁.queue) then busy_interval else idle_interval, w₁), refl)
        | inr e ↦
            let before : w.observed < n = not_yet end n w.observed monotone reached e in
            rw e (
              tasks-end end fuel w₁ w₁.queue.tasks (λ v later.
                loop-Ends end n fuel v monotone reached (omega arith) (omega (arith, later))))
      ]

  -- `tick` returns. When the clock never goes back, and the n-th look at it shows that the budget is
  -- used up, fuel for as many rounds as there are looks until then is enough, whatever the tasks do.
  pub tick-ends :
      (budget n fuel : ℕ) (w : World C)
      → ((a b : ℕ) → a ≤ b → env.clock a ≤ env.clock b)
      → env.clock w.observed + budget ≤ env.clock n
      → 0 < fuel
      → n < w.observed + 1 + fuel
      → (out : ℕ × World C) × (tick env fuel budget w ≡ some out)
  unfolding tick Ends
  tick-ends budget n fuel w monotone reached some_fuel enough =
      loop-Ends (env.clock w.observed + budget) n fuel (now env w).1 monotone reached some_fuel
        enough
