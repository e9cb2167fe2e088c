-- ===== src/Bridge/Queue.antt =====
-- bridge/core/queue.py: the queue between the I/O thread, which submits, and Blender's main thread,
-- which runs `tick`. Each method's critical section is a function on the shared fields; `tick`
-- calls them in its order. What the outside answers (the clock, the cancellation flags, the
-- handler, one step of a continuation) is read from an environment.
pub mod Effects
pub mod Rounds
pub mod Bounds
pub mod Interleaving
pub mod Ticks
pub mod Ends
use blender_design.Common.{
  ℕ, zero, suc, ◌+◌, ◌-◌, ◌≤◌, Bool, true, false, not, ◌&&◌, ◌||◌, List, [], ◌∷◌, ◌++◌, Option,
  none, some, Result, ok, err, length, ltb, leb, ◌==◌, if◌then◌else◌,
}
use blender_design.Protocol.Framing.{Bytes}
use blender_design.Protocol.Json.{text, text_eq}
use blender_design.Protocol.Envelope.{Request}

abbrev pub max_scene_summary_tasks : ℕ
max_scene_summary_tasks = 2

pub data QueueFull : Type 0 where
  queue_full : QueueFull

-- IDLE_INTERVAL and BUSY_INTERVAL, in milliseconds.
abbrev pub idle_interval : ℕ
idle_interval = 20

abbrev pub busy_interval : ℕ
busy_interval = 10

-- `C` is what a suspended generator holds. `cancelled` names the event of the connection.
pub record Task (C : Type 0) : Type 0 where
  pub request : Request
  pub deadline : ℕ
  pub continuation : Option C
  pub cancelled : Option ℕ

-- What a call of the handler, or of `next`, comes to.
pub data HandlerResult (C : Type 0) : Type 0 where
  frame : Bytes → HandlerResult C
  steps : C → HandlerResult C
  handler_raised : HandlerResult C

pub data StepResult (C : Type 0) : Type 0 where
  yielded : C → StepResult C
  returned : Bytes → StepResult C
  returned_other : StepResult C
  step_raised : StepResult C

-- The n-th observation of the outside: the clock, a cancellation flag, the handler.
pub record Env (C : Type 0) : Type 0 where
  pub clock : ℕ → ℕ
  pub is_set : ℕ → ℕ → Bool
  pub handler : ℕ → Request → HandlerResult C
  pub next : ℕ → C → StepResult C
  -- envelope.error_frame(id, SCENE_QUERY_FAILED, type name)
  pub failure_frame : ℕ → Request → Bytes

module _ {C : Type 0} where
  abbrev pub is_summary : Task C → Bool
  is_summary t = text_eq t.request.method (text "scene_summary")

  abbrev pub summary_weight : Task C → ℕ
  summary_weight t = if is_summary t then 1 else 0

  -- `sum(task.request.method == "scene_summary" for task in tasks)`
  unfoldable pub count_summaries : List (Task C) → ℕ
  count_summaries [] = 0
  count_summaries (t ∷ ts) = summary_weight t + count_summaries ts

pub record Queue (C : Type 0) : Type 0 where
  pub capacity : ℕ
  pub tasks : List (Task C)
  pub active : ℕ
  pub scene_summaries : ℕ

module _ {C : Type 0} where
  unfoldable pub pending : Queue C → ℕ
  pending q = length q.tasks + q.active

  unfoldable pub submit : Queue C → Task C → Result QueueFull (Queue C)
  submit q t =
      if leb q.capacity (length q.tasks + q.active)
      then err queue_full
      else if is_summary t && leb max_scene_summary_tasks q.scene_summaries
      then err queue_full
      else ok (record q {
        tasks = q.tasks ++ t ∷ [];
        scene_summaries = q.scene_summaries + summary_weight t;
      })

  -- `drain`, with the tasks whose continuations it closes.
  unfoldable pub drain : Queue C → Queue C × List (Task C)
  drain q = (
    record q { tasks = []; scene_summaries = q.scene_summaries - count_summaries q.tasks },
    q.tasks,
  )

  -- `_complete_active`
  unfoldable pub complete_active : Task C → Queue C → Queue C
  complete_active t q = record q {
    active = q.active - 1;
    scene_summaries = q.scene_summaries - summary_weight t;
  }

  -- The section of `tick` that puts a suspended task back.
  unfoldable pub requeue : Task C → Queue C → Queue C
  requeue t q = record q { tasks = q.tasks ++ t ∷ []; active = q.active - 1 }

  -- The section of `tick` that takes the first task, here `t` before `rest`.
  unfoldable pub take_first : List (Task C) → Queue C → Queue C
  take_first rest q = record q { tasks = rest; active = q.active + 1 }

-- What the run of a task shows outside.
pub data Event (C : Type 0) : Type 0 where
  -- the frame was handed to the connection, after the clock had shown `at`
  replied : Task C → Bytes → (at : ℕ) → Event C
  dropped : Task C → Event C
  closed : C → Event C

pub record World (C : Type 0) : Type 0 where
  pub queue : Queue C
  pub observed : ℕ
  pub events : List (Event C)

module _ {C : Type 0} (env : Env C) where
  abbrev pub observe : World C → World C
  observe w = record w { observed = w.observed + 1 }

  abbrev pub emit : Event C → World C → World C
  emit e w = record w { events = w.events ++ e ∷ [] }

  -- `self._clock.monotonic()`
  abbrev pub now : World C → ℕ × World C
  now w = (env.clock w.observed, observe w)

  -- `task.cancelled is not None and task.cancelled.is_set()`
  unfoldable pub is_cancelled : Task C → World C → Bool × World C
  is_cancelled t w = elim t.cancelled [
    | none ↦ (false, w)
    | some event ↦ (env.is_set w.observed event, observe w)
  ]

  abbrev pub close : C → World C → World C
  close c = emit (closed c)

  abbrev pub close_any : Option C → World C → World C
  close_any none w = w
  close_any (some c) w = close c w

  -- `_complete_active` after a task that gets no reply.
  unfoldable pub drop_task : Task C → World C → World C
  unfolding complete_active
  drop_task t w = emit (dropped t) (record w { queue = complete_active t w.queue })

  unfoldable pub reply_task : Task C → Bytes → ℕ → World C → World C
  unfolding complete_active
  reply_task t response at w =
      emit (replied t response at) (record w { queue = complete_active t w.queue })

  abbrev pub put_back : Task C → C → World C → World C
  put_back t c w = record w { queue = requeue (record t { continuation = some c }) w.queue }

  -- The end of a round: the reply, unless the task was cancelled or its deadline has passed.
  unfoldable pub respond : Task C → Bytes → World C → World C
  unfolding is_cancelled drop_task reply_task
  respond t response w =
      let (stop, w₁) = is_cancelled t w in
      let (at, w₂) = now w₁ in
      if stop
      then drop_task t w₁
      else if leb t.deadline at
      then drop_task t w₂
      else reply_task t response at w₂

  -- The `except` branch, and the reply after it.
  abbrev pub fail : Task C → Option C → World C → World C
  fail t c w = respond t (env.failure_frame w.observed t.request) (close_any c (observe w))

  -- What follows `next(continuation)`.
  unfoldable pub after_step : Task C → C → StepResult C → World C → World C
  unfolding respond requeue
  after_step t c (yielded c') w =
      let (stop, w₁) = is_cancelled t w in
      if stop then drop_task t (close c' w₁) else put_back t c' w₁
  after_step t c (returned response) w = respond t response w
  after_step t c returned_other w = fail t (some c) w
  after_step t c step_raised w = fail t (some c) w

  unfoldable pub advance : Task C → C → World C → World C
  unfolding after_step
  advance t c w = after_step t c (env.next w.observed c) (observe w)

  -- From the test of the deadline on, for a task with a continuation.
  unfoldable pub run_steps : ℕ → Task C → C → World C → Bool × World C
  unfolding advance
  run_steps end t c w =
      let (at, w₁) = now w in
      let (at', w₂) = now w₁ in
      if leb t.deadline at
      then (false, drop_task t (close c w₁))
      else if leb end at'
      then (true, put_back t c w₂)
      else (false, advance t c w₂)

  abbrev pub result_of : Task C → Option C → World C → HandlerResult C × World C
  result_of t none w = (env.handler w.observed t.request, observe w)
  result_of t (some c) w = (steps c, w)

  -- The body of the `try`, once the result is there.
  unfoldable pub use_result : ℕ → Task C → HandlerResult C × World C → Bool × World C
  unfolding run_steps
  use_result end t (handler_raised, w) = (false, fail t none w)
  use_result end t (frame response, w) =
      let (stop, w₁) = is_cancelled t w in
      (false, if stop then drop_task t w₁ else respond t response w₁)
  use_result end t (steps c, w) =
      let (stop, w₁) = is_cancelled t w in
      if stop then (false, drop_task t (close c w₁)) else run_steps end t c w₁

  -- One round of the loop of `tick`, from the task that it has taken: true is `return BUSY_INTERVAL`.
  unfoldable pub run_task : ℕ → Task C → World C → Bool × World C
  unfolding use_result
  run_task end t w =
      let (stop, w₁) = is_cancelled t w in
      let (at, w₂) = now w₁ in
      if stop
      then (false, drop_task t (close_any t.continuation w₁))
      else if leb t.deadline at
      then (false, drop_task t (close_any t.continuation w₂))
      else use_result end t (result_of t t.continuation w₂)

  -- The loop; `none` is the fuel running out.
  unfoldable pub tick_loop : ℕ → ℕ → World C → Option (ℕ × World C)
  unfolding take_first pending
  tick_loop end zero w = none
  tick_loop end (suc fuel) w =
      let (at, w₁) = now w in
      if leb end at
      then some (if ltb 0 (pending w₁.queue) then busy_interval else idle_interval, w₁)
      else (elim w₁.queue.tasks [
        | [] ↦ some (idle_interval, w₁)
        | t ∷ rest ↦
            let (stop, w₂) = run_task end t (record w₁ { queue = take_first rest w₁.queue }) in
            let later = tick_loop end fuel w₂ in if stop then some (busy_interval, w₂) else later
      ])

  unfoldable pub tick : ℕ → ℕ → World C → Option (ℕ × World C)
  unfolding tick_loop
  tick fuel budget w = let (start, w₁) = now w in tick_loop (start + budget) fuel w₁
