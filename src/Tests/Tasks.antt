-- ===== src/Tests/Tasks.antt =====
-- A tick over a queue of three requests: one is answered, one has expired, one is a summary in two steps.
use blender_design.Common.{
  ℕ, ◌≡◌, ◌≤◌, ◌<◌, ◌+◌, refl, Bool, false, List, [], ◌∷◌, none, some, arith, ℕ_discrete, zero, suc,
  if◌then◌else◌,
}
use blender_design.Protocol.Json.{text, text_eq, end, Text_discrete}
use blender_design.Protocol.Envelope.{Request}
use blender_design.Bridge.Queue.{
  idle_interval, Task, frame, steps, yielded, returned, Env, Queue, replied, dropped, World,
  count_summaries, drain, take_first, complete_active, requeue, pending, is_cancelled, drop_task,
  reply_task, respond, after_step, advance, run_steps, use_result, run_task, tick_loop, tick,
}
use blender_design.Bridge.Queue.Bounds.{IsBounded}
use blender_design.Bridge.Queue.Effects.{settled, AllTimely}
use blender_design.Bridge.Queue.Interleaving.{
  drained, took, completed, Reach, here, then_step, Reach-IsBounded,
}
use blender_design.Bridge.Queue.Ticks.{queued, tick-settles, tick-AllTimely, tick-IsBounded}
use blender_design.Bridge.Queue.Ends.{tick-ends}

abbrev request : List ℕ → Request
request method = record {
  id = text "a1";
  token = text "t";
  method = method;
  params = end;
  v = 1;
  budget_ms = none;
}

abbrev task : List ℕ → ℕ → Task ℕ
task method deadline = record {
  request = request method;
  deadline = deadline;
  continuation = none;
  cancelled = none;
}

abbrev ping : Task ℕ
ping = task (text "ping") 1000

abbrev summary : Task ℕ
summary = task (text "scene_summary") 1000

abbrev late : Task ℕ
late = task (text "ping") 1

-- Each look at the clock shows a millisecond more; a summary has to be asked twice.
abbrev env : Env ℕ
env = record {
  clock = λ n. n;
  is_set = λ n event. false;
  handler = λ n r. if text_eq r.method (text "ping") then frame (1 ∷ []) else steps 1;
  next = λ n c. elim c [ zero ↦ returned (2 ∷ []) | suc k ↦ yielded k ];
  failure_frame = λ n r. [];
}

abbrev start : World ℕ
start = record {
  queue = record {
    capacity = 3;
    tasks = ping ∷ late ∷ summary ∷ [];
    active = 0;
    scene_summaries = 1;
  };
  observed = 0;
  events = [];
}

abbrev ended : World ℕ
ended = record {
  queue = record { capacity = 3; tasks = []; active = 0; scene_summaries = 0 };
  observed = 20;
  events =
      replied ping (1 ∷ []) 4
      ∷ dropped late
      ∷ replied (record summary { continuation = some 0 }) (2 ∷ []) 18
      ∷ [];
}

run : tick env 10 50 start ≡ some (idle_interval, ended)
unfolding tick tick_loop run_task use_result run_steps advance after_step respond reply_task
    drop_task is_cancelled requeue complete_active take_first pending text_eq Text_discrete
    ℕ_discrete
run = refl

abbrev is_ping : Request → Bool
is_ping r = text_eq r.method (text "ping")

tick-settles_example :
    settled is_ping ended.events + queued is_ping ended.queue.tasks
    ≡ settled is_ping start.events + queued is_ping start.queue.tasks
tick-settles_example = tick-settles env 10 50 start (idle_interval, ended) is_ping run

tick-AllTimely_example : AllTimely ended.events
tick-AllTimely_example = tick-AllTimely env 10 50 start (idle_interval, ended) run tt

start-IsBounded : IsBounded none start.queue
unfolding count_summaries text_eq Text_discrete ℕ_discrete
start-IsBounded = record {
  active_eq = refl;
  within = omega arith;
  summaries_eq = refl;
  few_summaries = omega arith;
}

tick-IsBounded_example : IsBounded none ended.queue
tick-IsBounded_example = tick-IsBounded env 10 50 start (idle_interval, ended) run start-IsBounded

monotone : (a b : ℕ) → a ≤ b → a ≤ b
monotone a b h = h

reached : env.clock start.observed + 5 ≤ env.clock 5
reached = omega arith

some_fuel : 0 < 5
some_fuel = omega arith

enough : 5 < start.observed + 1 + 5
enough = omega arith

tick-ends_example : (out : ℕ × World ℕ) × (tick env 5 5 start ≡ some out)
tick-ends_example = tick-ends env 5 5 5 start monotone reached some_fuel enough

-- The main thread takes a task, the other one drains the queue, and the task is completed.
abbrev taken : Queue ℕ
taken = take_first (late ∷ summary ∷ []) start.queue

race : Reach none start.queue none (complete_active ping (drain taken).0)
race = then_step (took start.queue ping (late ∷ summary ∷ []) refl) (
    then_step (drained (some ping) taken) (
      then_step (completed (drain taken).0 ping)
        (here none (complete_active ping (drain taken).0))))

Reach-IsBounded_example : IsBounded none (complete_active ping (drain taken).0)
Reach-IsBounded_example = Reach-IsBounded race start-IsBounded
