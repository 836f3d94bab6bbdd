-- ===== src/Tasks.antt =====
-- crates/base/src/manager: the tasks that run beside the engine. Timers, cancellation and the order in
-- which tasks are polled belong to the `tokio` crates: every order of the steps is allowed.
pub mod Stop
use schema_js.Prelude.{
  ℕ, zero, suc, ◌+◌, ◌≤◌, ◌≡◌, refl, List, [], ◌∷◌, ◌++◌, map, Bool, true, false, ◌||◌, some,
  get_elem?, if◌then◌else◌, arith,
}
use schema_js.TempShard.Ops.{set_at}
use schema_js.Primitives.Column.{Text}

-- A duration is a number of milliseconds.
pub data TaskDuration : Type 0 where
  defined : ℕ → TaskDuration
  once : TaskDuration

-- The callback gets the engine `E`, which it may change, and says whether it returns `Ok`. Whether the
-- cancellation token of a task is cancelled is a field.
pub record Task (E : Type 0) : Type 0 where
  pub id : Text
  pub func : E → E × Bool
  pub duration : TaskDuration
  pub token_cancelled : Bool

abbrev pub new_task : {E : Type 0} → Text → (E → E × Bool) → TaskDuration → Task E
new_task id func task_duration = record {
  id = id;
  func = func;
  duration = task_duration;
  token_cancelled = false;
}

pub record SchemeJsManager (E : Type 0) : Type 0 where
  pub runtime : E
  pub running : Bool
  pub tasks : List (Task E)
  pub cancelled : Bool

-- Where a spawned task stands: not yet polled, waiting for the next tick, or at its end.
pub data Phase : Type 0 where
  spawned ticking finished : Phase

-- What a poll of `run_task` leaves behind, and how often it called the callback.
pub record Polled (E : Type 0) : Type 0 where
  pub engine : E
  pub phase : Phase
  pub calls : ℕ

-- `while running`: on to the next tick, or to the end.
abbrev pub next_round : Bool → Phase
next_round running = if running then Phase.ticking else Phase.finished

module _ {E : Type 0} where
  abbrev pub new_tasks_manager : E → SchemeJsManager E
  new_tasks_manager runtime = record {
    runtime = runtime;
    running = true;
    tasks = [];
    cancelled = false;
  }

  abbrev pub add_task : SchemeJsManager E → Task E → SchemeJsManager E
  add_task m task = record m { tasks = m.tasks ++ (task ∷ []) }

  abbrev pub start_tasks : SchemeJsManager E → List (Task E × Phase)
  start_tasks m = map (λ task. (task, Phase.spawned)) m.tasks

  abbrev pub stop_tasks : SchemeJsManager E → SchemeJsManager E
  stop_tasks m = record m { running = false; cancelled = true }

  -- `run_task`, up to its next `await`; an error of the callback is only printed. A task that waits is
  -- polled when its tick has come.
  unfoldable pub run_task : Bool → E → Task E → TaskDuration → Phase → Polled E
  run_task running engine task duration Phase.finished = record {
    engine = engine;
    phase = Phase.finished;
    calls = 0;
  }
  run_task running engine task TaskDuration.once Phase.spawned = record {
    engine = (task.func engine).0;
    phase = Phase.finished;
    calls = 1;
  }
  run_task running engine task (TaskDuration.defined dur) Phase.spawned = record {
    engine = engine;
    phase = next_round running;
    calls = 0;
  }
  run_task running engine task duration Phase.ticking = record {
    engine = (task.func engine).0;
    phase = next_round running;
    calls = 1;
  }
