-- ===== src/Runs/Tasks.antt =====
-- A task that waits for its tick when the tasks are stopped.
use schema_js.Prelude.{ℕ, ◌+◌, ◌≤◌, refl, [], ◌∷◌, true, false}
use schema_js.Tasks.{Task, TaskDuration, Phase, new_task, run_task, new_tasks_manager, stop_tasks}
use schema_js.Tasks.Stop.{State, after_poll, open_tasks, poll, done, more, calls-stopped}

abbrev counter : Task ℕ
counter = new_task (99 ∷ []) (λ n. (n + 1, true)) (TaskDuration.defined 250)

-- Three calls were made.
abbrev stopped : State ℕ
stopped = record {
  manager = stop_tasks (new_tasks_manager 3);
  running_tasks = (counter, Phase.ticking) ∷ (counter, Phase.finished) ∷ [];
  calls = 3;
}

abbrev polled : State ℕ
polled =
    after_poll stopped 0 counter (run_task false 3 counter (TaskDuration.defined 250) Phase.ticking)

calls-stopped_example : polled.calls + open_tasks polled.running_tasks ≤ 4
calls-stopped_example =
    calls-stopped stopped polled refl
      (more stopped polled polled (poll stopped 0 counter Phase.ticking refl) (done polled))
