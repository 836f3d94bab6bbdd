-- ===== src/Tasks/Stop.antt =====
-- Stopping the tasks.
use schema_js.Prelude.{
  ℕ, zero, suc, ◌+◌, ◌≤◌, ◌≡◌, refl, ap, List, [], ◌∷◌, true, false, ◌||◌, some, get_elem?, arith,
}
use schema_js.TempShard.Ops.{set_at}
use schema_js.Tasks.{Task, TaskDuration, SchemeJsManager, Phase, Polled, run_task, stop_tasks}

-- The manager, the spawned tasks, and how many callbacks were called.
pub record State (E : Type 0) : Type 0 where
  pub manager : SchemeJsManager E
  pub running_tasks : List (Task E × Phase)
  pub calls : ℕ

abbrev pub open_one : Phase → ℕ
open_one Phase.finished = 0
open_one _ = 1

module _ {E : Type 0} where
  abbrev pub after_poll : State E → ℕ → Task E → Polled E → State E
  after_poll s i task p = record {
    manager = record s.manager { runtime = p.engine };
    running_tasks = set_at s.running_tasks i (task, p.phase);
    calls = s.calls + p.calls;
  }

  -- The steps of the system: a task is polled, a task sees that it or all are cancelled, or the tasks
  -- are stopped.
  pub data Step : State E → State E → Type 0 where
    poll :
        (s : State E) (i : ℕ) (task : Task E) (phase : Phase)
        → get_elem? s.running_tasks i ≡ some (task, phase)
        → Step s (
            after_poll s i task
              (run_task s.manager.running s.manager.runtime task task.duration phase))
    cancel :
        (s : State E) (i : ℕ) (task : Task E) (phase : Phase)
        → get_elem? s.running_tasks i ≡ some (task, phase)
        → (s.manager.cancelled || task.token_cancelled) ≡ true
        → Step s (record s { running_tasks = set_at s.running_tasks i (task, Phase.finished) })
    stop : (s : State E) → Step s (record s { manager = stop_tasks s.manager })

  pub data Steps : State E → State E → Type 0 where
    done : (s : State E) → Steps s s
    more : (s s' s'' : State E) → Step s s' → Steps s' s'' → Steps s s''

  -- The tasks that are not at their end.
  abbrev pub open_tasks : List (Task E × Phase) → ℕ
  open_tasks [] = 0
  open_tasks ((task, phase) ∷ rest) = open_one phase + open_tasks rest

  open_tasks-set_at :
      (tasks : List (Task E × Phase)) (i : ℕ) (task : Task E) (phase phase' : Phase)
      → get_elem? tasks i ≡ some (task, phase)
      → open_tasks (set_at tasks i (task, phase')) + open_one phase
        ≡ open_tasks tasks + open_one phase'
  open_tasks-set_at [] i task phase phase' h = absurd (cc)
  open_tasks-set_at ((t, p) ∷ tasks) zero task phase phase' h =
      let same : p ≡ phase = cc in omega (arith, ap open_one same)
  open_tasks-set_at ((t, p) ∷ tasks) (suc i) task phase phase' h =
      omega (arith, open_tasks-set_at tasks i task phase phase' h)

  -- A poll after the stop ends the task, and calls the callback once at most.
  run_task-stopped :
      (engine : E) (task : Task E) (duration : TaskDuration) (phase : Phase)
      → open_one (run_task false engine task duration phase).phase
          + (run_task false engine task duration phase).calls
        ≤ open_one phase
  unfolding run_task
  run_task-stopped engine task duration Phase.finished = omega arith
  run_task-stopped engine task TaskDuration.once Phase.spawned = omega arith
  run_task-stopped engine task (TaskDuration.defined dur) Phase.spawned = omega arith
  run_task-stopped engine task TaskDuration.once Phase.ticking = omega arith
  run_task-stopped engine task (TaskDuration.defined dur) Phase.ticking = omega arith

  abbrev Bounded : State E → State E → Type 0
  Bounded s s' =
      (s'.manager.running ≡ false)
      × (s'.calls + open_tasks s'.running_tasks ≤ s.calls + open_tasks s.running_tasks)

  Step-Bounded : (s s' : State E) → s.manager.running ≡ false → Step s s' → Bounded s s'
  Step-Bounded s _ stopped (poll _ i task phase there) =
      let p = run_task s.manager.running s.manager.runtime task task.duration phase in
      let less : open_one p.phase + p.calls ≤ open_one phase =
        rw stopped (run_task-stopped s.manager.runtime task task.duration phase) in
      (stopped, omega (arith, less, open_tasks-set_at s.running_tasks i task phase p.phase there))
  Step-Bounded s _ stopped (cancel _ i task phase there told) =
      (stopped, omega (arith, open_tasks-set_at s.running_tasks i task phase Phase.finished there))
  Step-Bounded s _ stopped (stop _) = (refl, omega arith)

  -- After the tasks are stopped, whatever is polled or cancelled in whatever order, at most as many
  -- callbacks are still called as tasks were not at their end: one for each.
  pub calls-stopped :
      (s s' : State E)
      → s.manager.running ≡ false
      → Steps s s'
      → s'.calls + open_tasks s'.running_tasks ≤ s.calls + open_tasks s.running_tasks
  calls-stopped s _ stopped (done _) = omega arith
  calls-stopped s s' stopped (more _ between _ first rest) =
      let (still, bound) = Step-Bounded s between stopped first in
      omega (arith, bound, calls-stopped between s' still rest)
