-- ===== src/Tasks/Tests.antt =====
-- The theorems on the task manager (src/osgGIS/TaskManager.cpp) at concrete pools.
use osggis.Base.{
  ◌+◌, ◌<◌, ◌≡◌, ◌≢◌, refl, true, false, Option, inl, inr, some, none, List, [], ◌∷◌, arith,
}
use osggis.Tasks.Thread.{
  Task, TaskThread, starts, wakes, finishes, ready, running, result_ready, blocked, in_task,
  starting, ThreadSteps, next, dispose, returned, signalling, awake, consume,
}
use osggis.Tasks.Manager.{
  Queues, TaskManager, init, queue_task, update, update_threads, update_thread, handle_completed,
  dispatch_pending, check_orphaned,
}
use osggis.Tasks.Moves.{thread_step, dispatches, at_thread, queues_task, Moves, move, call}
use osggis.Tasks.Account.{IsValid, busy_all, Slack}
use osggis.Tasks.Safety.{Moves-IsValid, update_total, AreTasks}
use osggis.Tasks.Conserve.{update_conserves, dispatch_loses, tally, same}
use osggis.Tasks.Null.{update_null}
use osggis.Tasks.Dispose.{dispose_in_task}
use osggis.Tasks.Serve.{process_tasks, single, process_tasks-single}

abbrev task_a : Task
task_a = record { id = 7; exception_state = false }

abbrev task_b : Task
task_b = record { id = 8; exception_state = false }

abbrev idle_thread : TaskThread
idle_thread = record { task = none; state = ready; run_block = 0; position = blocked }

abbrev given_thread : TaskThread
given_thread = record { task = some task_a; state = ready; run_block = 1; position = blocked }

abbrev busy_thread : TaskThread
busy_thread = record { task = some task_a; state = running; run_block = 0; position = in_task }

abbrev done_thread : TaskThread
done_thread = record { task = some task_a; state = result_ready; run_block = 0; position = blocked }

abbrev pool : List TaskThread → List (Option Task) → TaskManager
pool threads pending = record {
  multi_threaded = true;
  threads = threads;
  queues = record {
    pending_tasks = pending;
    completed_tasks = [];
    num_running_tasks = busy_all threads;
  };
}

-- A thread starts, a task is queued and dispatched to it.
abbrev dispatched : Moves (init 1) (pool (given_thread ∷ []) [])
unfolding init queue_task dispatch_pending
dispatched =
    move
      (call
        (move Moves.here (
          at_thread [] []
            (record { task = none; state = ready; run_block = 0; position = starting }) idle_thread
            (pool [] []).queues refl (thread_step (starts refl refl) refl) refl))
        (queues_task (some task_a) refl))
      (at_thread [] [] idle_thread given_thread (pool (given_thread ∷ []) []).queues refl
        (dispatches refl) refl)

Moves-IsValid_example : IsValid (pool (given_thread ∷ []) [])
Moves-IsValid_example = Moves-IsValid 1 dispatched

-- The pool after its only task has been lost.
abbrev starved : TaskManager
starved = record {
  multi_threaded = true;
  threads = idle_thread ∷ [];
  queues = record { pending_tasks = []; completed_tasks = []; num_running_tasks = 1 };
}

abbrev woken : TaskManager
woken = record starved { threads = record idle_thread { position = awake } ∷ [] }

starved-IsValid : IsValid starved
starved-IsValid = record { sound = (refl, tt); counted = omega arith }

wakes_up : Moves starved woken
unfolding consume
wakes_up = move Moves.here (
    at_thread [] [] idle_thread (record idle_thread { position = awake }) starved.queues refl
      (thread_step (wakes refl refl) refl) refl)

abbrev turning : TaskManager
turning = pool (done_thread ∷ busy_thread ∷ []) (some task_b ∷ [])

turning-IsValid : IsValid turning
turning-IsValid = record { sound = (refl, (refl, tt)); counted = omega arith }

update_total_example :
    (m' : TaskManager) × (update turning ≡ some m')
    × IsValid m'
    × AreTasks m'.pending_tasks
    × Slack turning m'
update_total_example = update_total turning turning-IsValid (refl, tt)

abbrev turned : TaskManager
turned = record {
  multi_threaded = true;
  threads =
      record { task = some task_b; state = ready; run_block = 1; position = blocked }
      ∷ busy_thread
      ∷ [];
  queues = record { pending_tasks = []; completed_tasks = task_a ∷ []; num_running_tasks = 2 };
}

turns : update turning ≡ some turned
unfolding update update_threads update_thread handle_completed dispatch_pending check_orphaned
turns = refl

update_conserves_example : tally 7 turned ≡ tally 7 turning
update_conserves_example = update_conserves 7 turning turned turns (refl, (refl, tt))

abbrev raced : TaskManager
raced = pool (busy_thread ∷ given_thread ∷ []) (some task_b ∷ [])

raced-IsValid : IsValid raced
raced-IsValid = record { sound = (refl, (refl, tt)); counted = omega arith }

dispatch_loses_example :
    (q' : Queues) × (t' : TaskThread) × (dispatch_pending raced.queues given_thread ≡ some (q', t'))
    × (let m' : TaskManager = record raced { threads = busy_thread ∷ t' ∷ []; queues = q' } in
        (tally 7 m' + same 7 task_a ≡ tally 7 raced) × (busy_all m'.threads < m'.num_running_tasks))
dispatch_loses_example =
    dispatch_loses raced (busy_thread ∷ []) [] given_thread task_a task_b [] 7 raced-IsValid refl
      refl refl refl

finish :
    ThreadSteps
      (dispose busy_thread)
      (record { task = some task_a; state = result_ready; run_block = 1; position = signalling })
unfolding dispose
finish = next ThreadSteps.here (finishes refl refl)

dispose_in_task_example : signalling ≢ returned
dispose_in_task_example =
    dispose_in_task busy_thread
      (record { task = some task_a; state = result_ready; run_block = 1; position = signalling })
      refl finish

process_tasks-single_example :
    process_tasks (λ m. m) 4 (single (some task_a ∷ none ∷ some task_b ∷ []))
    ≡ some (task_a ∷ task_b ∷ [], single [])
process_tasks-single_example = process_tasks-single (λ m. m) (some task_a ∷ none ∷ some task_b ∷ [])

-- A NULL task, and an idle thread behind a busy one.
abbrev null_queued : TaskManager
null_queued = pool (busy_thread ∷ idle_thread ∷ []) (none ∷ [])

null_run : update null_queued ≡ none
null_run = update_null null_queued [] idle_thread refl refl (inr (inl refl)) refl

-- In single-threaded mode a NULL task is only removed.
null_single_run :
    update (record null_queued { multi_threaded = false })
    ≡ some (record null_queued {
      multi_threaded = false;
      queues = record null_queued.queues { pending_tasks = [] };
    })
unfolding update
null_single_run = refl
