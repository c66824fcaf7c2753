-- ===== src/Tasks/Manager.antt =====
-- TaskManager (src/osgGIS/TaskManager, src/osgGIS/TaskManager.cpp): its queues, the dispatch loop
-- `update` and the calls of its owner. A pending task is a pointer that may be NULL. The result `none`
-- is a dereference of a null task.
-- `activity_block` only decides how long `wait` pauses. The pause is a parameter of `wait`: it maps
-- the manager before it to the manager that the threads have made of it after it.
use osggis.Base.{
  is_nonempty, ℕ, ◌+◌, ◌-◌, Bool, true, false, not, ◌&&◌, ltb, if◌then◌else◌, Option, none, some,
  List, [], ◌∷◌, ◌++◌, length, ◌>>=◌, suc, zero,
}
use osggis.Tasks.Thread.{
  Task, TaskThread, set_exception, new_thread, run_task, remove_task, start_thread, is_running,
  is_ready, is_result_ready, is_state_running, dispose,
}

pub record Queues : Type 0 where
  pub pending_tasks : List (Option Task)
  pub completed_tasks : List Task
  pub num_running_tasks : ℕ

pub record TaskManager : Type 0 where
  pub multi_threaded : Bool
  pub threads : List TaskThread
  pub queues : Queues
  pub open queues use *

abbrev new_threads : ℕ → List TaskThread
unfolding new_thread
new_threads zero = []
new_threads (suc n) = new_thread ∷ new_threads n

-- A negative count has been raised to 0 by the constructor.
unfoldable pub init : ℕ → TaskManager
unfolding new_thread
init num_threads = record {
  multi_threaded = ltb 0 num_threads;
  threads = new_threads num_threads;
  queues = record { pending_tasks = []; completed_tasks = []; num_running_tasks = 0 };
}

unfoldable pub queue_task : Queues → Option Task → Queues
queue_task q k = record q { pending_tasks = q.pending_tasks ++ (k ∷ []) }

unfoldable pub cancel_pending_tasks : Queues → Queues
cancel_pending_tasks q = record q { pending_tasks = [] }

unfoldable pub get_num_tasks : Queues → ℕ
get_num_tasks q = length q.pending_tasks + q.num_running_tasks + length q.completed_tasks

unfoldable pub has_more_tasks : Queues → Bool
unfolding get_num_tasks
has_more_tasks q = ltb 0 (get_num_tasks q)

unfoldable pub get_next_completed_task : Queues → Option Task × Queues
get_next_completed_task q = elim q.completed_tasks [
  | [] ↦ (none, q)
  | k ∷ rest ↦ (some k, record q { completed_tasks = rest })
]

-- The three parts of the loop body of `update`, for one thread.
unfoldable pub handle_completed : Queues → TaskThread → Option (Queues × TaskThread)
unfolding remove_task
handle_completed q t =
    if is_result_ready t.state
    then (let (removed, t') = remove_task t in
        elim removed [
          | none ↦ none
          | some k ↦ some (
            record q {
              completed_tasks = q.completed_tasks ++ (k ∷ []);
              num_running_tasks = q.num_running_tasks - 1;
            },
            t',
          )
        ])
    else some (q, t)

-- The name of the task is logged after `runTask`, through a pointer that is NULL for a NULL task.
unfoldable pub dispatch_pending : Queues → TaskThread → Option (Queues × TaskThread)
unfolding run_task
dispatch_pending q t =
    if is_ready t.state
    then (elim q.pending_tasks [
      | [] ↦ some (q, t)
      | p ∷ rest ↦ elim p [
        | none ↦ none
        | some k ↦ some (
          record q { pending_tasks = rest; num_running_tasks = q.num_running_tasks + 1 },
          run_task t k,
        )
      ]
    ])
    else some (q, t)

unfoldable pub check_orphaned : Queues → TaskThread → Option (Queues × TaskThread)
unfolding remove_task set_exception start_thread
check_orphaned q t =
    if is_state_running t.state && not (is_running t)
    then (let (removed, t') = remove_task t in
        elim removed [
          | none ↦ none
          | some k ↦ some (
            record q {
              completed_tasks = q.completed_tasks ++ (set_exception k ∷ []);
              num_running_tasks = q.num_running_tasks - 1;
            },
            start_thread t',
          )
        ])
    else some (q, t)

unfoldable pub update_thread : Queues → TaskThread → Option (Queues × TaskThread)
unfolding handle_completed dispatch_pending check_orphaned
update_thread q t =
    handle_completed q t >>= λ a. dispatch_pending a.0 a.1 >>= λ b. check_orphaned b.0 b.1

unfoldable pub update_threads : Queues → List TaskThread → Option (Queues × List TaskThread)
unfolding update_thread
update_threads q [] = some (q, [])
update_threads q (t ∷ ts) =
    update_thread q t >>= λ a. update_threads a.0 ts >>= λ b. some (b.0, a.1 ∷ b.1)

-- What `task->run()` does to the task's own data is the task's business.
unfoldable pub update_single_threaded : Queues → Queues
update_single_threaded q = elim q.pending_tasks [
  | [] ↦ q
  | p ∷ rest ↦ elim p [
    | none ↦ record q { pending_tasks = rest }
    | some k ↦ record q { pending_tasks = rest; completed_tasks = q.completed_tasks ++ (k ∷ []) }
  ]
]

unfoldable pub update : TaskManager → Option TaskManager
unfolding update_threads update_single_threaded
update m =
    if m.multi_threaded
    then (update_threads m.queues m.threads >>= λ a.
        some (record m { queues = a.0; threads = a.1 }))
    else some (record m { queues = update_single_threaded m.queues })

unfoldable pub wait : (TaskManager → TaskManager) → TaskManager → Option (Bool × TaskManager)
unfolding update has_more_tasks
wait pause m = update m >>= λ m1.
    if is_nonempty m1.completed_tasks
    then some (true, m1)
    else if not (has_more_tasks m1.queues)
    then some (false, m1)
    else if m1.multi_threaded
    then (update (pause m1) >>= λ m2. some (true, m2))
    else some (true, m1)

-- The first half of the destructor, for each thread in turn: `dispose`, before `join`.
unfoldable pub destroy_thread : TaskThread → TaskThread
unfolding dispose
destroy_thread t = dispose t
