-- ===== src/Tasks/Account.antt =====
-- The invariant of the threads and the counter of the task manager (src/osgGIS/TaskManager.cpp), at
-- one thread.
use osggis.Base.{
  ℕ, ◌+◌, ◌≤◌, ◌≡◌, Bool, true, false, not, ◌&&◌, ◌||◌, if◌then◌else◌, Option, none, some, List, [],
  ◌∷◌, ◌++◌, arith, All,
}
use osggis.Tasks.Thread.{
  TaskThread, Position, ThreadStep, starts, wakes, passes, enters, runs, skips_state, skips_task,
  finishes, dies, loops, breaks, in_task, tested, entering, is_ready, is_result_ready,
  is_state_running,
}
use osggis.Tasks.Manager.{Queues, TaskManager, handle_completed, dispatch_pending, check_orphaned}
use osggis.Tasks.Moves.{ThreadMove, thread_step, completes, dispatches, reaps}

abbrev pub is_some {ℓ} : {A : Type ℓ} → Option A → Bool
is_some none = false
is_some (some a) = true

abbrev pub implies : Bool → Bool → Bool
implies a b = not a || b

abbrev pub is_in_task : Position → Bool
is_in_task p = elim p [ in_task ↦ true | _ ↦ false ]

abbrev pub is_tested : Position → Bool
is_tested p = elim p [ tested ↦ true | entering ↦ true | _ ↦ false ]

abbrev pub is_entering : Position → Bool
is_entering p = elim p [ entering ↦ true | _ ↦ false ]

-- A thread inside a task is RUNNING, and RUNNING and RESULT_READY threads hold a task. A thread that
-- has tested its state is READY, and holds a task if it has tested that too.
abbrev pub is_sound : TaskThread → Bool
is_sound t =
    implies (is_in_task t.position) (is_state_running t.state)
    && implies (is_state_running t.state || is_result_ready t.state) (is_some t.task)
    && implies (is_tested t.position) (is_ready t.state)
    && implies (is_entering t.position) (is_some t.task)

-- A state that the thread's own step or the manager leaves sound.
ThreadStep-is_sound : (t t' : TaskThread) → ThreadStep t t' → is_sound t ≡ true → is_sound t' ≡ true
ThreadStep-is_sound t t' (starts p e) h = ground arith
ThreadStep-is_sound t t' (wakes p e) h = ground arith
ThreadStep-is_sound t t' (passes p s e) h = ground arith
ThreadStep-is_sound t t' (enters k p o e) h = ground arith
ThreadStep-is_sound t t' (runs p e) h = ground arith
ThreadStep-is_sound t t' (skips_state p s e) h = ground arith
ThreadStep-is_sound t t' (skips_task p o e) h = ground arith
ThreadStep-is_sound t t' (finishes p e) h = ground arith
ThreadStep-is_sound t t' (dies p e) h = ground arith
ThreadStep-is_sound t t' (loops p s e) h = ground arith
ThreadStep-is_sound t t' (breaks p s e) h = ground arith

pub ThreadMove-is_sound :
    (q q' : Queues) (t t' : TaskThread)
    → ThreadMove q t q' t'
    → is_sound t ≡ true
    → is_sound t' ≡ true
unfolding handle_completed dispatch_pending check_orphaned
ThreadMove-is_sound q q' t t' (thread_step s e) h = ThreadStep-is_sound t t' s h
ThreadMove-is_sound q q' t t' (completes e) h = ground arith
ThreadMove-is_sound q q' t t' (dispatches e) h = ground arith
ThreadMove-is_sound q q' t t' (reaps e) h = ground arith

abbrev pub busy : TaskThread → ℕ
busy t = if is_some t.task then 1 else 0

abbrev pub busy_all : List TaskThread → ℕ
busy_all [] = 0
busy_all (t ∷ ts) = busy t + busy_all ts

pub busy_all-append : (xs ys : List TaskThread) → busy_all (xs ++ ys) ≡ busy_all xs + busy_all ys
busy_all-append [] ys = omega arith
busy_all-append (x ∷ xs) ys = omega (arith, busy_all-append xs ys)

ThreadStep-busy : (t t' : TaskThread) → ThreadStep t t' → busy t' ≤ busy t
ThreadStep-busy t t' (starts p e) = ground arith
ThreadStep-busy t t' (wakes p e) = ground arith
ThreadStep-busy t t' (passes p s e) = ground arith
ThreadStep-busy t t' (enters k p o e) = ground arith
ThreadStep-busy t t' (runs p e) = ground arith
ThreadStep-busy t t' (skips_state p s e) = ground arith
ThreadStep-busy t t' (skips_task p o e) = ground arith
ThreadStep-busy t t' (finishes p e) = ground arith
ThreadStep-busy t t' (dies p e) = ground arith
ThreadStep-busy t t' (loops p s e) = ground arith
ThreadStep-busy t t' (breaks p s e) = ground arith

-- The counter never gains on the busy threads from below.
pub ThreadMove-slack :
    (q q' : Queues) (t t' : TaskThread)
    → ThreadMove q t q' t'
    → is_sound t ≡ true
    → busy t ≤ q.num_running_tasks
    → q.num_running_tasks + busy t' ≤ q'.num_running_tasks + busy t
unfolding handle_completed dispatch_pending check_orphaned
ThreadMove-slack q q' t t' (thread_step s e) h b = ground (arith, ThreadStep-busy t t' s)
ThreadMove-slack q q' t t' (completes e) h b = ground arith
ThreadMove-slack q q' t t' (dispatches e) h b = ground arith
ThreadMove-slack q q' t t' (reaps e) h b = ground arith

pub record IsValid (m : TaskManager) : Type 0 where
  pub sound : All (λ t. is_sound t ≡ true) m.threads
  pub counted : busy_all m.threads ≤ m.num_running_tasks

-- What a move does to the counter and to the busy threads of the whole pool.
abbrev pub Slack : TaskManager → TaskManager → Type 0
Slack m m' = m.num_running_tasks + busy_all m'.threads ≤ m'.num_running_tasks + busy_all m.threads
