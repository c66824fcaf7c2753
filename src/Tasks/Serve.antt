-- ===== src/Tasks/Serve.antt =====
-- The order in which the task manager (src/osgGIS/TaskManager.cpp) serves its tasks, and the loop of
-- its clients (src/osgGIS/GriddedLayerCompiler.cpp).
use osggis.Base.{
  ℕ, zero, suc, ◌≡◌, refl, Bool, true, false, not, ◌&&◌, Option, none, some, List, [], ◌∷◌, length,
  arith, All, ◌⊎◌, inl, inr, ◌>>=◌, Option-cases,
}
use osggis.Tasks.Thread.{Task, TaskThread, Position, starting, is_ready}
use osggis.Tasks.Manager.{
  Queues, TaskManager, update_single_threaded, update_thread, update_threads, update, wait,
  get_next_completed_task, has_more_tasks,
}
use osggis.Tasks.Account.{is_some}

-- while( wait() ) { completed_task = getNextCompletedTask(); ... } with fuel: the completed tasks in
-- the order in which the loop gets them. `none` is a fault, or the end of the fuel.
unfoldable pub process_tasks :
    (TaskManager → TaskManager) → ℕ → TaskManager → Option (List Task × TaskManager)
process_tasks pause zero m = none
process_tasks pause (suc fuel) m = wait pause m >>= λ r. elim r.0 [
  | false ↦ some ([], r.1)
  | true ↦
      let taken = get_next_completed_task r.1.queues in
      process_tasks pause fuel (record r.1 { queues = taken.1 }) >>= λ s.
      some ((elim taken.0 [ none ↦ s.0 | some k ↦ k ∷ s.0 ]), s.1)
]

-- The tasks that are not NULL.
abbrev pub valid_tasks : List (Option Task) → List Task
valid_tasks [] = []
valid_tasks (none ∷ ps) = valid_tasks ps
valid_tasks (some k ∷ ps) = k ∷ valid_tasks ps

abbrev pub single : List (Option Task) → TaskManager
single ks = record {
  multi_threaded = false;
  threads = [];
  queues = record { pending_tasks = ks; completed_tasks = []; num_running_tasks = 0 };
}

has_more_tasks-single :
    (k : Option Task) (ks : List (Option Task)) → has_more_tasks (single (k ∷ ks)).queues ≡ true
unfolding has_more_tasks
has_more_tasks-single k ks = ground arith

-- In single-threaded mode one round of the client's loop for each queued task, and one more to see
-- that there are none left, serve all that are not NULL, in the order in which they
-- were queued.
pub process_tasks-single :
    (pause : TaskManager → TaskManager) (ks : List (Option Task))
    → process_tasks pause (suc (length ks)) (single ks) ≡ some (valid_tasks ks, single [])
unfolding process_tasks wait update update_single_threaded get_next_completed_task
process_tasks-single pause [] = refl
process_tasks-single pause (none ∷ []) = refl
process_tasks-single pause (none ∷ k ∷ ks) =
    rw (process_tasks, has_more_tasks-single k ks, process_tasks-single pause (k ∷ ks)) refl
process_tasks-single pause (some k ∷ ks) = rw (process_tasks-single pause ks) refl

-- A thread that `update` can give a task: READY, without a task, and not just restarted.
abbrev pub is_starting : Position → Bool
is_starting p = elim p [ starting ↦ true | _ ↦ false ]

abbrev pub is_idle : TaskThread → Bool
is_idle t = is_ready t.state && not (is_some t.task) && not (is_starting t.position)

update_thread_fills :
    (q q' : Queues) (t t' : TaskThread)
    → update_thread q t ≡ some (q', t')
    → ((q'.pending_tasks ≡ []) ⊎ (is_idle t' ≡ false))
      × (q.pending_tasks ≡ [] → q'.pending_tasks ≡ [])
unfolding update_thread
update_thread_fills q q' t t' e = ground arith

update_threads_fills :
    (q : Queues) (ts : List TaskThread) (q' : Queues) (ts' : List TaskThread)
    → update_threads q ts ≡ some (q', ts')
    → ((q'.pending_tasks ≡ []) ⊎ All (λ t. is_idle t ≡ false) ts')
      × (q.pending_tasks ≡ [] → q'.pending_tasks ≡ [])
unfolding update_threads
update_threads_fills q [] q' ts' e = ground arith
update_threads_fills q (t ∷ ts) q' ts' e = elim (Option-cases (update_thread q t)) [
  | inl o ↦ ground arith
  | inr ((q1, t1), o) ↦ elim (Option-cases (update_threads q1 ts)) [
    | inl o' ↦ ground arith
    | inr ((q2, ts2), o') ↦
        let (f1, d1) = update_thread_fills q q1 t t1 o in
        let (f2, d2) = update_threads_fills q1 ts q2 ts2 o' in ground arith
  ]
]

-- After `update` with threads, no task is left pending while a thread is idle: READY, without a
-- task, and not just restarted after a task has killed it.
pub update_fills :
    (m m' : TaskManager)
    → m.multi_threaded ≡ true
    → update m ≡ some m'
    → (m'.pending_tasks ≡ []) ⊎ All (λ t. is_idle t ≡ false) m'.threads
unfolding update
update_fills m m' b e = elim (Option-cases (update_threads m.queues m.threads)) [
  | inl o ↦ ground arith
  | inr ((q', ts'), o) ↦
      let filled = update_threads_fills m.queues m.threads q' ts' o in ground arith
]
