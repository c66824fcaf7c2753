-- ===== src/Tasks/Conserve.antt =====
-- Where the tasks of the task manager (src/osgGIS/TaskManager.cpp) are, counted by the identity of
-- the task object: in a queue or held by a thread.
use mathlib.Core.Path.{subst}
use osggis.Base.{
  ℕ, Option, ◌+◌, ◌≤◌, ◌<◌, ◌≡◌, refl, true, not, ◌==◌, if◌then◌else◌, none, some, List, [], ◌∷◌,
  ◌++◌, arith, All, Bool, Bool-cases, Option-cases, inl, inr,
}
use osggis.Tasks.Thread.{
  Task, TaskThread, ThreadStep, starts, wakes, passes, enters, runs, skips_state, skips_task,
  finishes, dies, loops, breaks, is_ready, ready, run_task,
}
use osggis.Tasks.Manager.{
  Queues, TaskManager, handle_completed, dispatch_pending, check_orphaned, update_single_threaded,
  update_thread, update_threads, update,
}
use osggis.Tasks.Account.{is_some, implies, busy_all, busy_all-append, IsValid}

abbrev pub same : ℕ → Task → ℕ
same a k = if k.id == a then 1 else 0

abbrev pub count : ℕ → List Task → ℕ
count a [] = 0
count a (k ∷ ks) = same a k + count a ks

pub count-append : (a : ℕ) (xs ys : List Task) → count a (xs ++ ys) ≡ count a xs + count a ys
count-append a [] ys = omega arith
count-append a (x ∷ xs) ys = omega (arith, count-append a xs ys)

abbrev pub count_pending : ℕ → List (Option Task) → ℕ
count_pending a [] = 0
count_pending a (none ∷ ps) = count_pending a ps
count_pending a (some k ∷ ps) = same a k + count_pending a ps

abbrev pub held : ℕ → TaskThread → ℕ
held a t = elim t.task [ none ↦ 0 | some k ↦ same a k ]

abbrev pub held_all : ℕ → List TaskThread → ℕ
held_all a [] = 0
held_all a (t ∷ ts) = held a t + held_all a ts

held_all-append :
    (a : ℕ) (xs ys : List TaskThread) → held_all a (xs ++ ys) ≡ held_all a xs + held_all a ys
held_all-append a [] ys = omega arith
held_all-append a (x ∷ xs) ys = omega (arith, held_all-append a xs ys)

abbrev pub queued : ℕ → Queues → ℕ
queued a q = count_pending a q.pending_tasks + count a q.completed_tasks

-- How often the manager has the task.
abbrev pub tally : ℕ → TaskManager → ℕ
tally a m = queued a m.queues + held_all a m.threads

-- A READY thread holds no task: the last one dispatched to it has begun.
abbrev pub is_calm : TaskThread → Bool
is_calm t = implies (is_ready t.state) (not (is_some t.task))

ThreadStep-held : (a : ℕ) (t t' : TaskThread) → ThreadStep t t' → held a t' ≤ held a t
ThreadStep-held a t t' (starts p e) = ground arith
ThreadStep-held a t t' (wakes p e) = ground arith
ThreadStep-held a t t' (passes p s e) = ground arith
ThreadStep-held a t t' (enters k p o e) = ground arith
ThreadStep-held a t t' (runs p e) = ground arith
ThreadStep-held a t t' (skips_state p s e) = ground arith
ThreadStep-held a t t' (skips_task p o e) = ground arith
ThreadStep-held a t t' (finishes p e) = ground arith
ThreadStep-held a t t' (dies p e) = ground arith
ThreadStep-held a t t' (loops p s e) = ground arith
ThreadStep-held a t t' (breaks p s e) = ground arith

module _ (a : ℕ) (q q' : Queues) (t t' : TaskThread) where
  handle_completed-held :
      handle_completed q t ≡ some (q', t')
      → (queued a q' + held a t' ≡ queued a q + held a t) × (is_calm t ≡ true → is_calm t' ≡ true)
  unfolding handle_completed
  handle_completed-held e = elim (Option-cases t.task) [
    | inl o ↦ ground arith
    | inr (k, o) ↦ ground (arith, count-append a q.completed_tasks (k ∷ []))
  ]

  check_orphaned-held :
      check_orphaned q t ≡ some (q', t') → queued a q' + held a t' ≡ queued a q + held a t
  unfolding check_orphaned
  check_orphaned-held e = elim (Option-cases t.task) [
    | inl o ↦ ground arith
    | inr (k, o) ↦
        ground (arith, count-append a q.completed_tasks (record k { exception_state = true } ∷ []))
  ]

  dispatch_pending-held :
      dispatch_pending q t ≡ some (q', t')
      → (queued a q' + held a t' ≤ queued a q + held a t)
        × (is_calm t ≡ true → queued a q' + held a t' ≡ queued a q + held a t)
  unfolding dispatch_pending
  dispatch_pending-held e = ground arith

update_thread-held :
    (a : ℕ) (q q' : Queues) (t t' : TaskThread)
    → update_thread q t ≡ some (q', t')
    → (queued a q' + held a t' ≤ queued a q + held a t)
      × (is_calm t ≡ true → queued a q' + held a t' ≡ queued a q + held a t)
unfolding update_thread
update_thread-held a q q' t t' e = elim (Option-cases (handle_completed q t)) [
  | inl o ↦ ground arith
  | inr ((q1, t1), o) ↦ elim (Option-cases (dispatch_pending q1 t1)) [
    | inl o' ↦ ground arith
    | inr ((q2, t2), o') ↦
        let e' : check_orphaned q2 t2 ≡ some (q', t') = ground arith in
        let (h1, c1) = handle_completed-held a q q1 t t1 o in
        let (h2, c2) = dispatch_pending-held a q1 q2 t1 t2 o' in
        let h3 = check_orphaned-held a q2 q' t2 t' e' in
        (omega arith, λ c. let h2' = c2 (c1 c) in omega arith)
  ]
]

update_threads-held :
    (a : ℕ) (q : Queues) (ts : List TaskThread) (q' : Queues) (ts' : List TaskThread)
    → update_threads q ts ≡ some (q', ts')
    → (queued a q' + held_all a ts' ≤ queued a q + held_all a ts)
      × (All (λ t. is_calm t ≡ true) ts → queued a q' + held_all a ts' ≡ queued a q + held_all a ts)
unfolding update_threads
update_threads-held a q [] q' ts' e = ground arith
update_threads-held a q (t ∷ ts) q' ts' e = elim (Option-cases (update_thread q t)) [
  | inl o ↦ ground arith
  | inr ((q1, t1), o) ↦ elim (Option-cases (update_threads q1 ts)) [
    | inl o' ↦ ground arith
    | inr ((q2, ts2), o') ↦
        let (h1, c1) = update_thread-held a q q1 t t1 o in
        let (h2, c2) = update_threads-held a q1 ts q2 ts2 o' in
        let eq : (q' ≡ q2) × (ts' ≡ t1 ∷ ts2) = ground arith in
        (ground arith, λ c. ground (arith, c1 c.0, c2 c.1))
  ]
]

update_single_held : (a : ℕ) (q : Queues) → queued a (update_single_threaded q) ≡ queued a q
unfolding update_single_threaded
update_single_held a q = go q.pending_tasks refl
  where
    go :
        (ks : List (Option Task))
        → q.pending_tasks ≡ ks
        → queued a (update_single_threaded q) ≡ queued a q
    go [] e = ground arith
    go (none ∷ ks) e = ground arith
    go (some k ∷ ks) e = ground (arith, count-append a q.completed_tasks (k ∷ []))

update_held :
    (a : ℕ) (m m' : TaskManager)
    → update m ≡ some m'
    → (tally a m' ≤ tally a m) × (All (λ t. is_calm t ≡ true) m.threads → tally a m' ≡ tally a m)
unfolding update
update_held a m m' e = elim (Bool-cases m.multi_threaded) [
  | inl b ↦ elim (Option-cases (update_threads m.queues m.threads)) [
    | inl o ↦ ground arith
    | inr ((q', ts'), o) ↦
        let (h, c) = update_threads-held a m.queues m.threads q' ts' o in
        (ground arith, λ k. ground (arith, c k))
  ]
  | inr b ↦ ground (arith, update_single_held a m.queues)
]

-- `update` never duplicates a task: each is at most as often in the pending queue, with a thread or
-- in the completed queue as before.
pub update-tally : (a : ℕ) (m m' : TaskManager) → update m ≡ some m' → tally a m' ≤ tally a m
update-tally a m m' e = (update_held a m m' e).0

-- Where no thread is READY with a task that it has not begun, `update` loses no task: each is then
-- exactly as often in the pending queue, with a thread or in the completed queue as before. That
-- holds in both modes, and for tasks that killed their thread.
pub update_conserves :
    (a : ℕ) (m m' : TaskManager)
    → update m ≡ some m'
    → All (λ t. is_calm t ≡ true) m.threads
    → tally a m' ≡ tally a m
update_conserves a m m' e c = (update_held a m m' e).1 c

-- The race: a thread that has been given a task `k` stays READY until it wakes up. Within the
-- invariant, a dispatch to such a thread with another task pending drops `k`: the queues and the
-- threads together have it once less, and more tasks count as running than threads hold one.
pub dispatch_loses :
    (m : TaskManager) (before after : List TaskThread) (t : TaskThread) (k j : Task)
    (rest : List (Option Task)) (a : ℕ)
    → IsValid m
    → m.threads ≡ before ++ t ∷ after
    → t.state ≡ ready
    → t.task ≡ some k
    → m.pending_tasks ≡ some j ∷ rest
    → (q' : Queues) × (t' : TaskThread) × (dispatch_pending m.queues t ≡ some (q', t'))
      × (let m' : TaskManager = record m { threads = before ++ t' ∷ after; queues = q' } in
          (tally a m' + same a k ≡ tally a m) × (busy_all m'.threads < m'.num_running_tasks))
unfolding dispatch_pending run_task
dispatch_loses m before after t k j rest a v e s o p =
    let q' : Queues = record m.queues {
      pending_tasks = rest;
      num_running_tasks = m.num_running_tasks + 1;
    } in
    let t' = run_task t j in
    let counted : busy_all (before ++ t ∷ after) ≤ m.num_running_tasks =
      subst (λ ts. busy_all ts ≤ m.num_running_tasks) e v.counted in
    let here = held_all-append a before (t ∷ after) in
    let there = held_all-append a before (t' ∷ after) in
    let busy = busy_all-append before (t ∷ after) in
    let busy' = busy_all-append before (t' ∷ after) in
    (q', t', ground arith, (ground arith, ground arith))
