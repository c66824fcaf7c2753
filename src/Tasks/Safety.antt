-- ===== src/Tasks/Safety.antt =====
-- The invariant of the task manager (src/osgGIS/TaskManager.cpp) along the interleavings of its
-- owner's calls, the parts of `update` and the threads.
use mathlib.Core.Path.{subst}
use osggis.Base.{
  ℕ, zero, suc, ◌+◌, ◌≤◌, ◌<◌, ◌≡◌, refl, sym, true, Option, some, List, [], ◌∷◌, ◌++◌, arith, All,
  none, ◌≢◌, Option-cases, ◌>>=◌, All-replace, All-right, Bool-cases, inl, inr,
}
use osggis.Tasks.Thread.{Task, TaskThread}
use osggis.Tasks.Manager.{
  Queues, TaskManager, init, queue_task, cancel_pending_tasks, get_next_completed_task,
  handle_completed, dispatch_pending, check_orphaned, update_single_threaded, update_thread,
  update_threads, update, has_more_tasks,
}
use osggis.Tasks.Moves.{
  ThreadMove, completes, dispatches, reaps, Move, at_thread, single_threaded, Call, queues_task,
  cancels, takes, Moves, here, move, call,
}
use osggis.Tasks.Account.{
  is_some, is_sound, ThreadMove-is_sound, busy, busy_all, busy_all-append, ThreadMove-slack,
  IsValid, Slack,
}

busy_all_split :
    (xs ys : List TaskThread) (t : TaskThread)
    → busy_all (xs ++ t ∷ ys) ≡ busy_all xs + busy t + busy_all ys
busy_all_split xs ys t = omega (arith, busy_all-append xs (t ∷ ys))

Move-Slack : (m m' : TaskManager) → Move m m' → IsValid m → Slack m m'
unfolding update_single_threaded
Move-Slack m m' (at_thread before after t t' q' e mv e') v =
    let sound = All-right _ before (t ∷ after) (subst (All λ t. is_sound t ≡ true) e v.sound) in
    let counted : busy_all (before ++ t ∷ after) ≤ m.num_running_tasks =
      subst (λ ts. busy_all ts ≤ m.num_running_tasks) e v.counted in
    let split = busy_all_split before after t in
    let split' = busy_all_split before after t' in
    let slack = ThreadMove-slack m.queues q' t t' mv sound.0 (omega arith) in ground arith
Move-Slack m m' (single_threaded s e) v = ground arith

Move-IsValid : (m m' : TaskManager) → Move m m' → IsValid m → IsValid m'
unfolding update_single_threaded
Move-IsValid m m' (at_thread before after t t' q' e mv e') v =
    let sound = subst (All λ t. is_sound t ≡ true) e v.sound in
    let here = (All-right _ before (t ∷ after) sound).0 in
    let kept : All (λ t. is_sound t ≡ true) (before ++ t' ∷ after) =
      All-replace _ before after t t' sound (ThreadMove-is_sound m.queues q' t t' mv here) in
    let slack = Move-Slack m m' (at_thread before after t t' q' e mv e') v in
    subst IsValid (sym e') (record { sound = kept; counted = ground arith })
Move-IsValid m m' (single_threaded s e) v = ground arith

Call-keeps : (m m' : TaskManager) → Call m m' → IsValid m → IsValid m' × Slack m m'
unfolding queue_task cancel_pending_tasks get_next_completed_task
Call-keeps m m' (queues_task k e) v = ground arith
Call-keeps m m' (cancels e) v = ground arith
Call-keeps m m' (takes e) v = ground arith

Moves-keep : {m m' : TaskManager} → Moves m m' → IsValid m → IsValid m' × Slack m m'
Moves-keep {m} here v = (v, omega arith)
Moves-keep {m} {m'} (move {u = u} ms mv) v =
    let (w, s) = Moves-keep ms v in
    let s' = Move-Slack u m' mv w in (Move-IsValid u m' mv w, omega arith)
Moves-keep {m} {m'} (call {u = u} ms c) v =
    let (w, s) = Moves-keep ms v in let (w', s') = Call-keeps u m' c w in (w', omega arith)

new_threads_lem :
    (n : ℕ) → All (λ t. is_sound t ≡ true) (init n).threads × (busy_all (init n).threads ≡ 0)
unfolding init
new_threads_lem zero = (tt, refl)
new_threads_lem (suc n) = ((refl, (new_threads_lem n).0), omega (arith, (new_threads_lem n).1))

-- From its construction on, whatever calls its owner makes and however the parts of `update` and
-- the threads interleave: a thread inside a task is RUNNING, a RUNNING or RESULT_READY thread holds
-- a task, a thread that has passed the test of its state in `run` is still READY, one that has passed
-- the test of its task too still holds a task, and at most `num_running_tasks` threads hold one.
pub Moves-IsValid : (n : ℕ) {m : TaskManager} → Moves (init n) m → IsValid m
unfolding init
Moves-IsValid n ms =
    let (sound, counted) = new_threads_lem n in
    (Moves-keep ms (record { sound = sound; counted = omega arith })).0

-- Within the invariant, once more tasks count as running than threads hold one, `hasMoreTasks`
-- answers true after any moves of the threads and of `update` and any calls of the owner.
pub has_more_tasks_forever :
    (m m' : TaskManager)
    → IsValid m
    → busy_all m.threads < m.num_running_tasks
    → Moves m m'
    → has_more_tasks m'.queues ≡ true
unfolding has_more_tasks
has_more_tasks_forever m m' v h ms = let slack = (Moves-keep ms v).1 in ground arith

module _ (q : Queues) (t : TaskThread) (sound : is_sound t ≡ true) where
  handle_completed_total : handle_completed q t ≢ none
  unfolding handle_completed
  handle_completed_total e = ground arith

  check_orphaned_total : check_orphaned q t ≢ none
  unfolding check_orphaned
  check_orphaned_total e = ground arith

-- No NULL task is pending.
abbrev pub AreTasks : List (Option Task) → Type 0
AreTasks ps = All (λ p. is_some p ≡ true) ps

module _ (q : Queues) (t : TaskThread) where
  -- With tasks pending that are not NULL a dispatch returns, and leaves such tasks.
  dispatch_pending_total : AreTasks q.pending_tasks → dispatch_pending q t ≢ none
  unfolding dispatch_pending
  dispatch_pending_total h e = ground arith

  dispatch_pending-AreTasks :
      (q' : Queues) (t' : TaskThread)
      → dispatch_pending q t ≡ some (q', t')
      → AreTasks q.pending_tasks
      → AreTasks q'.pending_tasks
  unfolding dispatch_pending
  dispatch_pending-AreTasks q' t' e h = ground arith

  handle_completed-pending :
      (q' : Queues) (t' : TaskThread)
      → handle_completed q t ≡ some (q', t')
      → q'.pending_tasks ≡ q.pending_tasks
  unfolding handle_completed
  handle_completed-pending q' t' e = ground arith

  check_orphaned-pending :
      (q' : Queues) (t' : TaskThread)
      → check_orphaned q t ≡ some (q', t')
      → q'.pending_tasks ≡ q.pending_tasks
  unfolding check_orphaned
  check_orphaned-pending q' t' e = ground arith

-- A result of `update` at one thread, or at some of them.
abbrev Updated : Queues → List TaskThread → Option (Queues × List TaskThread) → Type 0
Updated q ts r =
    (q' : Queues) × (ts' : List TaskThread) × (r ≡ some (q', ts'))
    × All (λ t. is_sound t ≡ true) ts'
    × (q.num_running_tasks + busy_all ts' ≤ q'.num_running_tasks + busy_all ts)
    × AreTasks q'.pending_tasks

update_thread_total :
    (q : Queues) (t : TaskThread)
    → is_sound t ≡ true
    → busy t ≤ q.num_running_tasks
    → AreTasks q.pending_tasks
    → (q' : Queues) × (t' : TaskThread) × (update_thread q t ≡ some (q', t'))
      × (is_sound t' ≡ true)
      × (q.num_running_tasks + busy t' ≤ q'.num_running_tasks + busy t)
      × AreTasks q'.pending_tasks
unfolding update_thread
update_thread_total q t h b ps = elim (Option-cases (handle_completed q t)) [
  | inl e ↦ absurd (handle_completed_total q t h e)
  | inr ((q1, t1), e) ↦
      let mv1 : ThreadMove q t q1 t1 = completes e in
      let h1 = ThreadMove-is_sound q q1 t t1 mv1 h in
      let s1 = ThreadMove-slack q q1 t t1 mv1 h b in
      let ps1 : AreTasks q1.pending_tasks =
        subst AreTasks (sym (handle_completed-pending q t q1 t1 e)) ps in
      elim (Option-cases (dispatch_pending q1 t1)) [
        | inl e' ↦ absurd (dispatch_pending_total q1 t1 ps1 e')
        | inr ((q2, t2), e') ↦
            let mv2 : ThreadMove q1 t1 q2 t2 = dispatches e' in
            let h2 = ThreadMove-is_sound q1 q2 t1 t2 mv2 h1 in
            let s2 = ThreadMove-slack q1 q2 t1 t2 mv2 h1 (omega arith) in
            let ps2 = dispatch_pending-AreTasks q1 t1 q2 t2 e' ps1 in
            elim (Option-cases (check_orphaned q2 t2)) [
              | inl o ↦ absurd (check_orphaned_total q2 t2 h2 o)
              | inr ((q3, t3), o) ↦
                  let mv3 : ThreadMove q2 t2 q3 t3 = reaps o in
                  let h3 = ThreadMove-is_sound q2 q3 t2 t3 mv3 h2 in
                  let s3 = ThreadMove-slack q2 q3 t2 t3 mv3 h2 (omega arith) in
                  let ps3 = subst AreTasks (sym (check_orphaned-pending q2 t2 q3 t3 o)) ps2 in
                  (q3, t3, rw (e, ◌>>=◌, e', o) refl, h3, omega arith, ps3)
            ]
      ]
]

update_threads_total :
    (q : Queues) (ts : List TaskThread)
    → All (λ t. is_sound t ≡ true) ts
    → busy_all ts ≤ q.num_running_tasks
    → AreTasks q.pending_tasks
    → Updated q ts (update_threads q ts)
unfolding update_threads
update_threads_total q [] h b ps = (q, [], refl, tt, omega arith, ps)
update_threads_total q (t ∷ ts) h b ps =
    let (q1, t1, e1, h1, s1, ps1) = update_thread_total q t h.0 (omega arith) ps in
    let (q2, ts2, e2, h2, s2, ps2) = update_threads_total q1 ts h.1 (omega arith) ps1 in
    (q2, t1 ∷ ts2, rw (e1, e2) refl, (h1, h2), omega arith, ps2)

-- Within the invariant, and with no NULL task pending, `update` meets no null task: it returns,
-- and keeps both. Beside them it keeps the lead of `num_running_tasks` over the threads that hold a
-- task.
pub update_total :
    (m : TaskManager)
    → IsValid m
    → AreTasks m.pending_tasks
    → (m' : TaskManager) × (update m ≡ some m')
      × IsValid m'
      × AreTasks m'.pending_tasks
      × Slack m m'
unfolding update update_single_threaded
update_total m v ps = elim (Bool-cases m.multi_threaded) [
  | inl e ↦
      let (q', ts', eq, sound, slack, ps') =
        update_threads_total m.queues m.threads v.sound v.counted ps in
      (
        record m { queues = q'; threads = ts' },
        rw (e, eq) refl,
        record { sound = sound; counted = omega arith },
        ps',
        omega arith,
      )
  | inr e ↦ (
    record m { queues = update_single_threaded m.queues },
    rw e refl,
    ground arith,
    ground arith,
    ground arith,
  )
]
