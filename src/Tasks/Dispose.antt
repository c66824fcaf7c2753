-- ===== src/Tasks/Dispose.antt =====
-- The destructor of the task manager (src/osgGIS/TaskManager.cpp): `dispose` posts STATE_EXIT and a
-- signal, and `join` waits for `run` to return.
use osggis.Base.{◌≡◌, ◌≢◌, refl, Bool, true, false, ◌&&◌, ◌||◌, arith}
use osggis.Tasks.Thread.{
  TaskThread, Position, ThreadStep, starts, wakes, passes, enters, runs, skips_state, skips_task,
  finishes, dies, loops, breaks, ThreadSteps, here, next, dispose, consume, blocked, awake, in_task,
  signalling, returned, dead, is_result_ready,
}

abbrev in_loop : Position → Bool
in_loop p = elim p [ blocked ↦ true | awake ↦ true | signalling ↦ true | _ ↦ false ]

abbrev in_task_or_dead : Position → Bool
in_task_or_dead p = elim p [ in_task ↦ true | dead ↦ true | _ ↦ false ]

-- A thread that has lost its STATE_EXIT, or will.
abbrev is_deaf : TaskThread → Bool
is_deaf t = in_task_or_dead t.position || in_loop t.position && is_result_ready t.state

ThreadStep-is_deaf : (t t' : TaskThread) → ThreadStep t t' → is_deaf t ≡ true → is_deaf t' ≡ true
ThreadStep-is_deaf t t' (starts p e) h = ground arith
ThreadStep-is_deaf t t' (wakes p e) h = ground arith
ThreadStep-is_deaf t t' (passes p s e) h = ground arith
ThreadStep-is_deaf t t' (enters k p o e) h = ground arith
ThreadStep-is_deaf t t' (runs p e) h = ground arith
ThreadStep-is_deaf t t' (skips_state p s e) h = ground arith
ThreadStep-is_deaf t t' (skips_task p o e) h = ground arith
ThreadStep-is_deaf t t' (finishes p e) h = ground arith
ThreadStep-is_deaf t t' (dies p e) h = ground arith
ThreadStep-is_deaf t t' (loops p s e) h = ground arith
ThreadStep-is_deaf t t' (breaks p s e) h = ground arith

ThreadSteps-is_deaf : {t t' : TaskThread} → ThreadSteps t t' → is_deaf t ≡ true → is_deaf t' ≡ true
ThreadSteps-is_deaf here h = h
ThreadSteps-is_deaf {t' = v} (next {u = u} ss s) h =
    ThreadStep-is_deaf u v s (ThreadSteps-is_deaf ss h)

-- A thread that is inside a task when it is disposed of never returns from `run`, whatever steps it
-- takes.
pub dispose_in_task :
    (t t' : TaskThread) → t.position ≡ in_task → ThreadSteps (dispose t) t' → t'.position ≢ returned
unfolding dispose
dispose_in_task t t' p ss e =
    let h : is_deaf (dispose t) ≡ true = ground arith in
    let h' = ThreadSteps-is_deaf ss h in ground arith

-- A thread that waits for a task when it is disposed of can return by steps of its own.
pub dispose_blocked :
    (t : TaskThread)
    → t.position ≡ blocked
    → (t' : TaskThread) × ThreadSteps (dispose t) t' × (t'.position ≡ returned)
unfolding dispose
dispose_blocked t p =
    let t0 = dispose t in
    let t1 : TaskThread = record t0 { run_block = consume t0.run_block; position = awake } in
    let t2 : TaskThread = record t1 { position = signalling } in
    (
      record t2 { position = returned },
      next (next (next here (wakes p refl)) (skips_state refl refl refl)) (breaks refl refl refl),
      refl,
    )
