-- ===== src/Tasks/Thread.antt =====
-- TaskThread (src/osgGIS/TaskManager, src/osgGIS/TaskManager.cpp), the AutoResetBlock on which it
-- sleeps (src/osgGIS/AutoResetBlock) and the exception flag of Task (src/osgGIS/Task.cpp).
-- The operating system's thread is seen as a position in `TaskThread::run`. Names, user data and the
-- timer readings, which are only logged, are left out.
use osggis.Base.{ℕ, ◌+◌, ◌-◌, ◌≡◌, Bool, true, false, Option, none, some, ◌==◌, if◌then◌else◌}

-- `id` stands for the identity of the task object.
pub record Task : Type 0 where
  pub id : ℕ
  pub exception_state : Bool

unfoldable pub set_exception : Task → Task
set_exception k = record k { exception_state = true }

-- AutoResetBlock: the number of signals posted and not consumed.
abbrev pub AutoResetBlock : Type 0
AutoResetBlock = ℕ

unfoldable pub signal : AutoResetBlock → AutoResetBlock
signal signal_count = signal_count + 1

-- What `block` does once its wait is over. A wait may end with no signal posted (another thread
-- consumed it, or the condition woke up on its own).
unfoldable pub consume : AutoResetBlock → AutoResetBlock
consume signal_count = if signal_count == 0 then 0 else signal_count - 1

pub data State : Type 0 where
  ready running result_ready exit : State

-- Positions in `run`: before its first line, at `run_block.block()`, after it, after the test of the
-- state, after that of the task, inside `task->run()`, before `activity_block.signal()`, returned, and
-- killed by its task.
pub data Position : Type 0 where
  starting blocked awake tested entering in_task signalling returned dead : Position

pub record TaskThread : Type 0 where
  pub task : Option Task
  pub state : State
  pub run_block : AutoResetBlock
  pub position : Position

-- OpenThreads::Thread::isRunning.
abbrev pub is_running : TaskThread → Bool
is_running t = elim t.position [ returned ↦ false | dead ↦ false | _ ↦ true ]

abbrev pub is_ready : State → Bool
is_ready s = elim s [ ready ↦ true | _ ↦ false ]

abbrev pub is_result_ready : State → Bool
is_result_ready s = elim s [ result_ready ↦ true | _ ↦ false ]

abbrev pub is_state_running : State → Bool
is_state_running s = elim s [ running ↦ true | _ ↦ false ]

abbrev pub is_exit : State → Bool
is_exit s = elim s [ exit ↦ true | _ ↦ false ]

-- The constructor, which starts the thread.
unfoldable pub new_thread : TaskThread
new_thread = record { task = none; state = ready; run_block = 0; position = starting }

unfoldable pub dispose : TaskThread → TaskThread
unfolding signal
dispose t = record t { state = exit; run_block = signal t.run_block }

-- In any other state the call only logs "ILLEGAL STATE".
unfoldable pub run_task : TaskThread → Task → TaskThread
unfolding signal
run_task t k =
    if is_ready t.state then record t { task = some k; run_block = signal t.run_block } else t

unfoldable pub remove_task : TaskThread → Option Task × TaskThread
remove_task t = (t.task, record t { task = none; state = ready })

-- OpenThreads::Thread::startThread on a thread that has died: `run` begins anew.
unfoldable pub start_thread : TaskThread → TaskThread
start_thread t = record t { position = starting }

-- One step of the thread itself, from one access to shared state to the next.
pub data ThreadStep (t t' : TaskThread) : Type 0 where
  -- task = NULL; state = STATE_READY;
  starts :
      t.position ≡ starting
      → t' ≡ record t { task = none; state = ready; position = blocked }
      → ThreadStep t t'
  -- run_block.block();
  wakes :
      t.position ≡ blocked
      → t' ≡ record t { run_block = consume t.run_block; position = awake }
      → ThreadStep t t'
  -- getState() == STATE_READY
  passes :
      t.position ≡ awake → t.state ≡ ready → t' ≡ record t { position = tested } → ThreadStep t t'
  -- task.valid()
  enters :
      (k : Task)
      → t.position ≡ tested
      → t.task ≡ some k
      → t' ≡ record t { position = entering }
      → ThreadStep t t'
  -- setState( STATE_RUNNING );
  runs :
      t.position ≡ entering
      → t' ≡ record t { state = running; position = in_task }
      → ThreadStep t t'
  -- One of the tests fails.
  skips_state :
      t.position ≡ awake
      → is_ready t.state ≡ false
      → t' ≡ record t { position = signalling }
      → ThreadStep t t'
  skips_task :
      t.position ≡ tested
      → t.task ≡ none
      → t' ≡ record t { position = signalling }
      → ThreadStep t t'
  -- task->run() is over: setState( STATE_RESULT_READY );
  finishes :
      t.position ≡ in_task
      → t' ≡ record t { state = result_ready; position = signalling }
      → ThreadStep t t'
  -- task->run() takes the thread down with it.
  dies : t.position ≡ in_task → t' ≡ record t { position = dead } → ThreadStep t t'
  -- activity_block.signal(); the loop goes on.
  loops :
      t.position ≡ signalling
      → is_exit t.state ≡ false
      → t' ≡ record t { position = blocked }
      → ThreadStep t t'
  -- getState() == STATE_EXIT: break;
  breaks :
      t.position ≡ signalling
      → t.state ≡ exit
      → t' ≡ record t { position = returned }
      → ThreadStep t t'

pub data ThreadSteps (t : TaskThread) : TaskThread → Type 0 where
  here : ThreadSteps t t
  next : {u v : TaskThread} → ThreadSteps t u → ThreadStep u v → ThreadSteps t v
