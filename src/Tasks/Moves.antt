-- ===== src/Tasks/Moves.antt =====
-- The interleavings of the task manager: its owner's thread takes the parts of
-- `TaskManager::update` for any thread at any time, and the threads take their own steps.
-- That includes each order in which the real calls of `update` meet the threads.
use osggis.Base.{◌≡◌, List, ◌∷◌, ◌++◌, some, false, Option}
use osggis.Tasks.Thread.{Task, TaskThread, ThreadStep}
use osggis.Tasks.Manager.{
  Queues, TaskManager, queue_task, cancel_pending_tasks, get_next_completed_task, handle_completed,
  dispatch_pending, check_orphaned, update_single_threaded,
}

-- What happens at one thread, with the queues.
pub data ThreadMove (q : Queues) (t : TaskThread) (q' : Queues) (t' : TaskThread) : Type 0 where
  thread_step : ThreadStep t t' → q' ≡ q → ThreadMove q t q' t'
  completes : handle_completed q t ≡ some (q', t') → ThreadMove q t q' t'
  dispatches : dispatch_pending q t ≡ some (q', t') → ThreadMove q t q' t'
  reaps : check_orphaned q t ≡ some (q', t') → ThreadMove q t q' t'

pub data Move (m m' : TaskManager) : Type 0 where
  at_thread :
      (before after : List TaskThread) (t t' : TaskThread) (q' : Queues)
      → m.threads ≡ before ++ t ∷ after
      → ThreadMove m.queues t q' t'
      → m' ≡ record m { threads = before ++ t' ∷ after; queues = q' }
      → Move m m'
  single_threaded :
      m.multi_threaded ≡ false
      → m' ≡ record m { queues = update_single_threaded m.queues }
      → Move m m'

-- The owner's calls that move tasks in and out.
pub data Call (m m' : TaskManager) : Type 0 where
  queues_task : (k : Option Task) → m' ≡ record m { queues = queue_task m.queues k } → Call m m'
  cancels : m' ≡ record m { queues = cancel_pending_tasks m.queues } → Call m m'
  takes : m' ≡ record m { queues = (get_next_completed_task m.queues).1 } → Call m m'

pub data Moves (m : TaskManager) : TaskManager → Type 0 where
  here : Moves m m
  move : {u v : TaskManager} → Moves m u → Move u v → Moves m v
  call : {u v : TaskManager} → Moves m u → Call u v → Moves m v
