-- ===== src/Tasks/Null.antt =====
-- NULL tasks in the queue of the task manager (src/osgGIS/TaskManager.cpp).
use osggis.Base.{
  ◌≡◌, refl, sym, ◌∙◌, ap, true, false, Option, none, some, List, [], ◌∷◌, ◌>>=◌, In, ◌⊎◌, inl, inr,
  arith,
}
use osggis.Tasks.Thread.{Task, TaskThread, is_ready}
use osggis.Tasks.Manager.{Queues, TaskManager, update_thread, update_threads, update}

-- With a NULL task at the head of the queue, `update` fails at a thread, or it leaves the queue and
-- the thread was not READY.
update_thread_null :
    (q : Queues) (t : TaskThread) (rest : List (Option Task))
    → q.pending_tasks ≡ none ∷ rest
    → (r : Option (Queues × TaskThread)) → update_thread q t ≡ r
    → (r ≡ none)
      ⊎ ((q' : Queues) × (t' : TaskThread) × (r ≡ some (q', t'))
          × (q'.pending_tasks ≡ none ∷ rest)
          × (is_ready t.state ≡ false))
unfolding update_thread
update_thread_null q t rest h none e = inl refl
update_thread_null q t rest h (some (q', t')) e = inr (q', t', refl, ground arith, ground arith)

update_threads_null :
    (q : Queues) (ts : List TaskThread) (rest : List (Option Task)) (t : TaskThread)
    → q.pending_tasks ≡ none ∷ rest
    → In t ts
    → is_ready t.state ≡ true
    → update_threads q ts ≡ none
unfolding update_threads
update_threads_null q [] rest t h i r = absurd i
update_threads_null q (u ∷ us) rest t h i r =
    elim (update_thread_null q u rest h (update_thread q u) refl) [
      | inl e ↦ rw (e, ◌>>=◌) refl
      | inr (q', u', e, h', s) ↦ elim i [
        | inl same ↦
            absurd (let z : true ≡ false = sym r ∙ (ap (λ x. is_ready x.state) same ∙ s) in cc)
        | inr j ↦ rw (e, ◌>>=◌, update_threads_null q' us rest t h' j r) refl
      ]
    ]

-- With threads, of which one is READY, `update` dereferences a NULL task at the head of the queue.
pub update_null :
    (m : TaskManager) (rest : List (Option Task)) (t : TaskThread)
    → m.pending_tasks ≡ none ∷ rest
    → m.multi_threaded ≡ true
    → In t m.threads
    → is_ready t.state ≡ true
    → update m ≡ none
unfolding update
update_null m rest t h e i r = rw (e, update_threads_null m.queues m.threads rest t h i r) refl
