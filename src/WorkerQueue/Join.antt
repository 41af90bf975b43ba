-- ===== src/WorkerQueue/Join.antt =====
-- What is left when the destructor has joined the worker.
use cppgraphqlgen.Base.{
  ℕ, zero, suc, ◌+◌, Bool, true, false, List, [], ◌++◌, append-nil, length, ◌≡◌, ◌≢◌, refl, ◌∙◌,
  sym, false≢true, arith,
}
use cppgraphqlgen.WorkerQueue.{
  Worker, starting, waiting, awake, resuming, finished, Queue, new_queue, loop_again,
  test_predicate, take_pending, worker_step, Steps,
}
use cppgraphqlgen.WorkerQueue.Order.{taken, queue_of}
use cppgraphqlgen.WorkerQueue.Waking.{Steps-NoneMissed}
use cppgraphqlgen.WorkerQueue.Drain.{run_worker, enough_steps, run_taken, same_steps}

module _ {ℓ} {Handle : Type ℓ} where
  abbrev closing : List Handle → Worker Handle → List Handle → Queue Handle
  closing pending worker resumed = queue_of pending true 0 worker resumed

  -- A worker that was woken takes the pending handles first; any other leaves them.
  abbrev pub left_by : List Handle → Worker Handle → List Handle → Queue Handle
  left_by pending awake resumed = closing [] finished (resumed ++ pending)
  left_by pending worker resumed = closing pending finished (resumed ++ taken worker)

  abbrev pub left : Queue Handle → Queue Handle
  left queue = left_by queue.pending queue.worker queue.resumed

  run_finished :
      (steps : ℕ) (pending resumed : List Handle)
      → run_worker steps (closing pending finished resumed) ≡ closing pending finished resumed
  unfolding run_worker worker_step
  run_finished zero pending resumed = refl
  run_finished (suc steps) pending resumed = refl

  run_closing :
      (hs pending resumed : List Handle) (steps : ℕ)
      → run_worker (length hs + suc steps) (closing pending (resuming hs) resumed)
        ≡ closing pending finished (resumed ++ hs)
  unfolding run_worker worker_step loop_again
  run_closing hs pending resumed steps =
      run_taken hs pending true resumed (suc steps) ∙ run_finished steps pending (resumed ++ hs)

  finishes :
      (pending : List Handle) (shutdown : Bool) (n : ℕ) (worker : Worker Handle)
      (resumed : List Handle)
      → shutdown ≡ true
      → n ≡ 0
      → worker ≢ waiting
      → run_worker
          (enough_steps (queue_of pending shutdown n worker resumed))
          (queue_of pending shutdown n worker resumed)
        ≡ left_by pending worker resumed
  unfolding run_worker worker_step loop_again test_predicate take_pending
  finishes pending false n worker resumed e z w = cc
  finishes pending true (suc n) worker resumed e z w = cc
  finishes pending true zero starting resumed e z w = rw (append-nil resumed) (
      same_steps {n = suc (length pending + 1)} (closing pending starting resumed) (omega arith)
      ∙ run_finished (length pending + 1) pending resumed)
  finishes pending true zero finished resumed e z w = rw (append-nil resumed) (
      same_steps {n = suc (length pending + 1)} (closing pending finished resumed) (omega arith)
      ∙ run_finished (suc (length pending + 1)) pending resumed)
  finishes pending true zero waiting resumed e z w = absurd (w refl)
  finishes pending true zero awake resumed e z w =
      same_steps {n = suc (length pending + 1)} (closing pending awake resumed) (omega arith)
      ∙ run_closing pending [] resumed 0
  finishes pending true zero (resuming hs) resumed e z w = run_closing hs pending resumed _

  -- In whatever state the threads have brought a new queue that is shut down, once each thread that
  -- released the mutex has notified, the destructor among them, the worker returns within the steps
  -- that `enough_steps` counts, so that the join ends: a worker that was woken in its wait has resumed
  -- all handles by then, and any other has resumed those that it had taken, and leaves the pending
  -- ones as they are.
  pub run_worker-finished :
      {hs : List Handle} {queue : Queue Handle}
      → Steps new_queue hs queue
      → queue.shutdown ≡ true
      → queue.notifying ≡ 0
      → run_worker (enough_steps queue) queue ≡ left queue
  run_worker-finished {queue = queue} steps e z =
      finishes queue.pending queue.shutdown queue.notifying queue.worker queue.resumed e z
        (λ w. false≢true (sym (Steps-NoneMissed steps w z).1 ∙ e))
