-- ===== src/WorkerQueue/Drain.antt =====
-- The worker resumes what is pending, and what a shutdown leaves.
use cppgraphqlgen.Base.{
  ℕ, zero, suc, ◌+◌, Bool, true, false, List, [], ◌∷◌, ◌++◌, append_assoc, append-nil, false≢true,
  none, some, length, ◌≡◌, ◌≢◌, refl, arith, ◌∙◌, sym, ap, subst,
}
use cppgraphqlgen.WorkerQueue.{
  Worker, starting, waiting, awake, resuming, finished, Queue, new_queue, wake, notify_one,
  loop_again, test_predicate, take_pending, worker_step, await_suspend, shut_down, Steps, no_step,
  suspending, shutting_down, notification, woken_early, working,
}
use cppgraphqlgen.WorkerQueue.Order.{
  all_handles-Steps, all_handles, taken, some_injective, queue_of,
}
use cppgraphqlgen.WorkerQueue.Waking.{Steps-NoneMissed}

module _ {ℓ} {Handle : Type ℓ} where
  -- At most so many steps of the worker, fewer where it blocks.
  unfoldable pub run_worker : ℕ → Queue Handle → Queue Handle
  run_worker zero queue = queue
  run_worker (suc steps) queue = elim (worker_step queue) [
    | none ↦ queue
    | some next ↦ run_worker steps next
  ]

  -- The worker waits, nothing is pending, and no thread is about to notify.
  abbrev pub idle : List Handle → Queue Handle
  idle resumed = queue_of [] false 0 waiting resumed

  pub same_steps :
      {m n : ℕ} (queue : Queue Handle) → m ≡ n → run_worker m queue ≡ run_worker n queue
  same_steps queue e = ap (λ steps. run_worker steps queue) e

  run_idle : (steps : ℕ) (resumed : List Handle) → run_worker steps (idle resumed) ≡ idle resumed
  unfolding run_worker worker_step
  run_idle zero resumed = refl
  run_idle (suc steps) resumed = refl

  -- The worker resumes what it has taken, with the mutex not held.
  pub run_taken :
      (hs pending : List Handle) (shutdown : Bool) (resumed : List Handle) (steps : ℕ)
      → run_worker (length hs + steps) (queue_of pending shutdown 0 (resuming hs) resumed)
        ≡ run_worker steps (queue_of pending shutdown 0 (resuming []) (resumed ++ hs))
  unfolding run_worker worker_step
  run_taken [] pending shutdown resumed steps =
      rw (append-nil resumed)
        (same_steps (queue_of pending shutdown 0 (resuming []) resumed) (omega arith))
  run_taken (h ∷ hs) pending shutdown resumed steps =
      same_steps {n = suc (length hs + steps)}
        (queue_of pending shutdown 0 (resuming (h ∷ hs)) resumed) (omega arith)
      ∙ run_taken hs pending shutdown (resumed ++ h ∷ []) steps
      ∙ rw (append_assoc resumed (h ∷ []) hs)

  -- From the predicate on, with enough steps for what is pending.
  run_tested :
      (pending : List Handle) (worker : Worker Handle) (resumed : List Handle) (steps : ℕ)
      → run_worker
          (length pending + suc steps)
          (test_predicate (queue_of pending false 0 worker resumed))
        ≡ idle (resumed ++ pending)
  unfolding run_worker worker_step loop_again test_predicate take_pending
  run_tested [] worker resumed steps = rw (append-nil resumed) (run_idle (0 + suc steps) resumed)
  run_tested (h ∷ hs) worker resumed steps =
      run_taken (h ∷ hs) [] false resumed (suc steps) ∙ run_idle steps (resumed ++ h ∷ hs)

  -- Enough steps to resume what is taken and what is pending.
  abbrev pub enough_steps : Queue Handle → ℕ
  enough_steps queue = length (taken queue.worker) + suc (length queue.pending + 1)

  run_enough :
      (pending : List Handle) (worker : Worker Handle) (resumed : List Handle)
      → worker ≢ finished
      → (worker ≡ waiting → pending ≡ [])
      → run_worker
          (enough_steps (queue_of pending false 0 worker resumed))
          (queue_of pending false 0 worker resumed)
        ≡ idle (resumed ++ (taken worker ++ pending))
  unfolding run_worker worker_step loop_again
  run_enough pending starting resumed n none_missed =
      same_steps {n = suc (length pending + 1)} (queue_of pending false 0 starting resumed)
        (omega arith)
      ∙ run_tested pending starting resumed 0
  run_enough pending awake resumed n none_missed =
      same_steps {n = suc (length pending + 1)} (queue_of pending false 0 awake resumed)
        (omega arith)
      ∙ run_tested pending awake resumed 0
  run_enough pending waiting resumed n none_missed =
      rw (none_missed refl, append-nil resumed) (run_idle 2 resumed)
  run_enough pending finished resumed n none_missed = absurd (n refl)
  run_enough pending (resuming hs) resumed n none_missed =
      run_taken hs pending false resumed (suc (length pending + 1))
      ∙ run_tested pending (resuming []) (resumed ++ hs) 0
      ∙ ap idle (append_assoc resumed hs pending)

  not_finished :
      (pending : List Handle) (worker : Worker Handle) (resumed : List Handle) (n : ℕ)
      → (test_predicate (queue_of pending false n worker resumed)).worker ≢ finished
  unfolding test_predicate take_pending
  not_finished [] worker resumed n e = cc
  not_finished (h ∷ hs) worker resumed n e = cc

  looped_ends :
      (pending : List Handle) (shutdown : Bool) (worker : Worker Handle) (resumed : List Handle)
      (n : ℕ)
      → (loop_again (queue_of pending shutdown n worker resumed)).worker ≡ finished
      → (loop_again (queue_of pending shutdown n worker resumed)).shutdown ≡ true
  unfolding loop_again
  looped_ends pending true worker resumed n e = refl
  looped_ends pending false worker resumed n e = absurd (not_finished pending worker resumed n e)

  tested_ends :
      (pending : List Handle) (shutdown : Bool) (worker : Worker Handle) (resumed : List Handle)
      (n : ℕ)
      → (test_predicate (queue_of pending shutdown n worker resumed)).worker ≡ finished
      → (test_predicate (queue_of pending shutdown n worker resumed)).shutdown ≡ true
  unfolding test_predicate take_pending
  tested_ends pending true worker resumed n e = refl
  tested_ends [] false worker resumed n e = cc
  tested_ends (h ∷ hs) false worker resumed n e = cc

  ends :
      (pending : List Handle) (shutdown : Bool) (worker : Worker Handle) (resumed : List Handle)
      (n : ℕ) {next : Queue Handle}
      → worker_step (queue_of pending shutdown n worker resumed) ≡ some next
      → next.worker ≡ finished
      → next.shutdown ≡ true
  unfolding worker_step
  ends pending shutdown starting resumed n w =
      subst (λ q. q.worker ≡ finished → q.shutdown ≡ true) (some_injective w)
        (looped_ends pending shutdown starting resumed n)
  ends pending shutdown waiting resumed n w = cc
  ends pending shutdown awake resumed n w =
      subst (λ q. q.worker ≡ finished → q.shutdown ≡ true) (some_injective w)
        (tested_ends pending shutdown awake resumed n)
  ends pending shutdown (resuming []) resumed n w =
      subst (λ q. q.worker ≡ finished → q.shutdown ≡ true) (some_injective w)
        (looped_ends pending shutdown (resuming []) resumed n)
  ends pending shutdown (resuming (h ∷ hs)) resumed n w =
      subst (λ q. q.worker ≡ finished → q.shutdown ≡ true) (some_injective w) (λ e. cc)
  ends pending shutdown finished resumed n w = cc

  wake_ends : (worker : Worker Handle) → wake worker ≡ finished → worker ≡ finished
  wake_ends starting e = cc
  wake_ends waiting e = cc
  wake_ends awake e = cc
  wake_ends finished e = refl
  wake_ends (resuming hs) e = cc

  notified_ends :
      (pending : List Handle) (shutdown : Bool) (worker : Worker Handle) (resumed : List Handle)
      (n : ℕ) {next : Queue Handle}
      → (worker ≡ finished → shutdown ≡ true)
      → notify_one (queue_of pending shutdown n worker resumed) ≡ some next
      → next.worker ≡ finished
      → next.shutdown ≡ true
  unfolding notify_one
  notified_ends pending shutdown worker resumed zero before w = cc
  notified_ends pending shutdown worker resumed (suc n) before w =
      subst (λ q. q.worker ≡ finished → q.shutdown ≡ true) (some_injective w)
        (λ e. before (wake_ends worker e))

  -- The worker has returned only where the queue was shut down.
  finished_shutdown :
      {hs : List Handle} {queue : Queue Handle}
      → Steps new_queue hs queue
      → queue.worker ≡ finished
      → queue.shutdown ≡ true
  unfolding await_suspend shut_down
  finished_shutdown no_step e = cc
  finished_shutdown (suspending h steps) e = finished_shutdown steps e
  finished_shutdown (shutting_down steps) e = refl
  finished_shutdown (notification {last = last} steps w) e =
      notified_ends last.pending last.shutdown last.worker last.resumed last.notifying
        (finished_shutdown steps) w e
  finished_shutdown (woken_early {last = last} steps) e =
      finished_shutdown steps (wake_ends last.worker e)
  finished_shutdown (working {last = last} steps w) e =
      ends last.pending last.shutdown last.worker last.resumed last.notifying w e

  drained :
      (pending : List Handle) (shutdown : Bool) (n : ℕ) (worker : Worker Handle)
      (resumed : List Handle)
      → shutdown ≡ false
      → n ≡ 0
      → worker ≢ finished
      → (worker ≡ waiting → pending ≡ [])
      → run_worker
          (enough_steps (queue_of pending shutdown n worker resumed))
          (queue_of pending shutdown n worker resumed)
        ≡ idle (all_handles (queue_of pending shutdown n worker resumed))
  drained pending false zero worker resumed e z n none_missed =
      run_enough pending worker resumed n none_missed
  drained pending true n worker resumed e z f none_missed = cc
  drained pending false (suc n) worker resumed e z f none_missed = cc

  -- In whatever state the threads have brought a new queue that is not shut down, and on which each
  -- thread that released the mutex has notified, the worker then resumes every handle that was
  -- suspended on it, in the order of the suspensions, within the steps that `enough_steps` counts,
  -- and waits with nothing pending.
  pub run_worker-idle :
      {hs : List Handle} {queue : Queue Handle}
      → Steps new_queue hs queue
      → queue.shutdown ≡ false
      → queue.notifying ≡ 0
      → run_worker (enough_steps queue) queue ≡ idle hs
  run_worker-idle {queue = queue} steps e z =
      drained queue.pending queue.shutdown queue.notifying queue.worker queue.resumed e z
        (λ f. false≢true (sym e ∙ finished_shutdown steps f)) (λ w. (Steps-NoneMissed steps w z).0)
      ∙ ap idle (all_handles-Steps steps)
