-- ===== src/WorkerQueue/Waking.antt =====
-- A worker that is blocked has nothing to do, or a thread has yet to notify it.
use cppgraphqlgen.Base.{ℕ, zero, suc, Bool, true, false, List, [], ◌∷◌, some, ◌≡◌, ◌≢◌, refl, subst}
use cppgraphqlgen.WorkerQueue.{
  Worker, starting, waiting, awake, resuming, finished, Queue, new_queue, await_suspend, shut_down,
  wake, notify_one, loop_again, test_predicate, take_pending, worker_step, Steps, no_step,
  suspending, shutting_down, notification, woken_early, working,
}
use cppgraphqlgen.WorkerQueue.Order.{some_injective, queue_of}

module _ {ℓ} {Handle : Type ℓ} where
  -- A worker that is blocked, and that no thread is about to notify, has nothing to do.
  abbrev pub NoneMissed : Queue Handle → Type ℓ
  NoneMissed queue =
      queue.worker ≡ waiting → queue.notifying ≡ 0 → (queue.pending ≡ []) × (queue.shutdown ≡ false)

  wake_waits : (worker : Worker Handle) → wake worker ≢ waiting
  wake_waits starting e = cc
  wake_waits waiting e = cc
  wake_waits awake e = cc
  wake_waits finished e = cc
  wake_waits (resuming hs) e = cc

  tested :
      (pending : List Handle) (shutdown : Bool) (n : ℕ) (worker : Worker Handle)
      (resumed : List Handle)
      → NoneMissed (test_predicate (queue_of pending shutdown n worker resumed))
  unfolding test_predicate take_pending
  tested pending true n worker resumed w z = cc
  tested [] false n worker resumed w z = (refl, refl)
  tested (h ∷ hs) false n worker resumed w z = cc

  looped :
      (pending : List Handle) (shutdown : Bool) (n : ℕ) (worker : Worker Handle)
      (resumed : List Handle)
      → NoneMissed (loop_again (queue_of pending shutdown n worker resumed))
  unfolding loop_again
  looped pending true n worker resumed w z = cc
  looped pending false n worker resumed w z = tested pending false n worker resumed w z

  worked :
      (pending : List Handle) (shutdown : Bool) (n : ℕ) (worker : Worker Handle)
      (resumed : List Handle) {next : Queue Handle}
      → worker_step (queue_of pending shutdown n worker resumed) ≡ some next
      → NoneMissed next
  unfolding worker_step
  worked pending shutdown n starting resumed e =
      subst NoneMissed (some_injective e) (looped pending shutdown n starting resumed)
  worked pending shutdown n waiting resumed e = cc
  worked pending shutdown n awake resumed e =
      subst NoneMissed (some_injective e) (tested pending shutdown n awake resumed)
  worked pending shutdown n (resuming []) resumed e =
      subst NoneMissed (some_injective e) (looped pending shutdown n (resuming []) resumed)
  worked pending shutdown n (resuming (h ∷ hs)) resumed e =
      subst NoneMissed (some_injective e) (λ w z. cc)
  worked pending shutdown n finished resumed e = cc

  notifies :
      (pending : List Handle) (shutdown : Bool) (n : ℕ) (worker : Worker Handle)
      (resumed : List Handle) {next : Queue Handle}
      → notify_one (queue_of pending shutdown n worker resumed) ≡ some next
      → NoneMissed next
  unfolding notify_one
  notifies pending shutdown zero worker resumed e = cc
  notifies pending shutdown (suc n) worker resumed e =
      subst NoneMissed (some_injective e) (λ w z. absurd (wake_waits worker w))

  -- No wakeup is lost: in every state that the threads bring a new queue to, a worker that is blocked,
  -- while every thread that released the mutex has notified, has nothing pending and is not to stop.
  pub Steps-NoneMissed :
      {hs : List Handle} {queue : Queue Handle} → Steps new_queue hs queue → NoneMissed queue
  unfolding await_suspend shut_down
  Steps-NoneMissed no_step w z = cc
  Steps-NoneMissed (suspending h steps) w z = cc
  Steps-NoneMissed (shutting_down steps) w z = cc
  Steps-NoneMissed (notification {last = last} steps e) w z =
      notifies last.pending last.shutdown last.notifying last.worker last.resumed e w z
  Steps-NoneMissed (woken_early {last = last} steps) w z = absurd (wake_waits last.worker w)
  Steps-NoneMissed (working {last = last} steps e) w z =
      worked last.pending last.shutdown last.notifying last.worker last.resumed e w z
