-- ===== src/WorkerQueue.antt =====
-- await_worker_queue in src/GraphQLService.cpp: one worker thread that resumes the coroutines that
-- were suspended on the queue. What happens while the mutex is held is one step, and each call of
-- `_cv.notify_one`, which follows without the mutex, is another; the handles that the worker has
-- taken are resumed without it, one step each. The condition variable wakes a worker that waits on
-- it when it is notified, and may wake it at any time.
pub mod Order
pub mod Drain
pub mod Join
pub mod Waking
mod Examples
use cppgraphqlgen.Base.{
  ℕ, zero, suc, Bool, true, false, ◌||◌, not, List, [], ◌∷◌, ◌++◌, Option, none, some, ◌≡◌,
  if◌then◌else◌,
}

-- Where resumePending stands: before its loop, blocked in `_cv.wait`, woken there and about to test
-- the predicate again, in the loop over the handles that it has taken, or returned.
pub data Worker {ℓ} (Handle : Type ℓ) : Type ℓ where
  starting waiting awake finished : Worker Handle
  resuming : List Handle → Worker Handle

-- `_pending`, `_shutdown`, how many threads have released the mutex and have yet to notify, the
-- worker, and the handles that have been resumed so far.
pub record Queue {ℓ} (Handle : Type ℓ) : Type ℓ where
  pub pending : List Handle
  pub shutdown : Bool
  pub notifying : ℕ
  pub worker : Worker Handle
  pub resumed : List Handle

module _ {ℓ} {Handle : Type ℓ} where
  abbrev pub new_queue : Queue Handle
  new_queue = record {
    pending = [];
    shutdown = false;
    notifying = 0;
    worker = starting;
    resumed = [];
  }

  -- await_suspend up to its notify.
  unfoldable pub await_suspend : Handle → Queue Handle → Queue Handle
  await_suspend h queue = record queue {
    pending = queue.pending ++ h ∷ [];
    notifying = suc queue.notifying;
  }

  -- The destructor, up to its notify; the join follows that.
  unfoldable pub shut_down : Queue Handle → Queue Handle
  shut_down queue = record queue { shutdown = true; notifying = suc queue.notifying }

  abbrev pub wake : Worker Handle → Worker Handle
  wake waiting = awake
  wake worker = worker

  -- `_cv.notify_one` of a thread that has yet to call it.
  unfoldable pub notify_one : Queue Handle → Option (Queue Handle)
  notify_one queue = elim queue.notifying [
    | zero ↦ none
    | suc n ↦ some (record queue { notifying = n; worker = wake queue.worker })
  ]

  -- The end of the wait: all pending handles are taken.
  unfoldable pub take_pending : Queue Handle → Queue Handle
  take_pending queue = record queue { worker = resuming queue.pending; pending = [] }

  abbrev pub is_empty : List Handle → Bool
  is_empty [] = true
  is_empty (h ∷ hs) = false

  -- The test of the predicate in `_cv.wait`, which blocks where it fails.
  unfoldable pub test_predicate : Queue Handle → Queue Handle
  unfolding take_pending
  test_predicate queue =
      if queue.shutdown || not (is_empty queue.pending)
      then take_pending queue
      else record queue { worker = waiting }

  -- The test of the loop, and the wait if it goes on.
  unfoldable pub loop_again : Queue Handle → Queue Handle
  unfolding test_predicate
  loop_again queue =
      if queue.shutdown then record queue { worker = finished } else test_predicate queue

  -- The next step of the worker, and `none` where it is blocked or has returned.
  unfoldable pub worker_step : Queue Handle → Option (Queue Handle)
  unfolding loop_again test_predicate
  worker_step queue = elim queue.worker [
    | starting ↦ some (loop_again queue)
    | waiting ↦ none
    | awake ↦ some (test_predicate queue)
    | resuming hs ↦ elim hs [
      | [] ↦ some (loop_again queue)
      | h ∷ more ↦ some (record queue { worker = resuming more; resumed = queue.resumed ++ h ∷ [] })
    ]
    | finished ↦ none
  ]

-- Any thread may suspend a coroutine and notify, the destructor may run, the worker goes on, and it
-- may be woken without a notify, in any order. The list has the handles that are suspended on the way.
pub data Steps {ℓ} {Handle : Type ℓ} : Queue Handle → List Handle → Queue Handle → Type ℓ where
  no_step : {queue : Queue Handle} → Steps queue [] queue
  suspending :
      {queue last : Queue Handle} {hs : List Handle} (h : Handle)
      → Steps queue hs last
      → Steps queue (hs ++ h ∷ []) (await_suspend h last)
  shutting_down :
      {queue last : Queue Handle} {hs : List Handle}
      → Steps queue hs last
      → Steps queue hs (shut_down last)
  notification :
      {queue last next : Queue Handle} {hs : List Handle}
      → Steps queue hs last
      → notify_one last ≡ some next
      → Steps queue hs next
  woken_early :
      {queue last : Queue Handle} {hs : List Handle}
      → Steps queue hs last
      → Steps queue hs (record last { worker = wake last.worker })
  working :
      {queue last next : Queue Handle} {hs : List Handle}
      → Steps queue hs last
      → worker_step last ≡ some next
      → Steps queue hs next
