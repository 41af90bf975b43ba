-- ===== src/WorkerQueue/Order.antt =====
-- The order in which the handles are resumed.
use cppgraphqlgen.Base.{
  ℕ, zero, suc, Bool, true, false, refl, List, [], ◌∷◌, ◌++◌, append_assoc, append-nil, some, ◌≡◌,
  ◌∙◌, sym, ap,
}
use cppgraphqlgen.WorkerQueue.{
  Worker, starting, waiting, awake, resuming, finished, Queue, await_suspend, shut_down, wake,
  notify_one, loop_again, test_predicate, take_pending, worker_step, Steps, no_step, suspending,
  shutting_down, notification, woken_early, working,
}

pub some_injective {ℓ} : {A : Type ℓ} {a b : A} → some a ≡ some b → a ≡ b
some_injective e = cc

module _ {ℓ} {Handle : Type ℓ} where
  -- The handles that the worker has taken and not resumed.
  abbrev pub taken : Worker Handle → List Handle
  taken (resuming hs) = hs
  taken worker = []

  -- All handles that the queue has seen, in the order in which it resumes them.
  abbrev pub all_handles : Queue Handle → List Handle
  all_handles queue = queue.resumed ++ (taken queue.worker ++ queue.pending)

  append_last : (ws xs ys zs : List Handle) → ws ++ (xs ++ (ys ++ zs)) ≡ (ws ++ (xs ++ ys)) ++ zs
  append_last ws xs ys zs =
      sym (append_assoc ws (xs ++ ys) zs ∙ ap (λ hs. ws ++ hs) (append_assoc xs ys zs))

  -- The fields of a queue, for a split on its state.
  abbrev pub queue_of : List Handle → Bool → ℕ → Worker Handle → List Handle → Queue Handle
  queue_of pending shutdown notifying worker resumed = record {
    pending = pending;
    shutdown = shutdown;
    notifying = notifying;
    worker = worker;
    resumed = resumed;
  }

  taken-wake : (worker : Worker Handle) → taken (wake worker) ≡ taken worker
  taken-wake starting = refl
  taken-wake waiting = refl
  taken-wake awake = refl
  taken-wake finished = refl
  taken-wake (resuming hs) = refl

  taken_append : (pending resumed : List Handle) → resumed ++ (pending ++ []) ≡ resumed ++ pending
  taken_append pending resumed = ap (λ hs. resumed ++ hs) (append-nil pending)

  -- Testing the predicate keeps the handles.
  tested_same :
      (pending : List Handle) (shutdown : Bool) (n : ℕ) (worker : Worker Handle)
      (resumed : List Handle)
      → all_handles (test_predicate (queue_of pending shutdown n worker resumed))
        ≡ resumed ++ pending
  unfolding test_predicate take_pending
  tested_same pending true n worker resumed = taken_append pending resumed
  tested_same [] false n worker resumed = refl
  tested_same (h ∷ hs) false n worker resumed = taken_append (h ∷ hs) resumed

  looped_same :
      (pending : List Handle) (shutdown : Bool) (n : ℕ) (worker : Worker Handle)
      (resumed : List Handle)
      → all_handles (loop_again (queue_of pending shutdown n worker resumed)) ≡ resumed ++ pending
  unfolding loop_again
  looped_same pending true n worker resumed = refl
  looped_same pending false n worker resumed = tested_same pending false n worker resumed

  worker_step_same :
      (pending : List Handle) (shutdown : Bool) (n : ℕ) (worker : Worker Handle)
      (resumed : List Handle) {next : Queue Handle}
      → worker_step (queue_of pending shutdown n worker resumed) ≡ some next
      → all_handles next ≡ resumed ++ (taken worker ++ pending)
  unfolding worker_step
  worker_step_same pending shutdown n starting resumed e =
      rw (← some_injective e) (looped_same pending shutdown n starting resumed)
  worker_step_same pending shutdown n waiting resumed e = cc
  worker_step_same pending shutdown n awake resumed e =
      rw (← some_injective e) (tested_same pending shutdown n awake resumed)
  worker_step_same pending shutdown n (resuming []) resumed e =
      rw (← some_injective e) (looped_same pending shutdown n (resuming []) resumed)
  worker_step_same pending shutdown n (resuming (h ∷ hs)) resumed e =
      rw (← some_injective e) (append_assoc resumed (h ∷ []) (hs ++ pending))
  worker_step_same pending shutdown n finished resumed e = cc

  notify_one_same :
      (pending : List Handle) (shutdown : Bool) (n : ℕ) (worker : Worker Handle)
      (resumed : List Handle) {next : Queue Handle}
      → notify_one (queue_of pending shutdown n worker resumed) ≡ some next
      → all_handles next ≡ resumed ++ (taken worker ++ pending)
  unfolding notify_one
  notify_one_same pending shutdown zero worker resumed e = cc
  notify_one_same pending shutdown (suc n) worker resumed e =
      rw (← some_injective e, taken-wake worker) refl

  -- Whatever the threads do, and in any order, the handles that were resumed, followed by those that
  -- the worker has taken and by the pending ones, are the handles of the start and those that were
  -- suspended since, in that order: each is resumed once at most, and none before an earlier one.
  pub all_handles-Steps :
      {queue last : Queue Handle} {hs : List Handle}
      → Steps queue hs last
      → all_handles last ≡ all_handles queue ++ hs
  unfolding await_suspend shut_down
  all_handles-Steps no_step = sym (append-nil _)
  all_handles-Steps (suspending {last = last} {hs = hs} h steps) =
      append_last last.resumed (taken last.worker) last.pending (h ∷ [])
      ∙ ap (λ xs. xs ++ h ∷ []) (all_handles-Steps steps)
      ∙ append_assoc _ hs (h ∷ [])
  all_handles-Steps (shutting_down steps) = all_handles-Steps steps
  all_handles-Steps (notification {last = last} steps e) =
      notify_one_same last.pending last.shutdown last.notifying last.worker last.resumed e
      ∙ all_handles-Steps steps
  all_handles-Steps (woken_early {last = last} steps) =
      ap (λ hs. last.resumed ++ (hs ++ last.pending)) (taken-wake last.worker)
      ∙ all_handles-Steps steps
  all_handles-Steps (working {last = last} steps e) =
      worker_step_same last.pending last.shutdown last.notifying last.worker last.resumed e
      ∙ all_handles-Steps steps
