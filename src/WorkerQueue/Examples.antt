-- ===== src/WorkerQueue/Examples.antt =====
-- A queue on which two coroutines are suspended, the second while the worker resumes the first.
use cppgraphqlgen.Base.{ℕ, true, false, [], ◌∷◌, ◌++◌, ◌≡◌, refl}
use cppgraphqlgen.WorkerQueue.{
  waiting, resuming, Queue, new_queue, await_suspend, shut_down, notify_one, loop_again,
  test_predicate, take_pending, worker_step, Steps, no_step, suspending, shutting_down,
  notification, working,
}
use cppgraphqlgen.WorkerQueue.Order.{all_handles, all_handles-Steps, queue_of}
use cppgraphqlgen.WorkerQueue.Waking.{Steps-NoneMissed}
use cppgraphqlgen.WorkerQueue.Drain.{run_worker, enough_steps, idle, run_worker-idle}
use cppgraphqlgen.WorkerQueue.Join.{left, run_worker-finished}

-- The worker blocks, is woken for the first coroutine and takes it, and the second is suspended.
abbrev busy : Queue ℕ
busy = queue_of (20 ∷ []) false 0 (resuming (10 ∷ [])) []

busy-Steps : Steps new_queue (10 ∷ 20 ∷ []) busy
unfolding await_suspend notify_one worker_step loop_again test_predicate take_pending
busy-Steps =
    notification
      (suspending 20 (working (notification (suspending 10 (working no_step refl)) refl) refl)) refl

all_handles-Steps_example : all_handles busy ≡ all_handles new_queue ++ 10 ∷ 20 ∷ []
all_handles-Steps_example = all_handles-Steps busy-Steps

run_worker-idle_example : run_worker (enough_steps busy) busy ≡ idle (10 ∷ 20 ∷ [])
run_worker-idle_example = run_worker-idle busy-Steps refl refl

abbrev blocked : Queue ℕ
blocked = queue_of [] false 0 waiting []

blocked-Steps : Steps new_queue [] blocked
unfolding worker_step loop_again test_predicate
blocked-Steps = working no_step refl

Steps-NoneMissed_example : (blocked.pending ≡ []) × (blocked.shutdown ≡ false)
Steps-NoneMissed_example = Steps-NoneMissed blocked-Steps refl refl

-- The queue is shut down while the worker resumes the first coroutine.
abbrev ending : Queue ℕ
ending = queue_of (20 ∷ []) true 0 (resuming (10 ∷ [])) []

ending-Steps : Steps new_queue (10 ∷ 20 ∷ []) ending
unfolding shut_down notify_one
ending-Steps = notification (shutting_down busy-Steps) refl

run_worker-finished_example : run_worker (enough_steps ending) ending ≡ left ending
run_worker-finished_example = run_worker-finished ending-Steps refl refl
