-- ===== src/Workers/Tests.antt =====
-- A pool of two workers that is stopped with a task queued, and witnesses.
use iocp_multi_threading_cha.Prelude.{ℕ, ◌≡◌, true, ◌⊎◌, refl, [], ◌∷◌, update}
use iocp_multi_threading_cha.Workers.{
  running, asleep, taken, gone, ThreadPool, worker_count, start, enqueue, set_stop, notify_every,
  wake, work, enqueues, stops, works, Reach, here, next, get_pending_task_count,
}
use iocp_multi_threading_cha.Workers.Drained.{InOrder, Reach-InOrder}
use iocp_multi_threading_cha.Workers.Ends.{Goes, stop-drains}
use iocp_multi_threading_cha.Workers.Awake.{Alert, Reach-Alert}

-- On a machine that reports no processors.
default_count : worker_count 0 0 ≡ 4
default_count = refl

abbrev two : ThreadPool ℕ
two = start 2 8

abbrev queued : ThreadPool ℕ
queued = enqueue 8 (enqueue 7 two)

-- Worker 1 runs task 7.
abbrev busy : ThreadPool ℕ
busy = record two {
  worker = update (update two.worker 1 (taken 7)) 1 (running 7);
  notify_ones = 2;
  tasks = 8 ∷ [];
  busy_threads = 1;
  accepted = 7 ∷ 8 ∷ [];
  begun = 7 ∷ [];
}

busy-Reach : Reach two busy
unfolding enqueue work wake
busy-Reach =
    next (next (next (next here (enqueues 7)) (enqueues 8)) (works 1 _ refl refl))
      (works 1 busy refl refl)

-- Worker 0 sleeps, and then `Stop` sets its flag.
abbrev idle : ThreadPool ℕ
idle = record two { worker = update two.worker 0 asleep }

abbrev stopping : ThreadPool ℕ
stopping = record idle { stop = true; notify_all = true }

stopping-Reach : Reach two stopping
unfolding work wake set_stop
stopping-Reach = next (next here (works 0 idle refl refl)) stops

-- No task is accepted then.
refused : get_pending_task_count (enqueue 9 stopping) ≡ 0
unfolding enqueue get_pending_task_count
refused = refl

Reach-InOrder_example : InOrder busy
Reach-InOrder_example = Reach-InOrder 2 8 busy busy-Reach

Reach-Alert_example : Alert busy
Reach-Alert_example = Reach-Alert 2 8 busy busy-Reach

stop-drains_example :
    ((stopping.worker 0 ≡ gone) × (stopping.begun ≡ stopping.accepted))
    ⊎ (Goes stopping (work 0 (stopping.worker 0) stopping)
        ⊎ ((stopping.worker 0 ≡ asleep) × Goes stopping (notify_every stopping)))
stop-drains_example = stop-drains 2 8 0 stopping stopping-Reach refl refl
