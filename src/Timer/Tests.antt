-- ===== src/Timer/Tests.antt =====
-- A timer with three jobs, two of them due, and witnesses.
use iocp_multi_threading_cha.Prelude.{ℕ, ◌≡◌, refl, Bool, false, ◌==◌, not, [], ◌∷◌}
use iocp_multi_threading_cha.Jobs.{count_push, store_job, global_push}
use iocp_multi_threading_cha.Timer.{
  Queues, push, push_all, JobTimer, reserve, do_timer, take_expired, distribute,
}
use iocp_multi_threading_cha.Timer.Item.{tick_of}
use iocp_multi_threading_cha.Timer.Heap.{by_selection, select, select_top, select_pop}
use iocp_multi_threading_cha.Timer.Due.{Distributed, distribute-due}

abbrev idle : JobTimer (by_selection (tick_of {J = ℕ}))
idle = record { items = (by_selection tick_of).empty; distributing = false }

abbrev three : JobTimer (by_selection (tick_of {J = ℕ}))
three =
    do_timer (by_selection tick_of) 100 1 50 7
      (reserve (by_selection tick_of) 100 10 2 8 (reserve (by_selection tick_of) 100 90 1 9 idle))

abbrev no_jobs : Queues ℕ
no_jobs = record { queue = λ q. record { jobs = []; job_count = 0 }; global = [] }

abbrev not_3 : ℕ → Bool
not_3 q = not (q == 3)

due_first : (distribute (by_selection tick_of) not_3 170 three no_jobs).1.global ≡ 2 ∷ 1 ∷ []
unfolding distribute take_expired push_all push count_push store_job global_push reserve do_timer
    select select_top select_pop by_selection
due_first = refl

distribute-due_example :
    Distributed
      (by_selection tick_of)
      not_3
      170
      three
      no_jobs
      (distribute (by_selection tick_of) not_3 170 three no_jobs)
distribute-due_example = distribute-due (by_selection tick_of) not_3 170 three no_jobs free
  where
    free : three.distributing ≡ false
    free = unfold reserve in unfold do_timer in refl
