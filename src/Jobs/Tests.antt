-- ===== src/Jobs/Tests.antt =====
-- Two workers and one queue: a job is pushed, and the first worker takes it.
use iocp_multi_threading_cha.Prelude.{
  update, occurs, ℕ, ◌+◌, ◌≡◌, refl, [], ◌∷◌, ◌++◌, ◌==◌, if◌then◌else◌, length, arith,
}
use iocp_multi_threading_cha.Jobs.{count_push, store_job, global_push, global_pop}
use iocp_multi_threading_cha.Jobs.System.{
  out, popped, quiet, Shared, begin_push, store, announce, pop, System, step, Reach, here, next,
  init, idle, idle_threads, set_queue, total, Few, counted, register,
}
use iocp_multi_threading_cha.Jobs.Tokens.{executes, token}
use iocp_multi_threading_cha.Jobs.Actor.{single_executor, scheduled_once, quiescent}
use iocp_multi_threading_cha.Jobs.Order.{todos, fifo}

abbrev counted_mem : Shared ℕ
counted_mem = set_queue (init 2).mem 0 (record { jobs = []; job_count = 1 })

abbrev stored_mem : Shared ℕ
stored_mem = record (set_queue counted_mem 0 (record { jobs = 7 ∷ []; job_count = 1 })) {
  given = update counted_mem.given 0 (7 ∷ []);
}

abbrev announced_mem : Shared ℕ
announced_mem = record stored_mem { global = 0 ∷ [] }

abbrev popped_mem : Shared ℕ
popped_mem = record announced_mem { global = [] }

abbrev waiting : System ℕ
waiting = record { mem = announced_mem; threads = idle_threads 2 }

abbrev taken : System ℕ
taken = record { mem = popped_mem; threads = record { exec = popped 0; push = quiet } ∷ idle ∷ [] }

counted_Few : Few (record {
  mem = counted_mem;
  threads = record { exec = out; push = counted 0 7 0 } ∷ idle ∷ [];
})
counted_Few q = ground arith

stored_Few :
    Few
      (record { mem = stored_mem; threads = record { exec = out; push = register 0 } ∷ idle ∷ [] })
stored_Few q = ground arith

waiting-Few : Few waiting
waiting-Few q = ground arith

taken-Few : Few taken
taken-Few q = ground arith

waiting-Reach : Reach (init 2) waiting
unfolding count_push store_job global_push
waiting-Reach =
    next
      (next (next here (step [] (idle ∷ []) refl (begin_push out 0 7)) counted_Few)
        (step [] (idle ∷ []) refl (store out 0 7 0)) stored_Few)
      (step [] (idle ∷ []) refl (announce out 0)) waiting-Few

taken-Reach : Reach (init 2) taken
unfolding global_pop
taken-Reach = next waiting-Reach (step [] (idle ∷ []) refl (pop 0 [] refl)) taken-Few

single_executor_example :
    (total (λ u. executes {J = ℕ} 0 u.exec) ([] ++ (idle ∷ [])) ≡ 0)
    × (occurs 0 taken.mem.global ≡ 0)
single_executor_example =
    single_executor 2 0 {s = taken} [] (idle ∷ []) (record { exec = popped 0; push = quiet })
      taken-Reach refl refl

scheduled_once_example : occurs 0 taken.mem.global + total (token 0) taken.threads ≡ 1
scheduled_once_example = scheduled_once 2 0 {s = taken} taken-Reach (omega arith)

quiescent_example :
    ((waiting.mem.queue 0).job_count ≡ length (waiting.mem.queue 0).jobs)
    × (occurs 0 waiting.mem.global ≡ (if length (waiting.mem.queue 0).jobs == 0 then 0 else 1))
quiescent_example = quiescent 2 2 0 {s = waiting} waiting-Reach refl

fifo_example :
    taken.mem.given 0 ≡ taken.mem.started 0 ++ (todos 0 taken.threads ++ (taken.mem.queue 0).jobs)
fifo_example = fifo 2 0 {s = taken} taken-Reach
