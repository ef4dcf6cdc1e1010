-- ===== src/Jobs.antt =====
-- Actor queues: `JobQueue` and `GlobalQueue` of Source/ServerEngine/Job/JobQueue.h, JobQueue.cpp,
-- GlobalQueue.h and GlobalQueue.cpp, and the worker loop of Source/ChatServer/Main.cpp that pops and
-- executes them. A job is any value; what it does shows only through the pushes that it makes.
-- `_jobCount` is an `int32`, kept as its 32 bits. Each function here is one atomic operation or one critical section of the code.
pub mod System
pub mod Tokens
pub mod Actor
pub mod Order
mod Tests
use iocp_multi_threading_cha.Prelude.{
  ℕ, ◌+◌, ◌-◌, ◌%◌, Bool, not, ◌&&◌, Option, none, some, List, [], ◌∷◌, ◌++◌, ◌==◌, length, take,
  drop,
}

pub record JobQueue (J : Type 0) : Type 0 where
  pub jobs : List J
  pub job_count : ℕ

abbrev pub max_execute_count : ℕ
max_execute_count = 64

-- Whether `Push` goes on to `GlobalQueue::Push`.
abbrev pub must_register : ℕ → Bool → Bool
must_register prev_count push_only = prev_count == 0 && not push_only

module _ {J : Type 0} where
  -- `_jobCount.fetch_add(1)`: the previous count beside the queue.
  unfoldable pub count_push : JobQueue J → ℕ × JobQueue J
  count_push q = (q.job_count, record q { job_count = (q.job_count + 1) % 4294967296 })

  -- `_jobs.push(job)` under the lock.
  unfoldable pub store_job : JobQueue J → J → JobQueue J
  store_job q job = record q { jobs = q.jobs ++ (job ∷ []) }

  -- The first critical section of `Execute`: the batch and what stays queued.
  unfoldable pub take_batch : JobQueue J → List J × JobQueue J
  take_batch q = (take max_execute_count q.jobs, record q { jobs = drop max_execute_count q.jobs })

  -- `_jobCount.fetch_sub(executedCount) - executedCount`: what remains, beside the queue.
  unfoldable pub subtract_executed : JobQueue J → ℕ → ℕ × JobQueue J
  subtract_executed q executed =
      let remain = (q.job_count + 4294967296 - executed % 4294967296) % 4294967296 in
      (remain, record q { job_count = remain })

  unfoldable pub clear : JobQueue J → JobQueue J
  clear q = record { jobs = []; job_count = 0 }

-- `GlobalQueue`, a FIFO of queues by their identity.
abbrev pub GlobalQueue : Type 0
GlobalQueue = List ℕ

unfoldable pub global_push : GlobalQueue → ℕ → GlobalQueue
global_push g q = g ++ (q ∷ [])

unfoldable pub global_pop : GlobalQueue → Option ℕ × GlobalQueue
global_pop [] = (none, [])
global_pop (q ∷ g) = (some q, g)

unfoldable pub get_count : GlobalQueue → ℕ
get_count g = length g
