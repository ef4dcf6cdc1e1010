-- ===== src/Workers.antt =====
-- The pool of worker threads: Source/ServerEngine/Thread/ThreadPool.h and ThreadPool.cpp. A worker is a
-- number below `thread_count`. Each critical section, each atomic operation on the busy count and each call
-- that notifies the condition variable is one step. A task is any value; what it does shows only through
-- the tasks that it enqueues. Whoever has left a critical section and has still to notify is counted.
pub mod Drained
pub mod Ends
pub mod Awake
mod Tests
use iocp_multi_threading_cha.Prelude.{
  ℕ, zero, suc, ◌+◌, ◌-◌, ◌%◌, ◌≡◌, Bool, true, false, not, ◌&&◌, Option, none, some, List, [], ◌∷◌,
  ◌++◌, ltb, ◌==◌, if◌then◌else◌, update, length,
}

-- Where a worker is in `WorkerLoop`: about to look at the predicate of `_cv.wait`, or asleep in it; with a task,
-- before and after `_busyThreads` counts it; or returned.
pub data Worker (T : Type 0) : Type 0 where
  waiting : Worker T
  asleep : Worker T
  taken : T → Worker T
  running : T → Worker T
  gone : Worker T

-- `accepted` and `begun` are the tasks that `Enqueue` has put into the queue and that workers have
-- taken out, in order.
pub record ThreadPool (T : Type 0) : Type 0 where
  pub thread_count : ℕ
  pub worker : ℕ → Worker T
  pub tasks : List T
  pub stop : Bool
  pub notify_ones : ℕ  -- calls of `Enqueue` before `notify_one`
  pub notify_all : Bool  -- `Stop` before `notify_all`
  pub busy_threads : ℕ
  pub accepted : List T
  pub begun : List T

-- The number of workers that `Start` makes, on a machine with so many processors.
abbrev pub worker_count : ℕ → ℕ → ℕ
worker_count thread_count processors =
    if thread_count == 0 then if processors == 0 then 4 else processors else thread_count

-- A pool after the constructor's `Start`.
abbrev pub start : {T : Type 0} → ℕ → ℕ → ThreadPool T
start thread_count processors = record {
  thread_count = worker_count thread_count processors;
  worker = λ i. waiting;
  tasks = [];
  stop = false;
  notify_ones = 0;
  notify_all = false;
  busy_threads = 0;
  accepted = [];
  begun = [];
}

module _ {T : Type 0} where
  -- `ThreadPool::Enqueue`, up to `notify_one`.
  unfoldable pub enqueue : T → ThreadPool T → ThreadPool T
  enqueue task p = if p.stop then p else record p {
    tasks = p.tasks ++ (task ∷ []);
    accepted = p.accepted ++ (task ∷ []);
    notify_ones = p.notify_ones + 1;
  }

  -- The first part of `ThreadPool::Stop`, up to `notify_all`.
  unfoldable pub set_stop : ThreadPool T → ThreadPool T
  set_stop p = if p.stop then p else record p { stop = true; notify_all = true }

  -- A worker that is notified.
  abbrev pub roused : Worker T → Worker T
  roused asleep = waiting
  roused w = w

  abbrev pub rouse : ℕ → ThreadPool T → ThreadPool T
  rouse i p = record p { worker = update p.worker i (roused (p.worker i)) }

  -- `_cv.notify_all()` of `Stop`. What follows waits until the workers have returned.
  unfoldable pub notify_every : ThreadPool T → Option (ThreadPool T)
  notify_every p =
      if p.notify_all
      then some (record p { notify_all = false; worker = λ i. roused (p.worker i) })
      else none

  -- A worker looks at the predicate `_stop || !_tasks.empty()`, with the tasks: it returns, sleeps or
  -- takes the first task.
  unfoldable pub wake : ℕ → List T → ThreadPool T → ThreadPool T
  wake i [] p = record p { worker = update p.worker i (if p.stop then gone else asleep) }
  wake i (task ∷ rest) p = record p {
    worker = update p.worker i (taken task);
    tasks = rest;
    begun = p.begun ++ (task ∷ []);
  }

  -- A step of a worker: to look at the predicate, to count itself busy, or to end its task. One that sleeps has to
  -- be notified.
  unfoldable pub work : ℕ → Worker T → ThreadPool T → Option (ThreadPool T)
  unfolding wake
  work i waiting p = some (wake i p.tasks p)
  work i asleep p = none
  work i (taken task) p = some (record p {
    worker = update p.worker i (running task);
    busy_threads = (p.busy_threads + 1) % 4294967296;
  })
  work i (running task) p = some (record p {
    worker = update p.worker i waiting;
    busy_threads = (p.busy_threads + 4294967295) % 4294967296;
  })
  work i gone p = none

  unfoldable pub get_pending_task_count : ThreadPool T → ℕ
  get_pending_task_count p = length p.tasks

  abbrev pub is_asleep : Worker T → Bool
  is_asleep asleep = true
  is_asleep _ = false

  -- The states that some interleaving leads to. `notify_one` wakes a worker that sleeps, whichever, if there is one;
  -- a worker may also wake up without it.
  pub data Step (p : ThreadPool T) : ThreadPool T → Type 0 where
    enqueues : (task : T) → Step p (enqueue task p)
    notifies_one :
        (i n : ℕ)
        → p.notify_ones ≡ suc n
        → ltb i p.thread_count ≡ true
        → is_asleep (p.worker i) ≡ true
        → Step p (rouse i (record p { notify_ones = n }))
    notifies_none :
        (n : ℕ)
        → p.notify_ones ≡ suc n
        → ((i : ℕ) → is_asleep (p.worker i) ≡ false)
        → Step p (record p { notify_ones = n })
    stops : Step p (set_stop p)
    notifies_all : (q : ThreadPool T) → notify_every p ≡ some q → Step p q
    wakes_up : (i : ℕ) → Step p (rouse i p)
    works :
        (i : ℕ) (q : ThreadPool T)
        → ltb i p.thread_count ≡ true
        → work i (p.worker i) p ≡ some q
        → Step p q

  pub data Reach (p : ThreadPool T) : ThreadPool T → Type 0 where
    here : Reach p p
    next : {q r : ThreadPool T} → Reach p q → Step q r → Reach p r
