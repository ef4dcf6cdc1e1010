-- ===== src/Timer.antt =====
-- Timed jobs: Source/ServerEngine/Job/JobTimer.h and JobTimer.cpp, with `JobQueue::Push` and
-- `JobQueue::DoTimer` of JobQueue.cpp. A job queue is a number; whether one still exists, which
-- `owner.lock()` asks, is a parameter, and so is `GetTickCount64`.
pub mod Item
pub mod Heap
pub mod Due
mod Tests
use iocp_multi_threading_cha.Prelude.{
  ℕ, zero, suc, ◌+◌, ◌%◌, Bool, true, false, Option, none, some, List, [], ◌∷◌, ◌++◌, ltb,
  if◌then◌else◌, update,
}
use iocp_multi_threading_cha.Jobs.{
  JobQueue, GlobalQueue, count_push, store_job, must_register, global_push,
}
use iocp_multi_threading_cha.Timer.Item.{TimerItem, tick_of}
use iocp_multi_threading_cha.Timer.Heap.{PriorityQueue}

-- The job queues that timers push to, and the global queue.
pub record Queues (J : Type 0) : Type 0 where
  pub queue : ℕ → JobQueue J
  pub global : GlobalQueue

module _ {J : Type 0} where
  -- `JobQueue::Push(job)` of queue `q`, as one thread runs it.
  unfoldable pub push : ℕ → J → Queues J → Queues J
  unfolding count_push store_job global_push
  push q job s =
      let (prev_count, counted) = count_push (s.queue q) in
      record {
        queue = update s.queue q (store_job counted job);
        global = if must_register prev_count false then global_push s.global q else s.global;
      }

  -- The loop over `expiredItems`.
  unfoldable pub push_all : (ℕ → Bool) → List (TimerItem J) → Queues J → Queues J
  unfolding push
  push_all exists [] s = s
  push_all exists (item ∷ items) s =
      push_all exists items (if exists item.owner then push item.owner item.job s else s)

module _ {J : Type 0} (pq : PriorityQueue (tick_of {J = J})) where
  -- `_items` and `_distributing`.
  pub record JobTimer : Type 0 where
    pub items : pq.Queue
    pub distributing : Bool

  -- `JobTimer::Reserve` at `tick`.
  unfoldable pub reserve : ℕ → ℕ → ℕ → J → JobTimer → JobTimer
  reserve tick after_ms owner job t =
      let item : TimerItem J = record {
        execute_tick = (tick + after_ms) % 18446744073709551616;
        owner = owner;
        job = job;
      } in
      record t { items = pq.push item t.items }

  -- `JobQueue::DoTimer` of queue `q`.
  unfoldable pub do_timer : ℕ → ℕ → ℕ → J → JobTimer → JobTimer
  unfolding reserve
  do_timer tick q after_ms callback t = reserve tick after_ms q callback t

  -- The `while` of `Distribute`, on fuel: the expired items and the items left.
  unfoldable pub take_expired : ℕ → ℕ → pq.Queue → List (TimerItem J) × pq.Queue
  take_expired zero now items = ([], items)
  take_expired (suc fuel) now items = elim (pq.top items) [
    | none ↦ ([], items)
    | some item ↦
        let (expired, left) = take_expired fuel now (pq.pop items) in
        if ltb now item.execute_tick then ([], items) else (item ∷ expired, left)
  ]

  -- `JobTimer::Distribute`.
  unfoldable pub distribute : (ℕ → Bool) → ℕ → JobTimer → Queues J → JobTimer × Queues J
  unfolding take_expired push_all
  distribute exists now t s =
      if t.distributing
      then (t, s)
      else let (expired, left) = take_expired (pq.total (λ item. 1) t.items) now t.items in
        (record { items = left; distributing = false }, push_all exists expired s)

  -- The `while` of `Clear`, on fuel.
  unfoldable pub pop_all : ℕ → pq.Queue → pq.Queue
  pop_all zero items = items
  pop_all (suc fuel) items = elim (pq.top items) [
    | none ↦ items
    | some item ↦ pop_all fuel (pq.pop items)
  ]

  -- `JobTimer::Clear`.
  unfoldable pub clear : JobTimer → JobTimer
  unfolding pop_all
  clear t = record t { items = pop_all (pq.total (λ item. 1) t.items) t.items }
