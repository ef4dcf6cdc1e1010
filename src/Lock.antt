-- ===== src/Lock.antt =====
-- The spin lock: Source/ServerEngine/Lock/SpinLock.h. `_locked` is an atomic flag; each operation of a
-- thread on it is one step, and a thread's place in the code is its `Pc`. A thread is a number.
pub mod Exclusion
mod Tests
use iocp_multi_threading_cha.Prelude.{
  ℕ, suc, ◌≡◌, Bool, true, false, Option, none, some, ltb, if◌then◌else◌, update,
}

-- Outside; in the inner loop of `Lock` with its `spinCount`; past that loop; or with the lock.
pub data Pc : Type 0 where
  out : Pc
  spinning : ℕ → Pc
  retrying : ℕ → Pc
  inside : Pc

pub record SpinLock : Type 0 where
  pub locked : Bool
  pub pc : ℕ → Pc

-- `SpinLock::SpinLock`, before any thread comes.
abbrev pub unlocked : SpinLock
unlocked = record { locked = false; pc = λ t. out }

-- Where `exchange(true)` leads, by the value it returns.
unfoldable pub acquire : Bool → Pc → Pc
acquire true busy = busy
acquire false busy = inside

-- `_locked.exchange(true)` of thread `t`, which goes to `busy` if the lock was taken.
abbrev pub exchange : ℕ → Pc → SpinLock → SpinLock
exchange t busy s = record { locked = true; pc = update s.pc t (acquire s.locked busy) }

-- `++spinCount` and the test against 2048 with its reset, on a variable that only its thread sees.
abbrev pub spin : ℕ → ℕ
spin count = if ltb 2048 (suc count) then 0 else suc count

-- `_locked.load()` of the inner loop.
abbrev pub load : ℕ → ℕ → SpinLock → SpinLock
load t count s = record s {
  pc = update s.pc t (if s.locked then spinning (spin count) else retrying count);
}

-- `SpinLock::Unlock`.
abbrev pub unlock : ℕ → SpinLock → SpinLock
unlock t s = record { locked = false; pc = update s.pc t out }

pub data Action : Type 0 where
  lock_first : Action
  lock_load : Action
  lock_retry : Action
  try_lock : Action
  release : Action

-- A step of thread `t`, if it is where the step begins. Only a thread with the lock unlocks it, as the
-- guards do.
unfoldable pub step : Action → Pc → ℕ → SpinLock → Option SpinLock
unfolding acquire
step lock_first out t s = some (exchange t (spinning 0) s)
step lock_load (spinning count) t s = some (load t count s)
step lock_retry (retrying count) t s = some (exchange t (spinning count) s)
step try_lock out t s = some (exchange t out s)
step release inside t s = some (unlock t s)
step _ _ t s = none

-- The states that some interleaving of the threads' steps leads to.
pub data Reachable : SpinLock → Type 0 where
  start : Reachable unlocked
  next :
      {s s' : SpinLock} (a : Action) (t : ℕ)
      → Reachable s
      → step a (s.pc t) t s ≡ some s'
      → Reachable s'
