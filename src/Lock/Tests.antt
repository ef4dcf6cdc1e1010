-- ===== src/Lock/Tests.antt =====
-- Two threads at the spin lock, and witnesses.
use iocp_multi_threading_cha.Prelude.{ℕ, ◌≡◌, ◌≢◌, ◌⊎◌, refl, false, some}
use iocp_multi_threading_cha.Lock.{
  spinning, inside, SpinLock, unlocked, acquire, exchange, unlock, lock_first, lock_load,
  lock_retry, release, step, Reachable, start, next,
}
use iocp_multi_threading_cha.Lock.Exclusion.{
  Exclusive, then_step, Reachable-Exclusive, lock-progress,
}

abbrev one_in : SpinLock
one_in = exchange 1 (spinning 0) unlocked

-- Thread 1 has the lock, and thread 2 waits.
abbrev one_waits : SpinLock
one_waits = exchange 2 (spinning 0) one_in

one_in-Reachable : Reachable one_in
unfolding step acquire
one_in-Reachable = next lock_first 1 start refl

one_waits-Reachable : Reachable one_waits
unfolding step acquire
one_waits-Reachable = next lock_first 2 one_in-Reachable refl

-- The lock is free again, and thread 2 has not seen it.
abbrev one_left : SpinLock
one_left = unlock 1 one_waits

one_left-Reachable : Reachable one_left
unfolding step acquire
one_left-Reachable = next release 1 one_waits-Reachable refl

at_2 : one_left.pc 2 ≡ spinning 0
unfolding acquire
at_2 = refl

Reachable-Exclusive_example : Exclusive one_waits
Reachable-Exclusive_example = Reachable-Exclusive one_waits one_waits-Reachable

lock-progress_example :
    ((u : ℕ) × (s' : SpinLock) × (u ≢ 2)
      × (step release (one_left.pc u) u one_left ≡ some s')
      × (s'.locked ≡ false))
    ⊎ ((s' : SpinLock) × (then_step lock_retry 2 (step lock_load (one_left.pc 2) 2 one_left)
          ≡ some s')
        × (s'.pc 2 ≡ inside))
lock-progress_example = lock-progress one_left 2 0 one_left-Reachable at_2
