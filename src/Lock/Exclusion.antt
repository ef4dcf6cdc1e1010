-- ===== src/Lock/Exclusion.antt =====
-- Mutual exclusion and progress of `SpinLock` in Source/ServerEngine/Lock/SpinLock.h.
use mathlib.Core.Option.{some-injective}
use iocp_multi_threading_cha.Prelude.{
  ℕ, ◌≤◌, ◌≡◌, ◌≢◌, refl, sym, ap, inl, inr, Bool, true, false, Option, none, some, Bool-cases, ◌⊎◌,
  arith,
}
use iocp_multi_threading_cha.Lock.{
  Pc, out, spinning, retrying, inside, SpinLock, acquire, exchange, load, unlock, Action,
  lock_first, lock_load, lock_retry, try_lock, release, step, Reachable, start, next,
}

abbrev pub is_inside : Pc → Bool
is_inside inside = true
is_inside _ = false

-- `spinCount`, where there is one.
abbrev pub spins : Pc → ℕ
spins (spinning count) = count
spins (retrying count) = count
spins _ = 0

-- The flag is set exactly while a thread has the lock, one thread at most has it, and no thread
-- spins past the bound.
pub record Exclusive (s : SpinLock) : Type 0 where
  pub taken : (t : ℕ) → is_inside (s.pc t) ≡ true → s.locked ≡ true
  pub one : (t u : ℕ) → is_inside (s.pc t) ≡ true → is_inside (s.pc u) ≡ true → t ≡ u
  pub holder : s.locked ≡ true → (t : ℕ) × (is_inside (s.pc t) ≡ true)
  pub bounded : (t : ℕ) → spins (s.pc t) ≤ 2048

exchange-Exclusive :
    (t : ℕ) (busy : Pc) (s : SpinLock)
    → Exclusive s
    → is_inside (s.pc t) ≡ false
    → is_inside busy ≡ false
    → spins busy ≤ 2048
    → Exclusive (exchange t busy s)
unfolding acquire
exchange-Exclusive t busy s o away busy_out l = elim (Bool-cases s.locked) [
  | inl e ↦
      let (u, in_u) = o.holder e in
      record {
        taken = λ v h. refl;
        one = λ v w h k. ground (arith, o.one v w, e, busy_out);
        holder = λ h. (u, ground (arith, e, in_u, away, busy_out));
        bounded = λ v. ground (arith, o.bounded v, e);
      }
  | inr e ↦ record {
    taken = λ v h. refl;
    one = λ v w h k. ground (arith, o.taken v, o.taken w, e);
    holder = λ h. (t, ground (arith, e));
    bounded = λ v. ground (arith, o.bounded v, e);
  }
]

unlock-Exclusive :
    (t : ℕ) (s : SpinLock) → Exclusive s → is_inside (s.pc t) ≡ true → Exclusive (unlock t s)
unlock-Exclusive t s o here = record {
  taken = λ v h. absurd (ground (arith, o.one t v, here, h));
  one = λ v w h k. absurd (ground (arith, o.one t v, here, h));
  holder = λ h. absurd (ground (arith, h));
  bounded = λ v. ground (arith, o.bounded v);
}

load-Exclusive :
    (t count : ℕ) (s : SpinLock)
    → Exclusive s
    → s.pc t ≡ spinning count
    → Exclusive (load t count s)
load-Exclusive t count s o at = record {
  taken = λ v. ground (arith, o.taken v, at);
  one = λ v w. ground (arith, o.one v w, at);
  holder = λ h. let (u, in_u) = o.holder h in (u, ground (arith, in_u, at));
  bounded = λ v. ground (arith, o.bounded v, o.bounded t, at);
}

inside-eq : (p : Pc) → is_inside p ≡ true → p ≡ inside
inside-eq inside e = refl
inside-eq out e = absurd (ground (arith, e))
inside-eq (spinning count) e = absurd (ground (arith, e))
inside-eq (retrying count) e = absurd (ground (arith, e))

led : {s s' : SpinLock} → Exclusive s → some s ≡ some s' → Exclusive s'
led {s} {s'} o e = rw (sym (some-injective s s' e)) o

within : {s : SpinLock} {t count : ℕ} → Exclusive s → s.pc t ≡ retrying count → count ≤ 2048
within {s} {t} o at = ground (arith, o.bounded t, at)

step-Exclusive :
    (a : Action) (p : Pc) (t : ℕ) (s s' : SpinLock)
    → Exclusive s
    → s.pc t ≡ p
    → step a p t s ≡ some s'
    → Exclusive s'
unfolding step
step-Exclusive lock_first out t s s' o at e =
    led (exchange-Exclusive t (spinning 0) s o (rw (at) refl) refl (omega arith)) e
step-Exclusive lock_load (spinning count) t s s' o at e = led (load-Exclusive t count s o at) e
step-Exclusive lock_retry (retrying count) t s s' o at e =
    led (exchange-Exclusive t (spinning count) s o (rw (at) refl) refl (within o at)) e
step-Exclusive try_lock out t s s' o at e =
    led (exchange-Exclusive t out s o (rw (at) refl) refl (omega arith)) e
step-Exclusive release inside t s s' o at e = led (unlock-Exclusive t s o (rw (at) refl)) e
step-Exclusive _ _ t s s' o at e = absurd (ground (arith, e))

-- However the steps of any number of threads interleave: the flag is set exactly while some thread
-- holds the lock, at most one thread holds it, and no thread's spin count passes 2048.
pub Reachable-Exclusive : (s : SpinLock) → Reachable s → Exclusive s
Reachable-Exclusive _ start = record {
  taken = λ t h. absurd (ground (arith, h));
  one = λ t u h. absurd (ground (arith, h));
  holder = λ h. absurd (ground (arith, h));
  bounded = λ t. omega arith;
}
Reachable-Exclusive s' (next {s} a t r e) =
    step-Exclusive a (s.pc t) t s s' (Reachable-Exclusive s r) refl e

-- A thread after another step.
abbrev pub then_step : Action → ℕ → Option SpinLock → Option SpinLock
then_step a t none = none
then_step a t (some s) = step a (s.pc t) t s

-- A thread in the loop of `Lock` is never stuck: in every state that an interleaving leads to, either
-- another thread can release the lock, or the thread gets it by its own next two steps, the load and
-- the exchange.
pub lock-progress :
    (s : SpinLock) (t count : ℕ)
    → Reachable s
    → s.pc t ≡ spinning count
    → ((u : ℕ) × (s' : SpinLock) × (u ≢ t)
        × (step release (s.pc u) u s ≡ some s')
        × (s'.locked ≡ false))
      ⊎ ((s' : SpinLock) × (then_step lock_retry t (step lock_load (s.pc t) t s) ≡ some s')
          × (s'.pc t ≡ inside))
unfolding step
lock-progress s t count r at = elim (Bool-cases s.locked) [
  | inl e ↦
      let (u, in_u) = (Reachable-Exclusive s r).holder e in
      let here = inside-eq (s.pc u) in_u in
      inl (u, unlock u s, λ same. absurd (ground (arith, here, at, same)), rw (here) refl, refl)
  | inr e ↦
      let there : (load t count s).pc t ≡ retrying count = ground (arith, e) in
      inr (
        exchange t (spinning count) (load t count s),
        rw (at) (ap (λ p. step lock_retry p t (load t count s)) there),
        ground (arith, e),
      )
]
