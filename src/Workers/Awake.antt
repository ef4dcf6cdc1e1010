-- ===== src/Workers/Awake.antt =====
-- The condition variable of Source/ServerEngine/Thread/ThreadPool.cpp: no worker sleeps through a task or through
-- `Stop`.
use mathlib.Core.Option.{some-injective}
use iocp_multi_threading_cha.Prelude.{
  ℕ, zero, suc, ◌+◌, ◌≤◌, ◌<◌, ◌≡◌, refl, sym, inl, inr, Bool, true, false, none, some, List, [],
  ◌∷◌, ◌++◌, ltb, ◌==◌, if◌then◌else◌, update, one_if, length, Bool-cases, arith,
}
use iocp_multi_threading_cha.Workers.{
  Worker, waiting, asleep, taken, running, gone, ThreadPool, start, enqueue, set_stop, roused,
  rouse, notify_every, wake, work, is_asleep, enqueues, notifies_one, notifies_none, stops,
  notifies_all, wakes_up, works, Reach, here, next,
}
use iocp_multi_threading_cha.Workers.Drained.{is_gone, tally, tally-update, InOrder, Reach-InOrder}

module _ {T : Type 0} where
  -- Neither asleep nor returned.
  abbrev pub is_awake : Worker T → Bool
  is_awake asleep = false
  is_awake gone = false
  is_awake _ = true

  -- A worker sleeps on after `Stop` only until its `notify_all`; and while tasks are queued, a worker is awake or a call
  -- of `notify_one` is still to come.
  pub record Alert (p : ThreadPool T) : Type 0 where
    pub some_worker : 0 < p.thread_count
    pub quiet : (i : ℕ) → is_asleep (p.worker i) ≡ true → p.stop ≡ true → p.notify_all ≡ true
    pub heard : 0 < length p.tasks → 0 < p.notify_ones + tally is_awake p.thread_count p.worker

  asleep_eq : (w : Worker T) → is_asleep w ≡ true → w ≡ asleep
  asleep_eq asleep h = refl
  asleep_eq waiting h = absurd (ground (arith, h))
  asleep_eq (taken task) h = absurd (ground (arith, h))
  asleep_eq (running task) h = absurd (ground (arith, h))
  asleep_eq gone h = absurd (ground (arith, h))

  roused-awake : (w : Worker T) → is_asleep (roused w) ≡ false
  roused-awake waiting = refl
  roused-awake asleep = refl
  roused-awake (taken task) = refl
  roused-awake (running task) = refl
  roused-awake gone = refl

  roused-le : (w : Worker T) → one_if (is_awake w) ≤ one_if (is_awake (roused w))
  roused-le waiting = omega arith
  roused-le asleep = omega arith
  roused-le (taken task) = omega arith
  roused-le (running task) = omega arith
  roused-le gone = omega arith

  up : (w : Worker T) → is_asleep w ≡ false → is_gone w ≡ false → is_awake w ≡ true
  up waiting a g = refl
  up asleep a g = absurd (ground (arith, a))
  up (taken task) a g = refl
  up (running task) a g = refl
  up gone a g = absurd (ground (arith, g))

  tally-le :
      (f : Worker T → Bool) (n : ℕ) (v w : ℕ → Worker T)
      → ((i : ℕ) → one_if (f (v i)) ≤ one_if (f (w i)))
      → tally f n v ≤ tally f n w
  tally-le f zero v w h = omega arith
  tally-le f (suc n) v w h = omega (arith, tally-le f n v w h, h n)

  tally-all :
      (f : Worker T → Bool) (n : ℕ) (w : ℕ → Worker T)
      → ((i : ℕ) → f (w i) ≡ true)
      → tally f n w ≡ n
  tally-all f zero w h = refl
  tally-all f (suc n) w h = rw (h n) (omega (arith, tally-all f n w h))

  start-Alert : (n m : ℕ) → Alert (start n m)
  start-Alert n m = record {
    some_worker = ground arith;
    quiet = λ i h s. absurd (ground (arith, h));
    heard = λ h. absurd (omega (arith, h));
  }

  enqueue-Alert : (task : T) (p : ThreadPool T) → Alert p → Alert (enqueue task p)
  unfolding enqueue
  enqueue-Alert task p a = go p.stop refl
    where
      accepting : ThreadPool T
      accepting = record p {
        tasks = p.tasks ++ (task ∷ []);
        accepted = p.accepted ++ (task ∷ []);
        notify_ones = p.notify_ones + 1;
      }

      go : (b : Bool) → p.stop ≡ b → Alert (if b then p else accepting)
      go true e = a
      go false e = record {
        some_worker = a.some_worker;
        quiet = λ i h s. absurd (ground (arith, s, e));
        heard = λ h. omega arith;
      }

  stop-Alert : (p : ThreadPool T) → Alert p → Alert (set_stop p)
  unfolding set_stop
  stop-Alert p a = go p.stop
    where
      go : (b : Bool) → Alert (if b then p else record p { stop = true; notify_all = true })
      go true = a
      go false = record { some_worker = a.some_worker; quiet = λ i h s. refl; heard = a.heard }

  not_asleep :
      (i j : ℕ) (w : ℕ → Worker T) (x : Worker T)
      → is_asleep x ≡ false
      → is_asleep (update w i x j) ≡ true
      → is_asleep (w j) ≡ true
  not_asleep i j w x e h = elim (Bool-cases (i == j)) [
    | inl same ↦ absurd (ground (arith, h, same, e))
    | inr other ↦ ground (arith, h, other)
  ]

  rouse-Alert : (i : ℕ) (p : ThreadPool T) → Alert p → Alert (rouse i p)
  rouse-Alert i p a = record {
    some_worker = a.some_worker;
    quiet = λ j h s. a.quiet j (not_asleep i j p.worker _ (roused-awake (p.worker i)) h) s;
    heard = λ h. ground (
      arith,
      a.heard h,
      tally-update is_awake p.thread_count i p.worker (roused (p.worker i)),
      roused-le (p.worker i),
    );
  }

  notifies_one-Alert :
      (i k : ℕ) (p : ThreadPool T)
      → ltb i p.thread_count ≡ true
      → is_asleep (p.worker i) ≡ true
      → Alert p
      → Alert (rouse i (record p { notify_ones = k }))
  notifies_one-Alert i k p l s a = record {
    some_worker = a.some_worker;
    quiet = λ j h t. a.quiet j (not_asleep i j p.worker _ (roused-awake (p.worker i)) h) t;
    heard = λ h. ground (
      arith,
      tally-update is_awake p.thread_count i p.worker (roused (p.worker i)),
      asleep_eq (p.worker i) s,
      l,
    );
  }

  notifies_none-Alert :
      (k : ℕ) (p : ThreadPool T)
      → ((i : ℕ) → is_asleep (p.worker i) ≡ false)
      → InOrder p
      → Alert p
      → Alert (record p { notify_ones = k })
  notifies_none-Alert k p none_sleeps o a = record {
    some_worker = a.some_worker;
    quiet = a.quiet;
    heard = λ h.
        let all =
          tally-all is_awake p.thread_count p.worker
            (λ i. up (p.worker i) (none_sleeps i) (there h i)) in
        omega (arith, all, a.some_worker);
  }
    where
      there : 0 < length p.tasks → (i : ℕ) → is_gone (p.worker i) ≡ false
      there h i = elim (Bool-cases (is_gone (p.worker i))) [
        | inl left ↦ absurd (ground (arith, (o.returned i left).1, h))
        | inr stays ↦ stays
      ]

  led : {p q : ThreadPool T} → Alert p → some p ≡ some q → Alert q
  led {p} {q} a e = rw (sym (some-injective p q e)) a

  notify_every-Alert : (p q : ThreadPool T) → Alert p → notify_every p ≡ some q → Alert q
  unfolding notify_every
  notify_every-Alert p q a e = go p.notify_all e
    where
      roused_all : ThreadPool T
      roused_all = record p { notify_all = false; worker = λ i. roused (p.worker i) }

      go : (b : Bool) → (if b then some roused_all else none) ≡ some q → Alert q
      go true e' =
          led
            (record {
              some_worker = a.some_worker;
              quiet = λ i h s. absurd (ground (arith, h, roused-awake (p.worker i)));
              heard = λ h. omega (
                arith,
                a.heard h,
                tally-le is_awake p.thread_count p.worker (λ i. roused (p.worker i))
                    (λ i. roused-le (p.worker i)),
              );
            })
            e'
      go false e' = absurd (ground (arith, e'))

  wake-Alert :
      (i : ℕ) (tasks : List T) (p : ThreadPool T)
      → p.worker i ≡ waiting
      → p.tasks ≡ tasks
      → Alert p
      → Alert (wake i tasks p)
  unfolding wake
  wake-Alert i [] p at e a = go p.stop refl
    where
      go :
          (b : Bool)
          → p.stop ≡ b
          → Alert (record p { worker = update p.worker i (if b then gone else asleep) })
      go true stopped = record {
        some_worker = a.some_worker;
        quiet = λ j h s. a.quiet j (not_asleep i j p.worker gone refl h) s;
        heard = λ h. absurd (ground (arith, h, e));
      }
      go false on = record {
        some_worker = a.some_worker;
        quiet = λ j h s. absurd (ground (arith, s, on));
        heard = λ h. absurd (ground (arith, h, e));
      }
  wake-Alert i (task ∷ rest) p at e a = record {
    some_worker = a.some_worker;
    quiet = λ j h s. a.quiet j (not_asleep i j p.worker (taken task) refl h) s;
    heard = λ h. ground (
      arith,
      a.heard (ground (arith, e)),
      tally-update is_awake p.thread_count i p.worker (taken task),
      at,
    );
  }

  work-Alert :
      (i : ℕ) (x : Worker T) (p q : ThreadPool T)
      → p.worker i ≡ x
      → Alert p
      → work i x p ≡ some q
      → Alert q
  unfolding work
  work-Alert i waiting p q at a w = led (wake-Alert i p.tasks p at refl a) w
  work-Alert i asleep p q at a w = absurd (ground (arith, w))
  work-Alert i (taken task) p q at a w =
      led
        (record {
          some_worker = a.some_worker;
          quiet = λ j h s. a.quiet j (not_asleep i j p.worker (running task) refl h) s;
          heard = λ h. ground (
            arith,
            a.heard h,
            tally-update is_awake p.thread_count i p.worker (running task),
            at,
          );
        })
        w
  work-Alert i (running task) p q at a w =
      led
        (record {
          some_worker = a.some_worker;
          quiet = λ j h s. a.quiet j (not_asleep i j p.worker waiting refl h) s;
          heard = λ h.
              ground
                (arith, a.heard h, tally-update is_awake p.thread_count i p.worker waiting, at);
        })
        w
  work-Alert i gone p q at a w = absurd (ground (arith, w))

  -- However tasks are enqueued, workers run, sleep and are notified and the pool is stopped, no wake-up is lost: while
  -- tasks are queued, a worker is awake or a call of `notify_one` is still to come; and once the pool stops, a
  -- worker sleeps only while `notify_all` is still to come.
  pub Reach-Alert : (n m : ℕ) (p : ThreadPool T) → Reach (start n m) p → Alert p
  Reach-Alert n m _ here = start-Alert n m
  Reach-Alert n m _ (next {q} r (enqueues task)) = enqueue-Alert task q (Reach-Alert n m q r)
  Reach-Alert n m _ (next {q} r (notifies_one i k e l s)) =
      notifies_one-Alert i k q l s (Reach-Alert n m q r)
  Reach-Alert n m _ (next {q} r (notifies_none k e s)) =
      notifies_none-Alert k q s (Reach-InOrder n m q r) (Reach-Alert n m q r)
  Reach-Alert n m _ (next {q} r stops) = stop-Alert q (Reach-Alert n m q r)
  Reach-Alert n m p (next {q} r (notifies_all _ e)) = notify_every-Alert q p (Reach-Alert n m q r) e
  Reach-Alert n m _ (next {q} r (wakes_up i)) = rouse-Alert i q (Reach-Alert n m q r)
  Reach-Alert n m p (next {q} r (works i _ l w)) =
      work-Alert i (q.worker i) q p refl (Reach-Alert n m q r) w
