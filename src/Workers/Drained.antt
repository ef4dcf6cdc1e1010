-- ===== src/Workers/Drained.antt =====
-- The tasks of `ThreadPool` in Source/ServerEngine/Thread/ThreadPool.cpp: each is run once, in order, and
-- none that was accepted is left when a worker has returned.
use mathlib.Core.Option.{some-injective}
use iocp_multi_threading_cha.Prelude.{
  ℕ, zero, suc, ◌+◌, ◌%◌, ◌≡◌, ◌∙◌, refl, sym, ap, inl, inr, Bool, true, false, none, some, List,
  [], ◌∷◌, ◌++◌, append_assoc, ltb, ◌==◌, if◌then◌else◌, update, one_if, ◌⊎◌, ==_iff, Bool-cases,
  arith,
}
use iocp_multi_threading_cha.Workers.{
  Worker, waiting, asleep, taken, running, gone, ThreadPool, start, enqueue, set_stop, roused,
  rouse, notify_every, wake, work, enqueues, notifies_one, notifies_none, stops, notifies_all,
  wakes_up, works, Reach, here, next,
}

module _ {T : Type 0} where
  abbrev pub is_running : Worker T → Bool
  is_running (running task) = true
  is_running _ = false

  abbrev pub is_gone : Worker T → Bool
  is_gone gone = true
  is_gone _ = false

  -- The workers below `n` that `f` holds of.
  abbrev pub tally : (Worker T → Bool) → ℕ → (ℕ → Worker T) → ℕ
  tally f zero w = 0
  tally f (suc n) w = tally f n w + one_if (f (w n))

  pub tally-update :
      (f : Worker T → Bool) (n i : ℕ) (w : ℕ → Worker T) (x : Worker T)
      → tally f n (update w i x) + (if ltb i n then one_if (f (w i)) else 0)
        ≡ tally f n w + (if ltb i n then one_if (f x) else 0)
  tally-update f zero i w x = ground arith
  tally-update f (suc n) i w x = elim (Bool-cases (i == n)) [
    | inl e ↦ let e' : i ≡ n = ground (arith, e) in ground (arith, tally-update f n i w x, e')
    | inr e ↦ ground (arith, tally-update f n i w x, e)
  ]

  -- The tasks accepted are those begun and then those queued; the busy count is the number of workers
  -- at a task; and a worker has returned only if the pool stops and no task is queued.
  pub record InOrder (p : ThreadPool T) : Type 0 where
    pub order : p.accepted ≡ p.begun ++ p.tasks
    pub busy : p.busy_threads ≡ tally is_running p.thread_count p.worker % 4294967296
    pub returned : (i : ℕ) → is_gone (p.worker i) ≡ true → (p.stop ≡ true) × (p.tasks ≡ [])

  start-InOrder : (n m : ℕ) → InOrder (start n m)
  start-InOrder n m = record {
    order = refl;
    busy = ap (λ x. x % 4294967296) (sym (none_run _));
    returned = λ i h. absurd (ground (arith, h));
  }
    where
      none_run : (n : ℕ) → tally is_running n (λ i. waiting) ≡ 0
      none_run zero = refl
      none_run (suc n) = omega (arith, none_run n)

  enqueue-InOrder : (task : T) (p : ThreadPool T) → InOrder p → InOrder (enqueue task p)
  unfolding enqueue
  enqueue-InOrder task p o = go p.stop refl
    where
      accepting : ThreadPool T
      accepting = record p {
        tasks = p.tasks ++ (task ∷ []);
        accepted = p.accepted ++ (task ∷ []);
        notify_ones = p.notify_ones + 1;
      }

      go : (b : Bool) → p.stop ≡ b → InOrder (if b then p else accepting)
      go true e = o
      go false e = record {
        order = ap (λ l. l ++ (task ∷ [])) o.order ∙ append_assoc p.begun p.tasks (task ∷ []);
        busy = o.busy;
        returned = λ i h. absurd (ground (arith, (o.returned i h).0, e));
      }

  stop-InOrder : (p : ThreadPool T) → InOrder p → InOrder (set_stop p)
  unfolding set_stop
  stop-InOrder p o = go p.stop refl
    where
      stopping : ThreadPool T
      stopping = record p { stop = true; notify_all = true }

      go : (b : Bool) → p.stop ≡ b → InOrder (if b then p else stopping)
      go true e = o
      go false e = record {
        order = o.order;
        busy = o.busy;
        returned = λ i h. (refl, (o.returned i h).1);
      }

  -- To be notified puts no worker to a task, and lets none return.
  roused-running : (w : Worker T) → is_running (roused w) ≡ is_running w
  roused-running waiting = refl
  roused-running asleep = refl
  roused-running (taken task) = refl
  roused-running (running task) = refl
  roused-running gone = refl

  pub roused-gone : (w : Worker T) → is_gone (roused w) ≡ is_gone w
  roused-gone waiting = refl
  roused-gone asleep = refl
  roused-gone (taken task) = refl
  roused-gone (running task) = refl
  roused-gone gone = refl

  pub tally-same :
      (f : Worker T → Bool) (n : ℕ) (v w : ℕ → Worker T)
      → ((i : ℕ) → f (v i) ≡ f (w i))
      → tally f n v ≡ tally f n w
  tally-same f zero v w h = refl
  tally-same f (suc n) v w h = rw (tally-same f n v w h, h n) refl

  -- Workers that are notified, or not, keep the order.
  roused-InOrder :
      (p q : ThreadPool T)
      → q.accepted ≡ p.accepted
      → q.begun ≡ p.begun
      → q.tasks ≡ p.tasks
      → q.stop ≡ p.stop
      → q.busy_threads ≡ p.busy_threads
      → q.thread_count ≡ p.thread_count
      → ((i : ℕ) → (q.worker i ≡ p.worker i) ⊎ (q.worker i ≡ roused (p.worker i)))
      → InOrder p
      → InOrder q
  roused-InOrder p q a b t s c n w o = record {
    order = a ∙ o.order ∙ sym (rw (b, t) refl);
    busy =
        c
        ∙ o.busy
        ∙ ap (λ x. x % 4294967296)
            (sym (rw (n) (tally-same is_running p.thread_count q.worker p.worker runs)));
    returned = λ i h. (s ∙ (o.returned i (left i h)).0, t ∙ (o.returned i (left i h)).1);
  }
    where
      runs : (i : ℕ) → is_running (q.worker i) ≡ is_running (p.worker i)
      runs i = elim (w i) [
        | inl same ↦ ap is_running same
        | inr up ↦ ap is_running up ∙ roused-running (p.worker i)
      ]

      left : (i : ℕ) → is_gone (q.worker i) ≡ true → is_gone (p.worker i) ≡ true
      left i h = elim (w i) [
        | inl same ↦ ap is_gone (sym same) ∙ h
        | inr up ↦ sym (roused-gone (p.worker i)) ∙ ap is_gone (sym up) ∙ h
      ]

  pub rouse-either :
      (i j : ℕ) (w : ℕ → Worker T)
      → (update w i (roused (w i)) j ≡ w j) ⊎ (update w i (roused (w i)) j ≡ roused (w j))
  rouse-either i j w = elim (Bool-cases (i == j)) [
    | inl same ↦ inr (
        ap (λ b. if b then roused (w i) else w j) same
        ∙ ap (λ x. roused (w x)) ((==_iff i j).0 same))
    | inr other ↦ inl (ap (λ b. if b then roused (w i) else w j) other)
  ]

  led : {p q : ThreadPool T} → InOrder p → some p ≡ some q → InOrder q
  led {p} {q} o e = rw (sym (some-injective p q e)) o

  wake-InOrder :
      (i : ℕ) (tasks : List T) (p : ThreadPool T)
      → InOrder p
      → p.worker i ≡ waiting
      → ltb i p.thread_count ≡ true
      → p.tasks ≡ tasks
      → InOrder (wake i tasks p)
  unfolding wake
  wake-InOrder i [] p o at l e = go p.stop refl
    where
      go :
          (b : Bool)
          → p.stop ≡ b
          → InOrder (record p { worker = update p.worker i (if b then gone else asleep) })
      go true stopped = record {
        order = o.order;
        busy =
            ground (arith, tally-update is_running p.thread_count i p.worker gone, o.busy, at, l);
        returned = λ j h. (stopped, e);
      }
      go false on = record {
        order = o.order;
        busy =
            ground (arith, tally-update is_running p.thread_count i p.worker asleep, o.busy, at, l);
        returned = λ j h. o.returned j (ground (arith, h));
      }
  wake-InOrder i (task ∷ rest) p o at l e = record {
    order = o.order ∙ ap (λ t. p.begun ++ t) e ∙ sym (append_assoc p.begun (task ∷ []) rest);
    busy =
        ground
          (arith, tally-update is_running p.thread_count i p.worker (taken task), o.busy, at, l);
    returned = λ j h. absurd (ground (arith, (o.returned j (ground (arith, h))).1, e));
  }

  work-InOrder :
      (i : ℕ) (x : Worker T) (p q : ThreadPool T)
      → InOrder p
      → p.worker i ≡ x
      → ltb i p.thread_count ≡ true
      → work i x p ≡ some q
      → InOrder q
  unfolding work
  work-InOrder i waiting p q o at l w = led (wake-InOrder i p.tasks p o at l refl) w
  work-InOrder i asleep p q o at l w = absurd (ground (arith, w))
  work-InOrder i (taken task) p q o at l w =
      led
        (record {
          order = o.order;
          busy = ground (
            arith,
            tally-update is_running p.thread_count i p.worker (running task),
            o.busy,
            at,
            l,
          );
          returned = λ j h. o.returned j (ground (arith, h));
        })
        w
  work-InOrder i (running task) p q o at l w =
      led
        (record {
          order = o.order;
          busy =
              ground
                (arith, tally-update is_running p.thread_count i p.worker waiting, o.busy, at, l);
          returned = λ j h. o.returned j (ground (arith, h));
        })
        w
  work-InOrder i gone p q o at l w = absurd (ground (arith, w))

  notify_every-InOrder : (p q : ThreadPool T) → InOrder p → notify_every p ≡ some q → InOrder q
  unfolding notify_every
  notify_every-InOrder p q o e = go p.notify_all e
    where
      roused_all : ThreadPool T
      roused_all = record p { notify_all = false; worker = λ i. roused (p.worker i) }

      go : (b : Bool) → (if b then some roused_all else none) ≡ some q → InOrder q
      go true e' =
          led (roused-InOrder p roused_all refl refl refl refl refl refl (λ i. inr refl) o) e'
      go false e' = absurd (ground (arith, e'))

  -- However tasks are enqueued, workers run and the pool is stopped: the tasks accepted are those begun,
  -- in their order and each once, and then those queued; the busy count is the number of workers at a
  -- task, modulo 2 ^ 32; and a worker has returned only if the pool stops and no task is queued.
  pub Reach-InOrder : (n m : ℕ) (p : ThreadPool T) → Reach (start n m) p → InOrder p
  Reach-InOrder n m _ here = start-InOrder n m
  Reach-InOrder n m _ (next {q} r (enqueues task)) = enqueue-InOrder task q (Reach-InOrder n m q r)
  Reach-InOrder n m _ (next {q} r stops) = stop-InOrder q (Reach-InOrder n m q r)
  Reach-InOrder n m _ (next {q} r (notifies_one i k e l a)) =
      roused-InOrder q (rouse i (record q { notify_ones = k })) refl refl refl refl refl refl
        (λ j. rouse-either i j q.worker) (Reach-InOrder n m q r)
  Reach-InOrder n m _ (next {q} r (notifies_none k e a)) =
      roused-InOrder q (record q { notify_ones = k }) refl refl refl refl refl refl (λ j. inl refl)
        (Reach-InOrder n m q r)
  Reach-InOrder n m p (next {q} r (notifies_all _ e)) =
      notify_every-InOrder q p (Reach-InOrder n m q r) e
  Reach-InOrder n m _ (next {q} r (wakes_up i)) =
      roused-InOrder q (rouse i q) refl refl refl refl refl refl (λ j. rouse-either i j q.worker)
        (Reach-InOrder n m q r)
  Reach-InOrder n m p (next {q} r (works i _ l w)) =
      work-InOrder i (q.worker i) q p (Reach-InOrder n m q r) refl l w
