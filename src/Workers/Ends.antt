-- ===== src/Workers/Ends.antt =====
-- `ThreadPool::Stop` of Source/ServerEngine/Thread/ThreadPool.cpp returns, with every accepted task run.
use iocp_multi_threading_cha.Prelude.{
  ℕ, zero, suc, false, one_if, ◌≤◌, ◌+◌, ◌*◌, ◌<◌, ◌≡◌, ◌∙◌, ◌⊎◌, refl, sym, ap, inl, inr, Bool,
  true, not, Option, some, List, [], ◌∷◌, ◌++◌, append-nil, ltb, update, length, arith,
}
use iocp_multi_threading_cha.Workers.{
  Worker, waiting, asleep, taken, running, gone, ThreadPool, start, roused, notify_every, wake,
  work, is_asleep, Reach,
}
use iocp_multi_threading_cha.Workers.Drained.{
  is_running, is_gone, tally, tally-update, Reach-InOrder,
}
use iocp_multi_threading_cha.Workers.Awake.{Reach-Alert}

module _ {T : Type 0} where
  abbrev pub is_alive : Worker T → Bool
  is_alive w = not (is_gone w)

  abbrev pub has_taken : Worker T → Bool
  has_taken (taken task) = true
  has_taken _ = false

  -- What is still to do once the pool stops: to take, to begin and to end each task, to notify the workers, and for these
  -- to wake up and to return.
  abbrev pub rank : ThreadPool T → ℕ
  rank p =
      3 * length p.tasks
      + 2 * tally has_taken p.thread_count p.worker
      + tally is_running p.thread_count p.worker
      + tally is_alive p.thread_count p.worker
      + tally is_asleep p.thread_count p.worker
      + one_if p.notify_all

  -- A step that leaves less to do.
  pub record Goes (p : ThreadPool T) (o : Option (ThreadPool T)) : Type 0 where
    pub after : ThreadPool T
    pub steps : o ≡ some after
    pub less : rank after < rank p

  -- How the parts of `rank` change with one worker.
  weight : Worker T → ℕ
  weight w =
      2 * one_if (has_taken w) + one_if (is_running w) + one_if (is_alive w) + one_if (is_asleep w)

  weigh : ℕ → (ℕ → Worker T) → ℕ
  weigh n w =
      2 * tally has_taken n w + tally is_running n w + tally is_alive n w + tally is_asleep n w

  weigh-update :
      (n i : ℕ) (w : ℕ → Worker T) (x y : Worker T)
      → w i ≡ y
      → ltb i n ≡ true
      → weigh n (update w i x) + weight y ≡ weigh n w + weight x
  unfolding weigh weight
  weigh-update n i w x y at l = ground (
    arith,
    tally-update has_taken n i w x,
    tally-update is_running n i w x,
    tally-update is_alive n i w x,
    tally-update is_asleep n i w x,
    at,
    l,
  )

  roused-weight : (w : Worker T) → weight (roused w) ≤ weight w
  unfolding weight
  roused-weight waiting = omega arith
  roused-weight asleep = omega arith
  roused-weight (taken task) = omega arith
  roused-weight (running task) = omega arith
  roused-weight gone = omega arith

  weigh-roused : (n : ℕ) (w : ℕ → Worker T) → weigh n (λ i. roused (w i)) ≤ weigh n w
  unfolding weigh weight
  weigh-roused zero w = omega arith
  weigh-roused (suc n) w = omega (arith, weigh-roused n w, roused-weight (w n))

  wake-Goes :
      (i : ℕ) (tasks : List T) (p : ThreadPool T)
      → p.worker i ≡ waiting
      → p.stop ≡ true
      → ltb i p.thread_count ≡ true
      → p.tasks ≡ tasks
      → Goes p (some (wake i tasks p))
  unfolding wake weigh weight
  wake-Goes i [] p at stopped l e = record {
    after = record p { worker = update p.worker i gone };
    steps = simp (stopped) refl;
    less = omega (arith, weigh-update p.thread_count i p.worker gone waiting at l);
  }
  wake-Goes i (task ∷ rest) p at stopped l e = record {
    after = _;
    steps = refl;
    less =
        omega
          (arith, weigh-update p.thread_count i p.worker (taken task) waiting at l, ap length e);
  }

  -- A worker that neither sleeps nor has returned has a step.
  work-Goes :
      (i : ℕ) (x : Worker T) (p : ThreadPool T)
      → p.worker i ≡ x
      → p.stop ≡ true
      → ltb i p.thread_count ≡ true
      → (x ≡ gone) ⊎ ((x ≡ asleep) ⊎ Goes p (work i x p))
  unfolding work weigh weight
  work-Goes i waiting p at stopped l = inr (inr (wake-Goes i p.tasks p at stopped l refl))
  work-Goes i asleep p at stopped l = inr (inl refl)
  work-Goes i (taken task) p at stopped l = inr (
      inr (record {
        after = _;
        steps = refl;
        less =
            omega (arith, weigh-update p.thread_count i p.worker (running task) (taken task) at l);
      }))
  work-Goes i (running task) p at stopped l = inr (
      inr (record {
        after = _;
        steps = refl;
        less = omega (arith, weigh-update p.thread_count i p.worker waiting (running task) at l);
      }))
  work-Goes i gone p at stopped l = inl refl

  notify_every-Goes : (p : ThreadPool T) → p.notify_all ≡ true → Goes p (notify_every p)
  unfolding notify_every weigh
  notify_every-Goes p due = record {
    after = record p { notify_all = false; worker = λ i. roused (p.worker i) };
    steps = rw (notify_every, due) refl;
    less = omega (arith, weigh-roused p.thread_count p.worker, ap one_if due);
  }

  -- Once `Stop` has set its flag, in every state that an interleaving leads to: a worker has returned,
  -- and then every task that was accepted has been begun; or it can take a step, a task that runs to its end, and
  -- the step leaves less to do, by `rank`; or it sleeps, and then `Stop` has still to notify all workers, which
  -- leaves less to do as well.
  pub stop-drains :
      (n m i : ℕ) (p : ThreadPool T)
      → Reach (start n m) p
      → p.stop ≡ true
      → ltb i p.thread_count ≡ true
      → ((p.worker i ≡ gone) × (p.begun ≡ p.accepted))
        ⊎ (Goes p (work i (p.worker i) p) ⊎ ((p.worker i ≡ asleep) × Goes p (notify_every p)))
  stop-drains n m i p r stopped l = elim (work-Goes i (p.worker i) p refl stopped l) [
    | inr (inr g) ↦ inr (inl g)
    | inr (inl sleeps) ↦ inr (
        inr (
          sleeps,
          notify_every-Goes p ((Reach-Alert n m p r).quiet i (ap is_asleep sleeps) stopped),
        ))
    | inl left ↦
        let o = Reach-InOrder n m p r in
        let (_, empty) = o.returned i (ap is_gone left) in
        inl (left, sym (o.order ∙ ap (λ t. p.begun ++ t) empty ∙ append-nil p.begun))
  ]
