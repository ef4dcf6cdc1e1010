-- ===== src/Jobs/Tokens.antt =====
-- The counting invariant of the queues: who may schedule or execute a queue, and what its count
-- counts.
use iocp_multi_threading_cha.Prelude.{
  one_if, occurs, occurs-append, ℕ, zero, suc, ◌+◌, ◌<◌, ◌≡◌, refl, ◌&&◌, some, List, [], ◌∷◌, ◌++◌,
  ◌==◌, if◌then◌else◌, length, length-append, length-take-add-drop, Bool-cases, ==_iff, inl, inr,
  arith,
}
use iocp_multi_threading_cha.Jobs.{
  GlobalQueue, max_execute_count, count_push, store_job, take_batch, subtract_executed, global_push,
  global_pop,
}
use iocp_multi_threading_cha.Jobs.System.{
  Exec, out, popped, running, requeue, Push, quiet, counted, register, Thread, Shared, Move,
  begin_push, store, announce, pop, take_jobs, run, finish, push_back, System, Step, step, Reach,
  here, next, init, idle_threads, pending, total, Few,
}

occurs-pop :
    (q r : ℕ) (g h : GlobalQueue)
    → global_pop g ≡ (some r, h)
    → occurs q g ≡ one_if (r == q) + occurs q h
unfolding global_pop
occurs-pop q r [] h e = cc e
occurs-pop q r (p ∷ g) h e = ground arith

module _ {J : Type 0} where
  -- A thread that is between `GlobalQueue::Pop` and the end of `Execute`.
  abbrev pub executes : ℕ → Exec J → ℕ
  executes q out = 0
  executes q (popped p) = one_if (p == q)
  executes q (running p todo n) = one_if (p == q)
  executes q (requeue p) = one_if (p == q)

  -- A thread whose `Push` found the count at 0 and has not come to `GlobalQueue::Push`.
  abbrev pub registers : ℕ → Push J → ℕ
  registers q quiet = 0
  registers q (counted p job prev_count) = one_if (p == q && prev_count == 0)
  registers q (register p) = one_if (p == q)

  abbrev pub token : ℕ → Thread J → ℕ
  token q t = executes q t.exec + registers q t.push

  pub total-append :
      (w : Thread J → ℕ) (ts us : List (Thread J)) → total w (ts ++ us) ≡ total w ts + total w us
  total-append w [] us = omega arith
  total-append w (t ∷ ts) us = omega (arith, total-append w ts us)

  -- With `k` tokens and `p` pending jobs among the threads.
  pub record Balanced (q : ℕ) (m : Shared J) (k p : ℕ) : Type 0 where
    pub tokens : occurs q m.global + k ≡ (if (m.queue q).job_count == 0 then 0 else 1)
    pub counts : (m.queue q).job_count ≡ length (m.queue q).jobs + p

  Move-Balanced :
      {m m' : Shared J} {t t' : Thread J} (q k p : ℕ)
      → Move m t m' t'
      → length (m'.queue q).jobs + (p + pending q t') < 2147483648
      → Balanced q m (k + token q t) (p + pending q t)
      → Balanced q m' (k + token q t') (p + pending q t')
  unfolding count_push store_job take_batch subtract_executed global_push global_pop
  Move-Balanced q k p (begin_push e r job) few b = ground arith
  Move-Balanced {m = m} q k p (store e r job prev_count) few b =
      ground (arith, length-append (m.queue q).jobs (job ∷ []))
  Move-Balanced {m = m} q k p (announce e r) few b =
      ground (arith, occurs-append q m.global (r ∷ []))
  Move-Balanced {m = m} q k p (pop r g e) few b = ground (arith, occurs-pop q r m.global g e)
  Move-Balanced {m = m} q k p (take_jobs r) few b = elim (Bool-cases (r == q)) [
    | inl same ↦
        let e : r ≡ q = (==_iff r q).0 same in
        ground (arith, length-take-add-drop max_execute_count (m.queue q).jobs)
    | inr other ↦ ground arith
  ]
  Move-Balanced q k p (run r job todo n) few b = ground arith
  Move-Balanced q k p (finish r n) few b = ground arith
  Move-Balanced {m = m} q k p (push_back r) few b =
      ground (arith, occurs-append q m.global (r ∷ []))

  abbrev pub Inv : System J → Type 0
  Inv s = (q : ℕ) → Balanced q s.mem (total (token q) s.threads) (total (pending q) s.threads)

  pub total-middle :
      (w : Thread J → ℕ) (before after : List (Thread J)) (t : Thread J)
      → total w (before ++ (t ∷ after)) ≡ total w before + total w after + w t
  total-middle w before after t = omega (arith, total-append w before (t ∷ after))

  Step-Inv : {s u : System J} → Step s u → Few u → Inv s → Inv u
  Step-Inv {s} (step before {t} after {m} {t'} e mv) few inv q =
      rw (total-middle (token q) before after t', total-middle (pending q) before after t')
        (Move-Balanced q (rest (token q)) (rest (pending q)) mv
          (rw (← total-middle (pending q) before after t') (few q))
          (rw
            (
              ← total-middle (token q) before after t,
              ← total-middle (pending q) before after t,
              ← e,
            )
            (inv q)))
    where
      rest : (Thread J → ℕ) → ℕ
      rest w = total w before + total w after

pub total-idle :
    (J : Type 0) (q n : ℕ)
    → (total {J = J} (token q) (idle_threads n) ≡ 0)
      × (total {J = J} (pending q) (idle_threads n) ≡ 0)
total-idle J q zero = (refl, refl)
total-idle J q (suc n) = omega (arith, total-idle J q n)

Inv-init : (J : Type 0) (n : ℕ) → Inv {J = J} (init n)
Inv-init J n q = let (a, b) = total-idle J q n in record { tokens = rw a; counts = rw b }

module _ {J : Type 0} where
  -- Whatever the threads do, every queue stays balanced.
  pub Reach-Inv : (n : ℕ) {s : System J} → Reach (init n) s → Inv s
  Reach-Inv n here = Inv-init J n
  Reach-Inv n (next r st few) = Step-Inv st few (Reach-Inv n r)
