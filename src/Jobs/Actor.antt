-- ===== src/Jobs/Actor.antt =====
-- What `JobQueue` promises to `Room`: one executor at a time, and no job that waits unscheduled.
use iocp_multi_threading_cha.Prelude.{
  occurs, ℕ, ◌+◌, ◌<◌, ◌≤◌, ◌≡◌, List, [], ◌∷◌, ◌++◌, ◌==◌, if◌then◌else◌, length, arith,
}
use iocp_multi_threading_cha.Jobs.System.{Thread, idle_threads, System, Reach, init, pending, total}
use iocp_multi_threading_cha.Jobs.Tokens.{
  executes, token, total-append, total-middle, Reach-Inv, Balanced, total-idle,
}

module _ {J : Type 0} where
  total-executes :
      (q : ℕ) (ts : List (Thread J)) → total (λ t. executes q t.exec) ts ≤ total (token q) ts
  total-executes q [] = omega arith
  total-executes q (t ∷ ts) = omega (arith, total-executes q ts)

  -- While no queue has 2 ^ 31 jobs outstanding, no two threads execute one queue: where a thread is in `Execute` of a
  -- queue, or has popped it, or is about to push it back, none of the threads before and after it does so, and the
  -- queue does not stand in `GlobalQueue`.
  pub single_executor :
      (n q : ℕ) {s : System J} (before after : List (Thread J)) (t : Thread J)
      → Reach (init n) s
      → s.threads ≡ before ++ (t ∷ after)
      → executes q t.exec ≡ 1
      → (total (λ u. executes q u.exec) (before ++ after) ≡ 0) × (occurs q s.mem.global ≡ 0)
  single_executor n q {s} before after t r e x =
      let b : Balanced q s.mem (total (token q) s.threads) (total (pending q) s.threads) =
        Reach-Inv n r q in
      ground (arith, b.tokens, split, others, total-executes q before, total-executes q after)
    where
      split : total (token q) s.threads ≡ total (token q) before + total (token q) after + token q t
      split = rw e (total-middle (token q) before after t)

      others :
          total (λ u. executes q u.exec) (before ++ after)
          ≡ total (λ u. executes q u.exec) before + total (λ u. executes q u.exec) after
      others = total-append (λ u. executes q u.exec) before after

  -- While no queue has 2 ^ 31 jobs outstanding, one that holds jobs is never forgotten: either it stands in `GlobalQueue`, once, or exactly
  -- one thread executes it or is about to register it, and never both.
  pub scheduled_once :
      (n q : ℕ) {s : System J}
      → Reach (init n) s
      → 0 < length (s.mem.queue q).jobs
      → occurs q s.mem.global + total (token q) s.threads ≡ 1
  scheduled_once n q {s} r h =
      let b : Balanced q s.mem (total (token q) s.threads) (total (pending q) s.threads) =
        Reach-Inv n r q in
      ground (arith, b.tokens, b.counts)

  -- While no queue has 2 ^ 31 jobs outstanding: once every worker is back in its loop, the count of a queue is the number of its jobs, and the
  -- queue stands in `GlobalQueue` once if it has jobs and not at all if it has none.
  pub quiescent :
      (n k q : ℕ) {s : System J}
      → Reach (init n) s
      → s.threads ≡ idle_threads k
      → ((s.mem.queue q).job_count ≡ length (s.mem.queue q).jobs)
        × (occurs q s.mem.global ≡ (if length (s.mem.queue q).jobs == 0 then 0 else 1))
  quiescent n k q {s} r e =
      let b : Balanced q s.mem (total (token q) s.threads) (total (pending q) s.threads) =
        Reach-Inv n r q in
      ground (arith, b.tokens, b.counts, asleep)
    where
      asleep : (total (token q) s.threads ≡ 0) × (total (pending q) s.threads ≡ 0)
      asleep = rw e (total-idle J q k)
