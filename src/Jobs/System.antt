-- ===== src/Jobs/System.antt =====
-- Worker threads over shared queues, interleaved in any order: the steps of `JobQueue::Push`,
-- `JobQueue::Execute`, `GlobalQueue::Push` and `GlobalQueue::Pop`.
use iocp_multi_threading_cha.Prelude.{
  update, ℕ, zero, suc, ◌≡◌, false, some, List, [], ◌∷◌, ◌++◌, ◌==◌, ◌+◌, ◌<◌, one_if, positive,
  if◌then◌else◌, length,
}
use iocp_multi_threading_cha.Jobs.{
  JobQueue, GlobalQueue, count_push, store_job, must_register, take_batch, subtract_executed,
  global_push, global_pop,
}

module _ (J : Type 0) where
  -- Where a thread stands in `JobQueue::Execute`.
  pub data Exec : Type 0 where
    out : Exec  -- in the worker loop, before `GlobalQueue::Pop`
    popped : (q : ℕ) → Exec  -- before the critical section of `Execute`
    running : (q : ℕ) (todo : List J) (executed : ℕ) → Exec  -- in the loop over `executeList`
    requeue : (q : ℕ) → Exec  -- `remain > 0`, before `GlobalQueue::Push`

  -- Where it stands in a call of `JobQueue::Push`, made by a packet handler or by the job that runs.
  pub data Push : Type 0 where
    quiet : Push
    counted : (q : ℕ) (job : J) (prev_count : ℕ) → Push  -- after `fetch_add`
    register : (q : ℕ) → Push  -- before `GlobalQueue::Push`

  pub record Thread : Type 0 where
    pub exec : Exec
    pub push : Push

  -- The shared memory, with the jobs that each queue has been given and has started, in order.
  pub record Shared : Type 0 where
    pub queue : ℕ → JobQueue J
    pub global : GlobalQueue
    pub given : ℕ → List J
    pub started : ℕ → List J

  pub record System : Type 0 where
    pub mem : Shared
    pub threads : List (Thread)

module _ {J : Type 0} where
  abbrev pub set_queue : Shared J → ℕ → JobQueue J → Shared J
  set_queue m q v = record m { queue = update m.queue q v }

  -- One step of one thread. `PushJob` and `JobTimer` call `Push` with `pushOnly` false.
  pub data Move (m : Shared J) : Thread J → Shared J → Thread J → Type 0 where
    begin_push :
        (e : Exec J) (q : ℕ) (job : J)
        → Move m
            (record { exec = e; push = quiet })
            (set_queue m q (count_push (m.queue q)).1)
            (record { exec = e; push = counted q job (count_push (m.queue q)).0 })
    store :
        (e : Exec J) (q : ℕ) (job : J) (prev_count : ℕ)
        → Move m
            (record { exec = e; push = counted q job prev_count })
            (record (set_queue m q (store_job (m.queue q) job)) {
              given = update m.given q (m.given q ++ (job ∷ []));
            })
            (record {
              exec = e;
              push = if must_register prev_count false then register q else quiet;
            })
    announce :
        (e : Exec J) (q : ℕ)
        → Move m
            (record { exec = e; push = register q })
            (record m { global = global_push m.global q })
            (record { exec = e; push = quiet })
    pop :
        (q : ℕ) (g : GlobalQueue)
        → global_pop m.global ≡ (some q, g)
        → Move m
            (record { exec = out; push = quiet })
            (record m { global = g })
            (record { exec = popped q; push = quiet })
    take_jobs :
        (q : ℕ)
        → Move m
            (record { exec = popped q; push = quiet })
            (set_queue m q (take_batch (m.queue q)).1)
            (record {
              exec = running q (take_batch (m.queue q)).0 (length (take_batch (m.queue q)).0);
              push = quiet;
            })
    run :
        (q : ℕ) (job : J) (todo : List J) (n : ℕ)
        → Move m
            (record { exec = running q (job ∷ todo) n; push = quiet })
            (record m { started = update m.started q (m.started q ++ (job ∷ [])) })
            (record { exec = running q todo n; push = quiet })
    finish :
        (q n : ℕ)
        → Move m
            (record { exec = running q [] n; push = quiet })
            (set_queue m q (subtract_executed (m.queue q) n).1)
            (record {
              exec = if positive (subtract_executed (m.queue q) n).0 then requeue q else out;
              push = quiet;
            })
    push_back :
        (q : ℕ)
        → Move m
            (record { exec = requeue q; push = quiet })
            (record m { global = global_push m.global q })
            (record { exec = out; push = quiet })

  pub data Step (s : System J) : System J → Type 0 where
    step :
        (before : List (Thread J)) {t : Thread J} (after : List (Thread J)) {m : Shared J}
        {t' : Thread J}
        → s.threads ≡ before ++ (t ∷ after)
        → Move s.mem t m t'
        → Step s (record { mem = m; threads = before ++ (t' ∷ after) })

  abbrev pub taken : ℕ → Exec J → ℕ
  taken q (running p todo n) = if p == q then n else 0
  taken q e = 0

  abbrev pub unstored : ℕ → Push J → ℕ
  unstored q (counted p job prev_count) = one_if (p == q)
  unstored q p = 0

  -- Jobs in the count of a queue that are not among its jobs.
  abbrev pub pending : ℕ → Thread J → ℕ
  pending q t = taken q t.exec + unstored q t.push

  abbrev pub total : (Thread J → ℕ) → List (Thread J) → ℕ
  total w [] = 0
  total w (t ∷ ts) = w t + total w ts

  -- No queue has 2 ^ 31 jobs outstanding, so its count has not wrapped.
  abbrev pub Few : System J → Type 0
  Few s = (q : ℕ) → length (s.mem.queue q).jobs + total (pending q) s.threads < 2147483648

  -- Runs in which this holds throughout.
  pub data Reach (s : System J) : System J → Type 0 where
    here : Reach s s
    next : {t u : System J} → Reach s t → Step t u → Few u → Reach s u

  abbrev pub empty_queue : JobQueue J
  empty_queue = record { jobs = []; job_count = 0 }

  abbrev pub idle : Thread J
  idle = record { exec = out; push = quiet }

  abbrev pub idle_threads : ℕ → List (Thread J)
  idle_threads zero = []
  idle_threads (suc n) = idle ∷ idle_threads n

  -- `n` workers before the first packet arrives.
  abbrev pub init : ℕ → System J
  init n = record {
    mem = record { queue = λ _. empty_queue; global = []; given = λ _. []; started = λ _. [] };
    threads = idle_threads n;
  }
