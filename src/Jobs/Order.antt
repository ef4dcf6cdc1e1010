-- ===== src/Jobs/Order.antt =====
-- The jobs of a queue run in the order in which they were stored, each once.
use iocp_multi_threading_cha.Prelude.{
  ℕ, zero, suc, ◌+◌, ◌≡◌, refl, ap, ◌∙◌, Bool, true, false, List, [], ◌∷◌, ◌++◌, append_assoc,
  append-nil, ◌==◌, positive, if◌then◌else◌, Bool-cases, ==_iff, inl, inr, take-append-drop, arith,
}
use iocp_multi_threading_cha.Jobs.{
  max_execute_count, count_push, store_job, take_batch, subtract_executed,
}
use iocp_multi_threading_cha.Jobs.System.{
  Exec, out, running, requeue, Thread, Shared, Move, begin_push, store, announce, pop, take_jobs,
  run, finish, push_back, System, Step, step, Reach, here, next, init, pending, total,
}
use iocp_multi_threading_cha.Jobs.Tokens.{executes, token, total-middle, Balanced, Reach-Inv}

module _ {J : Type 0} where
  -- The jobs of a batch that a thread has still to run.
  abbrev pub todo_exec : ℕ → Exec J → List J
  todo_exec q (running p todo n) = if p == q then todo else []
  todo_exec q e = []

  abbrev pub todos : ℕ → List (Thread J) → List J
  todos q [] = []
  todos q (t ∷ ts) = todo_exec q t.exec ++ todos q ts

  todos-append : (q : ℕ) (ts us : List (Thread J)) → todos q (ts ++ us) ≡ todos q ts ++ todos q us
  todos-append q [] us = refl
  todos-append q (t ∷ ts) us = rw (todos-append q ts us, append_assoc)

  todo_exec-nil : (q : ℕ) (e : Exec J) → executes q e ≡ 0 → todo_exec q e ≡ []
  todo_exec-nil q (running p todo n) h = ground arith
  todo_exec-nil q _ h = refl

  todos-nil : (q : ℕ) (ts : List (Thread J)) → total (token q) ts ≡ 0 → todos q ts ≡ []
  todos-nil q [] h = refl
  todos-nil q (t ∷ ts) h = rw (todo_exec-nil q t.exec (omega arith), todos-nil q ts (omega arith))

  -- What was stored is what was started, then `batch`, then what is still queued.
  abbrev Ordered : ℕ → Shared J → List J → Type 0
  Ordered q m batch = m.given q ≡ m.started q ++ (batch ++ (m.queue q).jobs)

  todo_exec-finished : (q r : ℕ) (b : Bool) → todo_exec q (if b then requeue r else out) ≡ []
  todo_exec-finished q r true = refl
  todo_exec-finished q r false = refl

  -- The batches of the threads round the one that moves are empty if that one executes `q`.
  Move-Ordered :
      {m m' : Shared J} {t t' : Thread J} (q : ℕ) (a b : List J)
      → Move m t m' t'
      → (executes q t.exec ≡ 1 → (a ≡ []) × (b ≡ []))
      → Ordered q m (a ++ (todo_exec q t.exec ++ b))
      → Ordered q m' (a ++ (todo_exec q t'.exec ++ b))
  unfolding count_push store_job take_batch subtract_executed
  Move-Ordered q a b (begin_push e r job) alone o = elim (Bool-cases (r == q)) [
    | inl same ↦ let e' : r ≡ q = (==_iff r q).0 same in rw (same, e') o
    | inr other ↦ rw other o
  ]
  Move-Ordered q a b (store e r job prev_count) alone o = elim (Bool-cases (r == q)) [
    | inl same ↦
        let e' : r ≡ q = (==_iff r q).0 same in
        rw (same, e') (ap (λ l. l ++ (job ∷ [])) o ∙ simp append_assoc)
    | inr other ↦ rw other o
  ]
  Move-Ordered q a b (announce e r) alone o = o
  Move-Ordered q a b (pop r g e) alone o = o
  Move-Ordered {m = m} q a b (take_jobs r) alone o = elim (Bool-cases (r == q)) [
    | inl same ↦
        let e' : r ≡ q = (==_iff r q).0 same in
        let (a0, b0) = alone (rw same) in
        rw (same, e', a0, b0, append-nil, take-append-drop max_execute_count (m.queue q).jobs)
          (rw (a0, b0) at o)
    | inr other ↦ rw other o
  ]
  Move-Ordered q a b (run r job todo n) alone o = elim (Bool-cases (r == q)) [
    | inl same ↦
        let e' : r ≡ q = (==_iff r q).0 same in
        let (a0, b0) = alone (rw same) in
        rw (same, e', a0, b0) ((rw (same, a0, b0) at o) ∙ simp append_assoc)
    | inr other ↦ rw other (rw other at o)
  ]
  Move-Ordered {m = m} q a b (finish r n) alone o = elim (Bool-cases (r == q)) [
    | inl same ↦
        let e' : r ≡ q = (==_iff r q).0 same in
        rw (todo_exec-finished q r (positive (subtract_executed (m.queue r) n).0), same, e')
          (rw same at o)
    | inr other ↦
        rw (todo_exec-finished q r (positive (subtract_executed (m.queue r) n).0), other)
          (rw other at o)
  ]
  Move-Ordered q a b (push_back r) alone o = o

  todos-middle :
      (q : ℕ) (before after : List (Thread J)) (t : Thread J)
      → todos q (before ++ (t ∷ after)) ≡ todos q before ++ (todo_exec q t.exec ++ todos q after)
  todos-middle q before after t = todos-append q before (t ∷ after)

  Step-Ordered :
      {s u : System J} (q : ℕ)
      → Step s u
      → Balanced q s.mem (total (token q) s.threads) (total (pending q) s.threads)
      → Ordered q s.mem (todos q s.threads)
      → Ordered q u.mem (todos q u.threads)
  Step-Ordered {s} q (step before {t} after {m} {t'} e mv) b o =
      rw (todos-middle q before after t') (
        Move-Ordered q (todos q before) (todos q after) mv alone
          (rw (← todos-middle q before after t, ← e) o))
    where
      split : total (token q) s.threads ≡ total (token q) before + total (token q) after + token q t
      split = rw e (total-middle (token q) before after t)

      alone : executes q t.exec ≡ 1 → (todos q before ≡ []) × (todos q after ≡ [])
      alone x = (
        todos-nil q before (ground (arith, b.tokens, split)),
        todos-nil q after (ground (arith, b.tokens, split)),
      )

Ordered-init : (J : Type 0) (n q : ℕ) → Ordered {J = J} q (init n).mem (todos q (init n).threads)
Ordered-init J zero q = refl
Ordered-init J (suc n) q = Ordered-init J n q

module _ {J : Type 0} where
  -- While no queue has 2 ^ 31 jobs outstanding, and however the threads interleave, the jobs stored in a queue are, in that order, those started,
  -- those in the batch of its executor and those still queued: none is lost, doubled or overtaken.
  pub fifo :
      (n q : ℕ) {s : System J}
      → Reach (init n) s
      → s.mem.given q ≡ s.mem.started q ++ (todos q s.threads ++ (s.mem.queue q).jobs)
  fifo n q here = Ordered-init J n q
  fifo n q (next r st few) = Step-Ordered q st (Reach-Inv n r q) (fifo n q r)
