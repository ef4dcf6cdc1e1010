-- ===== src/Timer/Due.antt =====
-- What `JobTimer::Distribute` of Source/ServerEngine/Job/JobTimer.cpp hands out.
use iocp_multi_threading_cha.Prelude.{
  ℕ, zero, suc, ◌+◌, ◌≤◌, ◌≡◌, ◌∙◌, refl, sym, ap, inl, inr, Bool, true, false, not, ◌&&◌, none,
  List, [], ◌∷◌, ◌++◌, ltb, leb, ◌==◌, one_if, if◌then◌else◌, Bool-cases, Option-cases,
  append_assoc, append-nil, arith,
}
use iocp_multi_threading_cha.Jobs.{count_push, store_job}
use iocp_multi_threading_cha.Timer.{
  Queues, push, push_all, JobTimer, take_expired, distribute, pop_all, clear,
}
use iocp_multi_threading_cha.Timer.Item.{TimerItem, tick_of}
use iocp_multi_threading_cha.Timer.Heap.{PriorityQueue, sum}

module _ {J : Type 0} where
  -- Times that rise from `lo` and do not pass `now`.
  abbrev pub rising : ℕ → ℕ → List (TimerItem J) → Bool
  rising lo now [] = true
  rising lo now (item ∷ items) =
      leb lo item.execute_tick && (leb item.execute_tick now && rising item.execute_tick now items)

  -- The jobs of the items of queue `q`, in order.
  abbrev pub jobs_of : ℕ → List (TimerItem J) → List J
  jobs_of q [] = []
  jobs_of q (item ∷ items) = if item.owner == q then item.job ∷ jobs_of q items else jobs_of q items

module _ {J : Type 0} (pq : PriorityQueue (tick_of {J = J})) where
  -- The expired items in the order of their times, and what is left: together all the items, none
  -- of those left due.
  pub record Split (lo now : ℕ) (items : pq.Queue) (expired : List (TimerItem J)) (left : pq.Queue)
      : Type 0 where
    pub sums : (f : TimerItem J → ℕ) → pq.total f items ≡ sum f expired + pq.total f left
    pub due : rising lo now expired ≡ true
    pub later : pq.total (λ item. one_if (ltb item.execute_tick (suc now))) left ≡ 0

  empty-Split : (lo now : ℕ) (items : pq.Queue) → pq.top items ≡ none → Split lo now items [] items
  empty-Split lo now items e = record {
    sums = λ f. omega arith;
    due = refl;
    later = pq.total-none _ items e;
  }

  take_expired-Split :
      (fuel lo now : ℕ) (items : pq.Queue)
      → pq.total (λ item. 1) items ≤ fuel
      → pq.total (λ item. one_if (ltb item.execute_tick lo)) items ≡ 0
      → Split lo now items (take_expired pq fuel now items).0 (take_expired pq fuel now items).1
  unfolding take_expired
  take_expired-Split zero lo now items enough old = elim (Option-cases (pq.top items)) [
    | inl e ↦ empty-Split lo now items e
    | inr (item, e) ↦ absurd (omega (arith, enough, pq.total-pop (λ item. 1) item items e))
  ]
  take_expired-Split (suc fuel) lo now items enough old = elim (Option-cases (pq.top items)) [
    | inl e ↦ rw (take_expired, e) (empty-Split lo now items e)
    | inr (item, e) ↦ elim (Bool-cases (ltb now item.execute_tick)) [
      | inl early ↦
          let split : Split lo now items [] items = record {
            sums = λ f. omega arith;
            due = refl;
            later = pq.least (suc now) item items e (ground (arith, early));
          } in
          rw (take_expired, e, early) split
      | inr expired ↦
          let first = pq.total-pop (λ item. one_if (ltb item.execute_tick lo)) item items e in
          let next =
            take_expired-Split fuel item.execute_tick now (pq.pop items)
              (omega (arith, enough, pq.total-pop (λ item. 1) item items e))
              (omega (
                arith,
                pq.least item.execute_tick item items e (omega arith),
                pq.total-pop (λ other. one_if (ltb other.execute_tick item.execute_tick)) item items
                    e,
              )) in
          let split : Split lo now items (item ∷ (take_expired pq fuel now (pq.pop items)).0)
              (take_expired pq fuel now (pq.pop items)).1 =
            record {
              sums = λ f. omega (arith, next.sums f, pq.total-pop f item items e);
              due = ground (arith, next.due, expired, first, old);
              later = next.later;
            } in
          rw (take_expired, e, expired) split
    ]
  ]

owner-other :
    (exists : ℕ → Bool) (q r : ℕ) (b : Bool) → exists r ≡ b → exists q ≡ not b → (r == q) ≡ false
owner-other exists q r b e h = elim (Bool-cases (r == q)) [
  | inl same ↦
      let same' : r ≡ q = ground (arith, same) in
      absurd (ground (arith, sym e ∙ ap exists same' ∙ h))
  | inr other ↦ other
]

module _ {J : Type 0} (exists : ℕ → Bool) (q : ℕ) where
  push-jobs :
      (r : ℕ) (job : J) (s : Queues J)
      → ((push r job s).queue q).jobs ≡ (s.queue q).jobs ++ (if r == q then job ∷ [] else [])
  unfolding push count_push store_job
  push-jobs r job s = elim (Bool-cases (r == q)) [
    | inl same ↦ let e : r ≡ q = ground (arith, same) in rw (same, e) refl
    | inr other ↦ rw (other, append-nil) refl
  ]

  jobs_of-cons :
      (item : TimerItem J) (items : List (TimerItem J)) (jobs : List J)
      → (jobs ++ (if item.owner == q then item.job ∷ [] else [])) ++ jobs_of q items
        ≡ jobs ++ jobs_of q (item ∷ items)
  jobs_of-cons item items jobs = elim (Bool-cases (item.owner == q)) [
    | inl same ↦ rw (same, append_assoc) refl
    | inr other ↦ rw (other, append-nil) refl
  ]

  push_all-jobs :
      (items : List (TimerItem J)) (s : Queues J)
      → exists q ≡ true
      → ((push_all exists items s).queue q).jobs ≡ (s.queue q).jobs ++ jobs_of q items
  unfolding push_all
  push_all-jobs [] s h = rw (append-nil) refl
  push_all-jobs (item ∷ items) s h = elim (Bool-cases (exists item.owner)) [
    | inl alive ↦
        rw (push_all, alive)
          (push_all-jobs items (push item.owner item.job s) h
            ∙ ap (λ l. l ++ jobs_of q items) (push-jobs item.owner item.job s)
            ∙ jobs_of-cons item items (s.queue q).jobs)
    | inr dead ↦
        rw (push_all, dead)
          (push_all-jobs items s h ∙ rw (owner-other exists q item.owner false dead h) refl)
  ]

  push_all-dropped :
      (items : List (TimerItem J)) (s : Queues J)
      → exists q ≡ false
      → (push_all exists items s).queue q ≡ s.queue q
  unfolding push_all push
  push_all-dropped [] s h = refl
  push_all-dropped (item ∷ items) s h = elim (Bool-cases (exists item.owner)) [
    | inl alive ↦
        let other : (item.owner == q) ≡ false = owner-other exists q item.owner true alive h in
        rw (push_all, alive)
          (push_all-dropped items (push item.owner item.job s) h ∙ rw (other) refl)
    | inr dead ↦ rw (push_all, dead) (push_all-dropped items s h)
  ]

module _ {J : Type 0} (pq : PriorityQueue (tick_of {J = J})) where
  -- What `Distribute` at `now` leaves of the timer `t` and the queues `s`.
  pub record Distributed (exists : ℕ → Bool) (now : ℕ) (t : JobTimer pq) (s : Queues J)
      (out : JobTimer pq × Queues J) : Type 0 where
    pub expired : List (TimerItem J)
    pub sums : (f : TimerItem J → ℕ) → pq.total f t.items ≡ sum f expired + pq.total f out.0.items
    pub due : rising 0 now expired ≡ true
    pub later : pq.total (λ item. one_if (ltb item.execute_tick (suc now))) out.0.items ≡ 0
    pub done : out.0.distributing ≡ false
    pub pushed :
        (q : ℕ) → exists q ≡ true → (out.1.queue q).jobs ≡ (s.queue q).jobs ++ jobs_of q expired
    pub dropped : (q : ℕ) → exists q ≡ false → out.1.queue q ≡ s.queue q

  none-old : (items : pq.Queue) → pq.total (λ item. one_if (ltb item.execute_tick 0)) items ≡ 0
  none-old items = elim (Option-cases (pq.top items)) [
    | inl e ↦ pq.total-none _ items e
    | inr (item, e) ↦ pq.least 0 item items e (omega arith)
  ]

  -- `Distribute` that no other thread runs, with a heap that puts a least time on top: it takes out
  -- exactly the items whose time has come, none lost and none doubled, and leaves the others; each
  -- queue that still exists gets its jobs in the order of their times, behind those it has, and a
  -- queue that is gone gets none. The next thread may distribute then.
  pub distribute-due :
      (exists : ℕ → Bool) (now : ℕ) (t : JobTimer pq) (s : Queues J)
      → t.distributing ≡ false
      → Distributed exists now t s (distribute pq exists now t s)
  unfolding distribute
  distribute-due exists now t s free =
      let split =
        take_expired-Split pq (pq.total (λ item. 1) t.items) 0 now t.items (omega arith)
          (none-old t.items) in
      let expired = (take_expired pq (pq.total (λ item. 1) t.items) now t.items).0 in
      let out : Distributed exists now t s (
        record {
          items = (take_expired pq (pq.total (λ item. 1) t.items) now t.items).1;
          distributing = false;
        },
        push_all exists expired s,
      ) =
        record {
          expired = expired;
          sums = split.sums;
          due = split.due;
          later = split.later;
          done = refl;
          pushed = λ q. push_all-jobs exists q expired s;
          dropped = λ q. push_all-dropped exists q expired s;
        } in
      simp (free) out

  -- `Clear` leaves no item.
  pub clear-none : (t : JobTimer pq) (f : TimerItem J → ℕ) → pq.total f (clear pq t).items ≡ 0
  unfolding clear pop_all
  clear-none t f = pop_all-none (pq.total (λ item. 1) t.items) t.items (omega arith)
    where
      pop_all-none :
          (fuel : ℕ) (items : pq.Queue)
          → pq.total (λ item. 1) items ≤ fuel
          → pq.total f (pop_all pq fuel items) ≡ 0
      pop_all-none zero items h = elim (Option-cases (pq.top items)) [
        | inl e ↦ pq.total-none f items e
        | inr (item, e) ↦ absurd (omega (arith, h, pq.total-pop (λ item. 1) item items e))
      ]
      pop_all-none (suc fuel) items h = elim (Option-cases (pq.top items)) [
        | inl e ↦ rw (pop_all, e) (pq.total-none f items e)
        | inr (item, e) ↦
            rw (pop_all, e)
              (pop_all-none fuel (pq.pop items)
                (omega (arith, h, pq.total-pop (λ item. 1) item items e)))
      ]
