-- ===== src/Timer/Heap.antt =====
-- `std::priority_queue` as Source/ServerEngine/Job/JobTimer.cpp uses it: the item on top has the least
-- key, and of items with equal keys any may be on top. What a queue holds shows in the sums of
-- functions over its items.
use mathlib.Core.Option.{some-injective}
use iocp_multi_threading_cha.Prelude.{
  ℕ, ◌+◌, ◌≤◌, ◌≡◌, refl, Option, none, some, List, [], ◌∷◌, ltb, leb, one_if, if◌then◌else◌,
  Bool-cases, inl, inr, arith,
}

-- The sum of `f` over a list.
abbrev pub sum {ℓ} : {A : Type ℓ} → (A → ℕ) → List A → ℕ
sum f [] = 0
sum f (a ∷ xs) = f a + sum f xs

pub record PriorityQueue {A : Type 0} (key : A → ℕ) : Type 1 where
  pub Queue : Type 0
  pub empty : Queue
  pub push : A → Queue → Queue
  pub top : Queue → Option A
  pub pop : Queue → Queue
  pub total : (A → ℕ) → Queue → ℕ
  pub total-empty : (f : A → ℕ) → total f empty ≡ 0
  pub total-push : (f : A → ℕ) (a : A) (q : Queue) → total f (push a q) ≡ f a + total f q
  pub total-none : (f : A → ℕ) (q : Queue) → top q ≡ none → total f q ≡ 0
  pub total-pop :
      (f : A → ℕ) (a : A) (q : Queue) → top q ≡ some a → total f q ≡ f a + total f (pop q)
  pub least :
      (lo : ℕ) (a : A) (q : Queue)
      → top q ≡ some a
      → lo ≤ key a
      → total (λ b. one_if (ltb (key b) lo)) q ≡ 0

-- One such queue: a list from which the first item with the least key is selected.
module _ {A : Type 0} (key : A → ℕ) where
  abbrev smaller : A → List A → A × List A → A × List A
  smaller a xs (m, rest) = if leb (key a) (key m) then (a, xs) else (m, a ∷ rest)

  unfoldable pub select : A → List A → A × List A
  select a [] = (a, [])
  select a (b ∷ xs) = smaller a (b ∷ xs) (select b xs)

  unfoldable pub select_top : List A → Option A
  unfolding select
  select_top [] = none
  select_top (a ∷ xs) = some (select a xs).0

  unfoldable pub select_pop : List A → List A
  unfolding select
  select_pop [] = []
  select_pop (a ∷ xs) = (select a xs).1

  pub select-sum :
      (f : A → ℕ) (a : A) (xs : List A) → f a + sum f xs ≡ f (select a xs).0 + sum f (select a xs).1
  unfolding select
  select-sum f a [] = refl
  select-sum f a (b ∷ xs) = ground (arith, select-sum f b xs)

  pub select-least :
      (a : A) (xs : List A) (lo : ℕ)
      → lo ≤ key (select a xs).0
      → sum (λ b. one_if (ltb (key b) lo)) (a ∷ xs) ≡ 0
  unfolding select
  select-least a [] lo h = ground (arith, h)
  select-least a (b ∷ xs) lo h = elim (Bool-cases (leb (key a) (key (select b xs).0))) [
    | inl first ↦
        let h' : lo ≤ key a = rw (first) at h in
        ground (arith, select-least b xs lo (ground (arith, first, h')))
    | inr later ↦
        let h' : lo ≤ key (select b xs).0 = rw (later) at h in
        ground (arith, select-least b xs lo h', later)
  ]

  pub none-sum : (f : A → ℕ) (q : List A) → select_top q ≡ none → sum f q ≡ 0
  unfolding select select_top select_pop
  none-sum f [] e = refl
  none-sum f (a ∷ q) e = absurd (ground (arith, e))

  pub some-sum :
      (f : A → ℕ) (a : A) (q : List A)
      → select_top q ≡ some a
      → sum f q ≡ f a + sum f (select_pop q)
  unfolding select select_top select_pop
  some-sum f a [] e = absurd (ground (arith, e))
  some-sum f a (b ∷ q) e = rw (← some-injective _ _ e) (select-sum f b q)

  pub some-least :
      (lo : ℕ) (a : A) (q : List A)
      → select_top q ≡ some a
      → lo ≤ key a
      → sum (λ b. one_if (ltb (key b) lo)) q ≡ 0
  unfolding select select_top select_pop
  some-least lo a [] e h = absurd (ground (arith, e))
  some-least lo a (b ∷ q) e h = select-least b q lo (rw (some-injective _ _ e) h)

  unfoldable pub by_selection : PriorityQueue key
  unfolding select select_top select_pop
  by_selection = record {
    Queue = List A;
    empty = [];
    push = λ a q. a ∷ q;
    top = select_top;
    pop = select_pop;
    total = sum;
    total-empty = λ f. refl;
    total-push = λ f a q. refl;
    total-none = none-sum;
    total-pop = some-sum;
    least = some-least;
  }
