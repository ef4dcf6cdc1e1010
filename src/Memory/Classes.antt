-- ===== src/Memory/Classes.antt =====
-- The size classes: `_poolTable` after `PoolAllocator::Init`, and `poolIdx`.
use iocp_multi_threading_cha.Prelude.{
  ℕ, zero, suc, ◌+◌, ◌-◌, ◌≤◌, ◌<◌, ◌≡◌, ◌∙◌, refl, ap, inl, inr, Bool, true, ◌&&◌, Option, none,
  some, List, [], ◌∷◌, ◌++◌, ltb, ltb→lt, leb, ◌==◌, if◌then◌else◌, length, get_elem?,
  get_elem?-within, update, Bool-cases, dec_lt, arith,
}
use iocp_multi_threading_cha.Memory.{
  PoolTable, fill, add_pool, add_pools, no_pools, init, pool_idx, max_alloc_size,
}

-- The first pool whose blocks are large enough, counted from `i`.
abbrev pub first_fit : ℕ → List ℕ → ℕ → Option ℕ
first_fit n [] i = none
first_fit n (size ∷ sizes) i = if leb n size then some i else first_fit n sizes (suc i)

fill-eq :
    (pool from count : ℕ) (table : ℕ → Option ℕ) (n : ℕ)
    → fill pool from count table n
      ≡ (if leb from n && ltb n (from + count) then some pool else table n)
unfolding fill
fill-eq pool from zero table n = ground arith
fill-eq pool from (suc count) table n =
    ground (arith, fill-eq pool (suc from) count (update table from (some pool)) n)

first_fit-append :
    (n size i : ℕ) (sizes : List ℕ)
    → first_fit n (sizes ++ (size ∷ [])) i ≡ elim (first_fit n sizes i) [
      | some j ↦ some j
      | none ↦ if leb n size then some (i + length sizes) else none
    ]
first_fit-append n size i [] = ground arith
first_fit-append n size i (x ∷ sizes) = ground (arith, first_fit-append n size (suc i) sizes)

-- The table so far: every entry below `currentPoolIdx` is the first pool that fits, and no pool is
-- as large as `currentPoolIdx`.
record Filled (t : PoolTable) : Type 0 where
  entries : (n : ℕ) → t.table n ≡ first_fit n t.sizes 0
  within : (n : ℕ) → t.current_pool_idx ≤ n → first_fit n t.sizes 0 ≡ none
  below : (n : ℕ) → n < t.current_pool_idx → (i : ℕ) × (first_fit n t.sizes 0 ≡ some i)

grown :
    (size n : ℕ) (t : PoolTable)
    → Filled t
    → first_fit n (t.sizes ++ (size ∷ [])) 0 ≡ (
        if ltb n t.current_pool_idx
        then first_fit n t.sizes 0
        else if leb n size
        then some (length t.sizes)
        else none)
grown size n t f = elim (Bool-cases (ltb n t.current_pool_idx)) [
  | inl old ↦
      let (i, e) = f.below n (omega (arith, ltb→lt n t.current_pool_idx old)) in
      rw (first_fit-append n size 0 t.sizes, e, old) refl
  | inr new ↦
      let e : first_fit n t.sizes 0 ≡ none = f.within n (ground (arith, new)) in
      rw (first_fit-append n size 0 t.sizes, e, new) (ground arith)
]

add_pool-Filled :
    (size : ℕ) (t : PoolTable) → t.current_pool_idx ≤ size → Filled t → Filled (add_pool size t)
unfolding add_pool
add_pool-Filled size t h f = record {
  entries = λ n.
      let filled =
        fill-eq (length t.sizes) t.current_pool_idx (suc size - t.current_pool_idx) t.table n in
      elim (Bool-cases (ltb n t.current_pool_idx)) [
        | inl old ↦ ground (arith, grown size n t f, f.entries n, filled, old)
        | inr new ↦
            ground
              (arith, grown size n t f, f.entries n, f.within n (ground (arith, new)), filled, new)
      ];
  within = λ n l. ground (arith, grown size n t f);
  below = λ n l. elim (Bool-cases (ltb n t.current_pool_idx)) [
    | inl old ↦
        let (i, e) = f.below n (omega (arith, ltb→lt n t.current_pool_idx old)) in
        (i, ground (arith, grown size n t f, e, old))
    | inr new ↦ (length t.sizes, ground (arith, grown size n t f, new))
  ];
}

add_pools-Filled :
    (fuel size limit step : ℕ) (t : PoolTable)
    → t.current_pool_idx ≤ size
    → 0 < step
    → Filled t
    → Filled (add_pools fuel size limit step t)
unfolding add_pools
add_pools-Filled zero size limit step t h p f = f
add_pools-Filled (suc fuel) size limit step t h p f = elim (Bool-cases (leb size limit)) [
  | inl more ↦ rw (more) (
      add_pools-Filled fuel (size + step) limit step (add_pool size t) (idx) p
        (add_pool-Filled size t h f))
  | inr stop ↦ rw (stop) f
]
  where
    idx : (add_pool size t).current_pool_idx ≤ size + step
    idx = unfold add_pool in ground arith

no_pools-Filled : Filled no_pools
no_pools-Filled = record {
  entries = λ n. refl;
  within = λ n l. refl;
  below = λ n l. absurd (omega arith);
}

init-Filled : Filled init
unfolding init
init-Filled = add_pools-Filled 9 (2048 + 256) 4096 256 second (omega (arith, e2)) (omega arith) (
    add_pools-Filled 9 (1024 + 128) 2048 128 first (omega (arith, e1)) (omega arith)
      (add_pools-Filled 33 32 1024 32 no_pools (omega arith) (omega arith) no_pools-Filled))
  where
    first : PoolTable
    first = add_pools 33 32 1024 32 no_pools

    second : PoolTable
    second = add_pools 9 (1024 + 128) 2048 128 first

    e1 : first.current_pool_idx ≡ 1025
    e1 = unfold add_pools in unfold add_pool in refl

    e2 : second.current_pool_idx ≡ 2049
    e2 = unfold add_pools in unfold add_pool in refl

init-idx : init.current_pool_idx ≡ 4097
unfolding init add_pools add_pool
init-idx = refl

init-length : length init.sizes ≡ 48
unfolding init add_pools add_pool
init-length = refl

-- A fit is large enough, and every pool before it is too small.
first_fit-fits :
    (n i j : ℕ) (sizes : List ℕ)
    → first_fit n sizes i ≡ some j
    → (k : ℕ) × (size : ℕ) × (j ≡ i + k)
      × (get_elem? sizes k ≡ some size)
      × (n ≤ size)
      × ((l smaller : ℕ) → l < k → get_elem? sizes l ≡ some smaller → smaller < n)
first_fit-fits n i j [] e = absurd (ground (arith, e))
first_fit-fits n i j (x ∷ sizes) e = elim (Bool-cases (leb n x)) [
  | inl fits ↦ (
    0,
    x,
    ground (arith, e, fits),
    refl,
    ground (arith, fits),
    λ l smaller h. absurd (omega arith),
  )
  | inr small ↦
      let (k, size, at, there, fits, before) = first_fit-fits n (suc i) j sizes (rw (small) at e) in
      (
        suc k,
        size,
        omega (arith, at),
        there,
        fits,
        λ l smaller h e'. earlier k before l smaller h e' (ground (arith, small)),
      )
]
  where
    earlier :
        (k : ℕ)
        → ((l smaller : ℕ) → l < k → get_elem? sizes l ≡ some smaller → smaller < n)
        → (l smaller : ℕ) → l < suc k
        → get_elem? (x ∷ sizes) l ≡ some smaller
        → x < n
        → smaller < n
    earlier k before zero smaller h e' lt = ground (arith, e', lt)
    earlier k before (suc l) smaller h e' lt = before l smaller (omega (arith, h)) e'

-- Every size of a list is from 1 to 4096, and `poolIdx` of it is its place, counted from `i`.
indexed : List ℕ → ℕ → Bool
indexed [] i = true
indexed (size ∷ sizes) i =
    (pool_idx size == i && (ltb 0 size && leb size max_alloc_size)) && indexed sizes (suc i)

indexed-at :
    (sizes : List ℕ) (i k size : ℕ)
    → indexed sizes i ≡ true
    → get_elem? sizes k ≡ some size
    → (pool_idx size ≡ i + k) × (0 < size) × (size ≤ max_alloc_size)
unfolding indexed
indexed-at [] i k size h e = absurd (ground (arith, e))
indexed-at (x ∷ sizes) i zero size h e =
    (ground (arith, h, e), ground (arith, h, e), ground (arith, h, e))
indexed-at (x ∷ sizes) i (suc k) size h e =
    let (at, more, most) = indexed-at sizes (suc i) k size (ground (arith, h)) e in
    (omega (arith, at), more, most)

init-indexed : indexed init.sizes 0 ≡ true
unfolding init add_pools add_pool indexed
init-indexed = refl

-- For every size from 1 to 4096 `Init` has left a pool in `_poolTable`: the one with the smallest
-- blocks that hold the size, all smaller pools being too small. The formula of `Alloc` and `Release`
-- for `poolIdx` finds this pool's place in `_pools`, which is below the 64 places of the thread's
-- cache.
pub init-fits :
    (n : ℕ)
    → 0 < n
    → n ≤ max_alloc_size
    → (i : ℕ) × (size : ℕ) × (init.table n ≡ some i)
      × (get_elem? init.sizes i ≡ some size)
      × (n ≤ size)
      × ((l smaller : ℕ) → l < i → get_elem? init.sizes l ≡ some smaller → smaller < n)
      × (pool_idx size ≡ i)
      × (i < 64)
init-fits n p h =
    let (j, e) = init-Filled.below n (omega (arith, init-idx, h)) in
    let (k, size, at, there, fits, before) = first_fit-fits n 0 j init.sizes e in
    let e' : j ≡ k = omega (arith, at) in
    (
      k,
      size,
      init-Filled.entries n ∙ e ∙ ap some e',
      there,
      fits,
      before,
      omega (arith, (indexed-at init.sizes 0 k size init-indexed there).0),
      omega (arith, get_elem?-within init.sizes k size there, init-length, e'),
    )

pool_idx-monotone : (m n : ℕ) → m ≤ n → pool_idx m ≤ pool_idx n
pool_idx-monotone m n l = ground arith

-- The pool of `_poolTable` for the size of a pool's blocks is that pool.
pub init-own :
    (i size : ℕ)
    → get_elem? init.sizes i ≡ some size
    → (init.table size ≡ some i) × (pool_idx size ≡ i) × (size ≤ max_alloc_size)
init-own i size there =
    let (at, more, most) = indexed-at init.sizes 0 i size init-indexed there in
    let (k, s, found, there', fits, before, at', small) = init-fits size more most in
    let same : k ≡ i = elim (dec_lt i k) [
      | yes l ↦ absurd (omega (arith, before i size l there))
      | no l ↦ omega (arith, l, at, at', pool_idx-monotone size s fits)
    ] in
    (found ∙ ap some same, omega (arith, at), most)
