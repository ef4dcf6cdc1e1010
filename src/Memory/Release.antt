-- ===== src/Memory/Release.antt =====
-- `PoolAllocator::Release` of Memory.cpp and `MemoryPool::Push` of MemoryPool.cpp.
use iocp_multi_threading_cha.Prelude.{
  ℕ, zero, suc, ◌+◌, occurs, one_if, sym, ==_iff, if◌then◌else◌, ◌⊎◌, ◌%◌, ◌≤◌, ◌<◌, ◌≡◌, ◌≢◌, ◌∙◌,
  refl, ap, inl, inr, true, false, some, List, ◌∷◌, ◌==◌, ltb, length, get_elem?, update,
  Bool-cases, List-cases, arith,
}
use iocp_multi_threading_cha.Memory.{
  header_magic, max_alloc_size, max_local_cache, batch_size, Heap, Run, returns, set_pool,
  set_cache, pool_push, pool_idx, flush, keep, release_to, release, init,
}
use iocp_multi_threading_cha.Memory.Classes.{init-own}
use iocp_multi_threading_cha.Memory.Owners.{
  Place, pooled, cached, in_use, is_cached, Owned, at_cache,
}

-- The back of a thread's list goes to the pool.
back-Owned :
    (t i b : ℕ) (rest : List ℕ) (place : ℕ → Place) (h : Heap)
    → Owned place h
    → h.cache t i ≡ b ∷ rest
    → (place b ≡ cached t i)
      × Owned (update place b (pooled i)) (
          set_pool i
            (record (h.pool i) {
              use_count = ((h.pool i).use_count + 4294967295) % 4294967296;
              free = b ∷ (h.pool i).free;
            })
            (set_cache t i rest h))
back-Owned t i b rest place h o e = (
  at,
  record {
    pools = λ c j. ground (arith, o.pools c j, at);
    caches = λ c u j. ground (arith, o.caches c u j, at, e);
    headers = λ c j. ground (arith, o.headers c j, o.headers b i, at);
    sizes = λ j size. ground (arith, o.sizes j size);
    limit = λ u j. ground (arith, o.limit u j, e);
    counts = λ j. ground (arith, o.counts j);
  },
)
  where
    at : place b ≡ cached t i
    at = at_cache (place b) t i (ground (arith, o.caches b t i, e))

-- A block in use is put at the back of a thread's list.
keep-Owned :
    (t i b : ℕ) (place : ℕ → Place) (h : Heap)
    → Owned place h
    → place b ≡ in_use i
    → length (h.cache t i) < max_local_cache
    → Owned (update place b (cached t i)) (set_cache t i (b ∷ h.cache t i) h)
keep-Owned t i b place h o at l = record {
  pools = λ c j. ground (arith, o.pools c j, at);
  caches = λ c u j. ground (arith, o.caches c u j, at);
  headers = λ c j. ground (arith, o.headers c j, o.headers b i, at);
  sizes = o.sizes;
  limit = λ u j. ground (arith, o.limit u j);
  counts = o.counts;
}

-- Where a block is that was at a place, when only blocks of thread `t`'s list for pool `i` move, and these
-- to the pool.
abbrev pub Kept : ℕ → ℕ → Place → Place → Type 0
Kept t i p p' = (p' ≡ p) ⊎ ((p ≡ cached t i) × (p' ≡ pooled i))

-- A block of the list that goes to the pool first.
Kept-after :
    (t i b c : ℕ) (place : ℕ → Place) (p : Place)
    → place b ≡ cached t i
    → Kept t i (update place b (pooled i) c) p
    → Kept t i (place c) p
Kept-after t i b c place p at k = elim (Bool-cases (b == c)) [
  | inl same ↦
      let e : b ≡ c = (==_iff b c).0 same in
      let moved : update place b (pooled i) c ≡ pooled i =
        ap (λ w. if w then pooled i else place c) same in
      let from : place c ≡ cached t i = ap place (sym e) ∙ at in
      elim k [ inl still ↦ inr (from, still ∙ moved) | inr (other, now) ↦ inr (from, now) ]
  | inr other ↦
      let unmoved : update place b (pooled i) c ≡ place c =
        ap (λ w. if w then pooled i else place c) other in
      elim k [
        | inl still ↦ inl (still ∙ unmoved)
        | inr (at_list, now) ↦ inr (sym unmoved ∙ at_list, now)
      ]
]

Kept-in_use : (t i j : ℕ) (p p' : Place) → p ≡ in_use j → Kept t i p p' → p' ≡ in_use j
Kept-in_use t i j p p' e (inl still) = still ∙ e
Kept-in_use t i j p p' e (inr (at, _)) = absurd (cc (e, at))

-- What the flush of `n` blocks of a list of `total` leaves: no block moves but from the list to the pool.
record Flushed (place : ℕ → Place) (t i n total : ℕ) (run : Run Unit) : Type 0 where
  heap : Heap
  places : ℕ → Place
  returned : run ≡ returns tt heap
  kept : Owned places heap
  same : (c : ℕ) → Kept t i (place c) (places c)
  remaining : length (heap.cache t i) + n ≡ total

push-eq :
    (t i b : ℕ) (rest : List ℕ) (place : ℕ → Place) (h : Heap)
    → Owned place h
    → h.cache t i ≡ b ∷ rest
    → pool_push i b (set_cache t i rest h)
      ≡ returns tt (
          set_pool i
            (record (h.pool i) {
              use_count = ((h.pool i).use_count + 4294967295) % 4294967296;
              free = b ∷ (h.pool i).free;
            })
            (set_cache t i rest h))
unfolding pool_push
push-eq t i b rest place h o e =
    let (at, kept) = back-Owned t i b rest place h o e in
    rw (o.headers b i (rw (at) (ground arith))) refl

flush-eq :
    (n t i b : ℕ) (rest : List ℕ) (h h' : Heap)
    → h.cache t i ≡ b ∷ rest
    → pool_push i b (set_cache t i rest h) ≡ returns tt h'
    → flush (suc n) t i i h ≡ flush n t i i h'
unfolding flush
flush-eq n t i b rest h h' e p = rw (flush, e, p) refl

flush-Owned :
    (n t i : ℕ) (place : ℕ → Place) (h : Heap)
    → Owned place h
    → n ≤ length (h.cache t i)
    → Flushed place t i n (length (h.cache t i)) (flush n t i i h)
unfolding flush
flush-Owned zero t i place h o l = record {
  heap = h;
  places = place;
  returned = refl;
  kept = o;
  same = λ c. inl refl;
  remaining = omega arith;
}
flush-Owned (suc n) t i place h o l = elim (List-cases (h.cache t i)) [
  | inl e ↦ absurd (ground (arith, e, l))
  | inr (b, rest, e) ↦
      let (at, kept) = back-Owned t i b rest place h o e in
      let next = flush-Owned n t i _ _ kept (ground (arith, e, l)) in
      record {
        heap = next.heap;
        places = next.places;
        returned = flush-eq n t i b rest h _ e (push-eq t i b rest place h o e) ∙ next.returned;
        kept = next.kept;
        same = λ c. Kept-after t i b c place _ at (next.same c);
        remaining = ground (arith, next.remaining, e);
      }
]

-- What thread `t`'s `Release` of block `b` of class `i` leaves: `b` is in the thread's list, and every
-- other block is where it was, or has moved from that list to the pool of its class.
pub record Released (place : ℕ → Place) (t i b : ℕ) (run : Run Unit) : Type 0 where
  pub heap : Heap
  pub places : ℕ → Place
  pub returned : run ≡ returns tt heap
  pub kept : Owned places heap
  pub given_back : places b ≡ cached t i
  pub listed : occurs b (heap.cache t i) ≡ 1
  pub same : (c : ℕ) → c ≢ b → Kept t i (place c) (places c)

Kept-update :
    (t i b c : ℕ) (place places : ℕ → Place)
    → c ≢ b
    → Kept t i (place c) (places c)
    → Kept t i (place c) (update places b (cached t i) c)
Kept-update t i b c place places other k = elim k [
  | inl still ↦ inl (apart ∙ still)
  | inr (at_list, now) ↦ inr (at_list, apart ∙ now)
]
  where
    apart : update places b (cached t i) c ≡ places c
    apart = ground (arith, other)

update-same : (places : ℕ → Place) (b : ℕ) (p : Place) → update places b p b ≡ p
update-same places b p = ground arith

listed_once : (t i b n : ℕ) (p : Place) → p ≡ cached t i → n ≡ one_if (is_cached p t i) → n ≡ 1
listed_once t i b n p at e = e ∙ ap (λ w. one_if (is_cached w t i)) at ∙ ground arith

release_to-Owned :
    (t i b : ℕ) (place : ℕ → Place) (h : Heap)
    → Owned place h
    → place b ≡ in_use i
    → Released place t i b (release_to t i i b h)
unfolding release_to keep
release_to-Owned t i b place h o at =
    elim (Bool-cases (ltb (length (h.cache t i)) max_local_cache)) [
      | inl room ↦
          let next = keep-Owned t i b place h o at (ground (arith, room)) in
          record {
            heap = set_cache t i (b ∷ h.cache t i) h;
            places = update place b (cached t i);
            returned = rw (room) refl;
            kept = next;
            given_back = update-same place b (cached t i);
            listed = listed_once t i b _ _ (update-same place b (cached t i)) (next.caches b t i);
            same = λ c other. Kept-update t i b c place place other (inl refl);
          }
      | inr full ↦
          let flushed = flush-Owned batch_size t i place h o (ground (arith, full)) in
          let still = Kept-in_use t i i (place b) (flushed.places b) at (flushed.same b) in
          let next =
            keep-Owned t i b flushed.places flushed.heap flushed.kept still
              (ground (arith, flushed.remaining, o.limit t i)) in
          record {
            heap = set_cache t i (b ∷ flushed.heap.cache t i) flushed.heap;
            places = update flushed.places b (cached t i);
            returned = rw (full, flushed.returned) refl;
            kept = next;
            given_back = update-same flushed.places b (cached t i);
            listed =
                listed_once t i b _ _ (update-same flushed.places b (cached t i))
                  (next.caches b t i);
            same = λ c other. Kept-update t i b c place flushed.places other (flushed.same c);
          }
    ]

release_at :
    (t i idx b : ℕ) (place : ℕ → Place) (h : Heap)
    → idx ≡ i
    → Owned place h
    → place b ≡ in_use i
    → Released place t i b (release_to t i idx b h)
release_at t i idx b place h e o at = rw (e) (release_to-Owned t i b place h o at)

-- While the heap is in order, `Release` of a block in use crashes at no check, with the flush of the
-- full list as without it: the heap is in order afterwards, the block stands once in the list of the thread
-- that gave it back, for its pool; every other block is where it was, or was in that list and is now in
-- the pool; and no list of a thread exceeds its limit.
pub release-Owned :
    (t b i size : ℕ) (place : ℕ → Place) (h : Heap)
    → Owned place h
    → place b ≡ in_use i
    → get_elem? init.sizes i ≡ some size
    → Released place t i b (release t (some b) h)
unfolding release
release-Owned t b i size place h o at there =
    let (found, idx, small) = init-own i size there in
    let header = o.headers b i (rw (at) (ground arith)) in
    let own = ap (λ m. m.alloc_size) header ∙ o.sizes i size there in
    let magic : ((h.header b).magic == header_magic) ≡ true = rw (header) refl in
    let not_large : ltb max_alloc_size (h.header b).alloc_size ≡ false =
      ground (arith, own, small) in
    rw (magic, not_large, ap init.table own ∙ found)
      (release_at t i (pool_idx (h.header b).alloc_size) b place h (ap pool_idx own ∙ idx) o at)
