-- ===== src/Memory/Allocated.antt =====
-- `PoolAllocator::Alloc` of Source/ServerEngine/Memory/Memory.cpp.
use iocp_multi_threading_cha.Prelude.{
  ℕ, pos, ◌+◌, ◌%◌, ◌≤◌, ◌<◌, ◌≡◌, refl, ap, inl, inr, false, Option, some, ◌==◌, ltb, update,
  List-cases, arith,
}
use iocp_multi_threading_cha.Memory.{
  max_alloc_size, Heap, Run, returns, set_pool, set_cache, set_header, pop_from, pool_pop, attach,
  alloc_from, alloc,
}
use iocp_multi_threading_cha.Memory.Classes.{init-fits}
use iocp_multi_threading_cha.Memory.Owners.{
  Place, unborn, in_use, is_in_use, Owned, pop_cache-Owned, pop_pool-Owned, fresh-Owned,
  attach-Owned,
}

-- What `Alloc` returns: a block that was not in use, in use now.
pub record Handed (place : ℕ → Place) (i : ℕ) (run : Run (Option ℕ)) : Type 0 where
  pub block : ℕ
  pub heap : Heap
  pub returned : run ≡ returns (some block) heap
  pub free_before : (j : ℕ) → is_in_use (place block) j ≡ false
  pub kept : Owned (update place block (in_use i)) heap
  pub header_size : (heap.header block).alloc_size ≡ (heap.pool i).alloc_size

alloc_from-Owned :
    (t i m : ℕ) (place : ℕ → Place) (h : Heap)
    → Owned place h
    → place m ≡ unborn
    → Handed place i (alloc_from t i i (some m) h)
unfolding alloc_from attach pool_pop pop_from
alloc_from-Owned t i m place h o new = elim (List-cases (h.cache t i)) [
  | inr (b, rest, e) ↦
      let (at, kept) = pop_cache-Owned t i b rest place h o e in
      record {
        block = b;
        heap = set_header b (h.pool i).alloc_size (set_cache t i rest h);
        returned = rw (alloc_from, e) refl;
        free_before = λ j. rw (at) refl;
        kept = attach-Owned i b (h.pool i).alloc_size _ _ kept (ground arith) refl;
        header_size = ground arith;
      }
  | inl e ↦ elim (List-cases (h.pool i).free) [
    | inr (b, rest, e') ↦
        let (at, kept) = pop_pool-Owned i b rest place h o e' in
        record {
          block = b;
          heap = set_header b (h.pool i).alloc_size (
              set_pool i
                (record (h.pool i) {
                  use_count = ((h.pool i).use_count + 1) % 4294967296;
                  free = rest;
                })
                h);
          returned =
              rw (alloc_from, e)
                (ap (λ l. attach (h.pool i).alloc_size (pop_from l i (some m) h)) e');
          free_before = λ j. rw (at) refl;
          kept = attach-Owned i b (h.pool i).alloc_size _ _ kept (ground arith) (ground arith);
          header_size = ground arith;
        }
    | inl e' ↦ record {
      block = m;
      heap = set_header m (h.pool i).alloc_size (
          set_pool i
            (record (h.pool i) {
              alloc_count = ((h.pool i).alloc_count + 1) % 4294967296;
              use_count = ((h.pool i).use_count + 1) % 4294967296;
            })
            (set_header m (h.pool i).alloc_size h));
      returned =
          rw (alloc_from, e) (ap (λ l. attach (h.pool i).alloc_size (pop_from l i (some m) h)) e');
      free_before = λ j. rw (new) refl;
      kept =
          attach-Owned i m (h.pool i).alloc_size _ _ (fresh-Owned i m place h o new e')
            (ground arith) (ground arith);
      header_size = ground arith;
    }
  ]
]

-- A block of at least the size asked for, that was not in use, is returned and put to use.
pub record Allocated (place : ℕ → Place) (n : ℕ) (run : Run (Option ℕ)) : Type 0 where
  pub class : ℕ
  pub handed : Handed place class run
  pub enough : n ≤ (handed.heap.header handed.block).alloc_size

-- While the heap is in order and the system gives memory, `Alloc` of 1 to 4096 bytes in any thread
-- crashes at no check: it returns a block that was not in use before and whose pool's blocks are at
-- least that large, and leaves the heap in order with this block in use and every other in its
-- place.
pub alloc-Owned :
    (t n m : ℕ) (place : ℕ → Place) (h : Heap)
    → Owned place h
    → place m ≡ unborn
    → 0 < n
    → n ≤ max_alloc_size
    → Allocated place n (alloc t (pos n) (some m) h)
unfolding alloc
alloc-Owned t n m place h o new p l =
    let (i, size, found, there, fits, before, idx, lt) = init-fits n p l in
    let e = o.sizes i size there in
    let handed : Handed place i (alloc_from t i i (some m) h) =
      alloc_from-Owned t i m place h o new in
    let zero_no : (n == 0) ≡ false = ground arith in
    let small : ltb max_alloc_size n ≡ false = ground arith in
    let a : Allocated place n (alloc_from t i i (some m) h) = record {
      class = i;
      handed = handed;
      enough = omega (arith, handed.header_size, handed.kept.sizes i size there);
    } in
    rw (zero_no, small, found, e, idx) a
