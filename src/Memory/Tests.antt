-- ===== src/Memory/Tests.antt =====
-- Runs of the memory pools, and witnesses.
use iocp_multi_threading_cha.Prelude.{
  ℕ, pos, ◌≡◌, ◌≤◌, ◌<◌, refl, Option, none, some, length, get_elem?, update, arith,
}
use iocp_multi_threading_cha.Memory.{
  init, fill, add_pool, add_pools, after_init, Heap, Run, crash, returns, set_pool, set_header,
  alloc, alloc_from, attach, release, release_to, keep, pool_idx,
}
use iocp_multi_threading_cha.Memory.Classes.{init-fits}
use iocp_multi_threading_cha.Memory.Owners.{
  Place, unborn, in_use, Owned, fresh-Owned, after_init-Owned,
}
use iocp_multi_threading_cha.Memory.Allocated.{Allocated, alloc-Owned}
use iocp_multi_threading_cha.Memory.Release.{Released, release-Owned}

-- The sizes that the README's table begins with, and the pools that `Init` makes.
classes : (init.table 33 ≡ some 1) × (init.table 1025 ≡ some 32) × (length init.sizes ≡ 48)
unfolding init add_pools add_pool fill
classes = (refl, refl, refl)

-- Block 7 of the pool of 128 bytes, in use.
abbrev one_used : Heap
one_used =
    set_pool 3 (record (after_init.pool 3) { alloc_count = 1; use_count = 1 })
      (set_header 7 128 after_init)

abbrev where_used : ℕ → Place
where_used = update (λ b. unborn) 7 (in_use 3)

abbrev block_of : Run (Option ℕ) → Option ℕ
block_of crash = none
block_of (returns b h) = b

-- The block that was released last in a thread is the first to be handed out there.
abbrev then_alloc : Run Unit → Run (Option ℕ)
then_alloc crash = crash
then_alloc (returns tt h) = alloc 0 (pos 100) (some 8) h

reuse : block_of (then_alloc (release 0 (some 7) one_used)) ≡ some 7
unfolding release release_to keep alloc alloc_from attach init add_pools add_pool fill
reuse = refl

sizes_3 : get_elem? init.sizes 3 ≡ some 128
unfolding init add_pools add_pool
sizes_3 = refl

one_used-Owned : Owned where_used one_used
unfolding init add_pools add_pool
one_used-Owned = fresh-Owned 3 7 (λ b. unborn) after_init after_init-Owned refl refl

init-fits_example :
    (i : ℕ) × (size : ℕ) × (init.table 33 ≡ some i)
    × (get_elem? init.sizes i ≡ some size)
    × (33 ≤ size)
    × ((l smaller : ℕ) → l < i → get_elem? init.sizes l ≡ some smaller → smaller < 33)
    × (pool_idx size ≡ i)
    × (i < 64)
init-fits_example = init-fits 33 (omega arith) (omega arith)

alloc-Owned_example : Allocated where_used 100 (alloc 1 (pos 100) (some 8) one_used)
alloc-Owned_example =
    alloc-Owned 1 100 8 where_used one_used one_used-Owned refl (omega arith) (omega arith)

release-Owned_example : Released where_used 0 3 7 (release 0 (some 7) one_used)
release-Owned_example = release-Owned 0 7 3 128 where_used one_used one_used-Owned refl sizes_3
