-- ===== src/BlockAllocator/Examples.antt =====
-- Runs of the allocator, and its theorems at the sample pools.
use llm_steady_infer.Base.{
  ℕ, ◌≤◌, ◌≡◌, refl, true, false, none, some, [], ◌∷◌, count, length, ◌+◌, Returns, arith,
}
use llm_steady_infer.BlockAllocator.{
  BlockAllocator, create, allocate_blocks, append_blocks, free_blocks_from, reserve_shared_prefix,
  evict_cached, invariant_holds, num_busy_rows, num_busy, reclaimable_blocks_from, reclaimable_in,
}
use llm_steady_infer.BlockAllocator.Invariant.{Inv}
use llm_steady_infer.BlockAllocator.Samples.{
  busy_pool, busy_pool-Inv, pinned_pool, pinned_pool-Inv, parked_pool, parked_pool-Inv, joined_pool,
  joined_pool-Inv,
}
use llm_steady_infer.BlockAllocator.Admission.{AllocatePost, allocate_blocks-Allocated}
use llm_steady_infer.BlockAllocator.Reclaim.{AppendPost, append_blocks-Appended, Reclaimed}
use llm_steady_infer.BlockAllocator.Release.{FreePost, free_blocks_from-Freed}
use llm_steady_infer.BlockAllocator.Gain.{free_blocks_from-gain}
use llm_steady_infer.BlockAllocator.Sharing.{
  Reserved, reserve_shared_prefix-Mounted, reserve_shared_prefix-accepts, evict_cached-Inv,
}
use llm_steady_infer.BlockAllocator.SelfCheck.{Fresh, invariant_holds-true, create-Fresh}

abbrev NoneOk : Unit {0} → BlockAllocator → Type 0
NoneOk c a = Unit

allocate_blocks-Allocated_example :
    Returns
      (allocate_blocks none 3 (tt, busy_pool))
      (AllocatePost NoneOk none tt 3 tt busy_pool tt busy_pool-Inv)
allocate_blocks-Allocated_example =
    allocate_blocks-Allocated NoneOk none tt 3 tt busy_pool tt busy_pool-Inv

append_blocks-Appended_example :
    Returns
      (append_blocks none (some 0) 1 (tt, busy_pool))
      (AppendPost NoneOk none tt 0 1 tt busy_pool tt busy_pool-Inv (omega arith) refl)
append_blocks-Appended_example =
    append_blocks-Appended NoneOk none tt 0 1 tt busy_pool tt busy_pool-Inv (omega arith) refl

free_blocks_from-Freed_example :
    Returns
      (free_blocks_from (some 0) 1 busy_pool)
      (FreePost 1 0 busy_pool busy_pool-Inv (omega arith))
free_blocks_from-Freed_example = free_blocks_from-Freed 1 0 busy_pool busy_pool-Inv (omega arith)

evict_cached-Inv_example :
    Returns
      (evict_cached 1 parked_pool)
      (λ a'. Inv a' × Reclaimed parked_pool a' × (a'.cached 1 ≡ false))
evict_cached-Inv_example = evict_cached-Inv 1 parked_pool parked_pool-Inv (omega arith) refl

invariant_holds-true_example : invariant_holds pinned_pool ≡ true
invariant_holds-true_example = invariant_holds-true pinned_pool pinned_pool-Inv

create-Fresh_example : Returns (create 6 2 3 4) (Fresh 6 2 3 4)
create-Fresh_example = create-Fresh 6 2 3 4 (omega arith) (omega arith)

reserve_shared_prefix-accepts_example :
    (reserve_shared_prefix (some 1) (0 ∷ 1 ∷ []) pinned_pool).1 ≡ true
reserve_shared_prefix-accepts_example =
    reserve_shared_prefix-accepts 1 0 (1 ∷ []) pinned_pool (omega arith) refl (omega arith)
      ((omega arith, refl), ((omega arith, refl), tt))

two_distinct : (x : ℕ) → count x (0 ∷ 1 ∷ []) ≤ 1
two_distinct x = ground arith

reserve_shared_prefix-Mounted_example :
    Inv (reserve_shared_prefix (some 1) (0 ∷ 1 ∷ []) joined_pool).0
    × Reserved 1
        (0 ∷ 1 ∷ [])
        joined_pool
        (reserve_shared_prefix (some 1) (0 ∷ 1 ∷ []) joined_pool).0
        (reserve_shared_prefix (some 1) (0 ∷ 1 ∷ []) joined_pool).1
reserve_shared_prefix-Mounted_example =
    reserve_shared_prefix-Mounted 1 (0 ∷ 1 ∷ []) joined_pool joined_pool-Inv (omega arith) refl
      two_distinct

free_blocks_from-gain_example : Returns (free_blocks_from (some 0) 1 busy_pool) (λ a'.
    length a'.free_blocks
    ≡ length busy_pool.free_blocks + reclaimable_blocks_from (some 0) 1 busy_pool)
free_blocks_from-gain_example = free_blocks_from-gain 1 0 busy_pool busy_pool-Inv (omega arith)

busy_rows : num_busy_rows busy_pool ≡ 1
unfolding num_busy_rows num_busy
busy_rows = refl

gain : reclaimable_blocks_from (some 0) 1 busy_pool ≡ 1
unfolding reclaimable_blocks_from reclaimable_in
gain = refl

pinned_gain : reclaimable_blocks_from (some 0) 0 pinned_pool ≡ 0
unfolding reclaimable_blocks_from reclaimable_in
pinned_gain = refl
