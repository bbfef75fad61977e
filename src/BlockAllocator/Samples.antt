-- ===== src/BlockAllocator/Samples.antt =====
-- Pools for the examples: six blocks of four tokens, two rows of three entries.
use llm_steady_infer.Base.{ℕ, true, false, none, some, List, [], ◌∷◌, set, update, arith}
use llm_steady_infer.BlockAllocator.{
  BlockAllocator, create, pop_blocks, pop_into, first_free_row, reclaim_for, allocate_blocks,
  mark_cached, free_walk, drop_ref, release_block, free_blocks_from,
}
use llm_steady_infer.BlockAllocator.Invariant.{Inv}
use llm_steady_infer.BlockAllocator.Admission.{taken, allocate_blocks-Allocated}
use llm_steady_infer.BlockAllocator.Sharing.{mark_cached-Inv}
use llm_steady_infer.BlockAllocator.Release.{free_blocks_from-Freed}
use llm_steady_infer.BlockAllocator.SelfCheck.{create-Fresh}

abbrev pub new_pool : BlockAllocator
new_pool = record {
  num_blocks = 6;
  num_rows = 2;
  max_blocks_per_seq = 3;
  block_size = 4;
  free_blocks = 0 ∷ 1 ∷ 2 ∷ 3 ∷ 4 ∷ 5 ∷ [];
  ref_counts = λ _. 0;
  cached = λ _. false;
  block_tables = λ _. none ∷ none ∷ none ∷ [];
  row_busy = λ _. false;
}

pub new_pool-Inv : Inv new_pool
unfolding create
new_pool-Inv = (create-Fresh 6 2 3 4 (omega arith) (omega arith)).valid

abbrev popped : BlockAllocator → ℕ → ℕ → List ℕ → BlockAllocator
popped a entry b rest = record a {
  free_blocks = rest;
  ref_counts = update a.ref_counts b 1;
  block_tables = update a.block_tables 0 (set (a.block_tables 0) entry (some b));
}

-- Row 0 mounts the blocks 0 and 1.
abbrev pub busy_pool : BlockAllocator
busy_pool = popped (popped (taken new_pool 0) 0 0 (1 ∷ 2 ∷ 3 ∷ 4 ∷ 5 ∷ [])) 1 1 (2 ∷ 3 ∷ 4 ∷ 5 ∷ [])

pub busy_pool-Inv : Inv busy_pool
unfolding allocate_blocks pop_blocks pop_into first_free_row reclaim_for
busy_pool-Inv =
    (allocate_blocks-Allocated {C = Unit {0}} (λ _ _. Unit) none tt 2 tt new_pool tt new_pool-Inv).0

abbrev half_pinned : BlockAllocator
half_pinned = record busy_pool { cached = update busy_pool.cached 0 true }

-- The cache pins both blocks.
abbrev pub pinned_pool : BlockAllocator
pinned_pool = record half_pinned { cached = update half_pinned.cached 1 true }

half_pinned-Inv : Inv half_pinned
unfolding mark_cached
half_pinned-Inv = (mark_cached-Inv 0 busy_pool busy_pool-Inv (omega arith)).0

pub pinned_pool-Inv : Inv pinned_pool
unfolding mark_cached
pinned_pool-Inv = (mark_cached-Inv 1 half_pinned half_pinned-Inv (omega arith)).0

-- Row 0 has let go of them.
abbrev pub parked_pool : BlockAllocator
parked_pool = record pinned_pool {
  ref_counts = update (update pinned_pool.ref_counts 0 0) 1 0;
  block_tables = update pinned_pool.block_tables 0 (none ∷ none ∷ none ∷ []);
  row_busy = update pinned_pool.row_busy 0 false;
}

pub parked_pool-Inv : Inv parked_pool
unfolding free_blocks_from free_walk drop_ref release_block
parked_pool-Inv = (free_blocks_from-Freed 0 0 pinned_pool pinned_pool-Inv (omega arith)).0

-- Row 1 has been claimed as well.
abbrev pub joined_pool : BlockAllocator
joined_pool = taken pinned_pool 1

pub joined_pool-Inv : Inv joined_pool
unfolding allocate_blocks pop_blocks pop_into first_free_row reclaim_for
joined_pool-Inv =
    (allocate_blocks-Allocated {C = Unit {0}} (λ _ _. Unit) none tt 0 tt pinned_pool tt
      pinned_pool-Inv).0
