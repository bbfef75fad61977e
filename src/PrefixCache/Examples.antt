-- ===== src/PrefixCache/Examples.antt =====
-- The cache's theorems at a cache of two entries, and runs of it.
use llm_steady_infer.Base.{
  ℕ, ◌*◌, ◌≤◌, ◌<◌, ◌≡◌, ◌≢◌, refl, sym, subst, true, some, List, [], ◌∷◌, length, Returns, arith,
}
use llm_steady_infer.BlockAllocator.{ref_count, reserve_shared_prefix}
use llm_steady_infer.BlockAllocator.Samples.{
  busy_pool, busy_pool-Inv, pinned_pool, parked_pool, parked_pool-Inv,
}
use llm_steady_infer.PrefixCache.{
  PrefixCache, PrefixCacheStats, Entry, block_hash, lookup, lookup_from, find, shareable,
  tokens_match, cacheable_blocks, evict, insert_committed,
}
use llm_steady_infer.PrefixCache.Eviction.{EvictPost, evict-Evicted}
use llm_steady_infer.PrefixCache.Lookup.{
  IsMatch, chain_of, lookup-IsMatch, lookup_stops_short, lookup-reserve_shared_prefix,
}
use llm_steady_infer.PrefixCache.Insertion.{Recorded, committed_blocks, insert_committed-Recorded}

abbrev prompt : List ℕ
prompt = 1 ∷ 2 ∷ 3 ∷ 4 ∷ 5 ∷ 6 ∷ 7 ∷ 8 ∷ 9 ∷ []

abbrev first_entry : Entry
first_entry = record {
  hash = block_hash 0 (1 ∷ 2 ∷ 3 ∷ 4 ∷ []);
  prev_hash = 0;
  block_id = 0;
  tokens = 1 ∷ 2 ∷ 3 ∷ 4 ∷ [];
}

abbrev second_entry : Entry
second_entry = record {
  hash = block_hash first_entry.hash (5 ∷ 6 ∷ 7 ∷ 8 ∷ []);
  prev_hash = first_entry.hash;
  block_id = 1;
  tokens = 5 ∷ 6 ∷ 7 ∷ 8 ∷ [];
}

abbrev no_stats : PrefixCacheStats
no_stats = record {
  lookups = 0;
  hits = 0;
  matched_blocks = 0;
  inserts = 0;
  evictions = 0;
  evict_shortfalls = 0;
}

abbrev empty_cache : PrefixCache
empty_cache = record {
  block_size = 4;
  max_entries = 4;
  hard_max_entries = 8;
  entries = [];
  stats = no_stats;
}

abbrev cache : PrefixCache
cache = record empty_cache { entries = second_entry ∷ first_entry ∷ [] }

evict-Evicted_example :
    Returns
      (evict 1 cache parked_pool)
      (EvictPost (λ _. Unit) 1 cache parked_pool parked_pool-Inv (omega arith, (omega arith, tt)))
evict-Evicted_example =
    evict-Evicted (λ _. Unit) 1 cache parked_pool parked_pool-Inv (omega arith, (omega arith, tt))

insert_committed-Recorded_example :
    Returns
      (insert_committed prompt 9
        (busy_pool.block_tables 0)
        (chain_of 4 0 0 prompt)
        empty_cache
        busy_pool)
      (Recorded (committed_blocks prompt 9 empty_cache) prompt empty_cache busy_pool)
unfolding cacheable_blocks
insert_committed-Recorded_example =
    insert_committed-Recorded prompt 9 (busy_pool.block_tables 0) 0 empty_cache busy_pool
      (record { valid = busy_pool-Inv; in_pool = tt; hashed = tt; bounded = omega arith })
      (omega arith) ((0, refl, omega arith), ((1, refl, omega arith), tt))

lookup-IsMatch_example :
    IsMatch cache pinned_pool 0 prompt
      (lookup prompt pinned_pool cache).blocks
      (lookup prompt pinned_pool cache).hashes
lookup-IsMatch_example = lookup-IsMatch prompt cache pinned_pool

lookup_stops_short_example : length (lookup prompt pinned_pool cache).blocks * 4 < 9
lookup_stops_short_example = lookup_stops_short prompt cache pinned_pool (omega arith)

both_blocks : (lookup prompt pinned_pool cache).blocks ≡ 0 ∷ 1 ∷ []
unfolding lookup lookup_from find shareable tokens_match cacheable_blocks block_hash ref_count
both_blocks = refl

cons-ne-nil : (x : ℕ) (xs : List ℕ) → x ∷ xs ≢ []
cons-ne-nil x xs e = cc e

lookup-reserve_shared_prefix_example :
    (reserve_shared_prefix (some 1) (lookup prompt pinned_pool cache).blocks pinned_pool).1 ≡ true
lookup-reserve_shared_prefix_example =
    lookup-reserve_shared_prefix prompt cache pinned_pool 1 (omega arith, (omega arith, tt))
      (omega arith) refl (subst (λ xs. xs ≢ []) (sym both_blocks) (cons-ne-nil 0 (1 ∷ [])))
      (subst (λ xs. length xs ≤ 3) (sym both_blocks) (omega arith))
