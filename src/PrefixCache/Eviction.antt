-- ===== src/PrefixCache/Eviction.antt =====
-- evict_lru and evict: which entries go, and that the pool stays in order.
use mathlib.Core.List.{reverse-reverse, append-nil}
use llm_steady_infer.Base.{
  ℕ, ◌+◌, ◌≤◌, ◌<◌, ◌≡◌, inl, inr, refl, ap, ◌∙◌, some, List, [], reverse, ltb, ◌==◌, length,
  length-reverse, All-reverse, All, Returns, Returns-bind, Returns-if, Returns-both, Bool-cases,
  ◌>>=◌, arith,
}
use llm_steady_infer.BlockAllocator.{BlockAllocator, ReclaimFn}
use llm_steady_infer.BlockAllocator.Invariant.{Inv}
use llm_steady_infer.BlockAllocator.Reclaim.{Reclaimed, Reclaimed-refl, Kept, IsReclaim}
use llm_steady_infer.PrefixCache.{
  PrefixCacheStats, k_evict_scan_cap, PrefixCache, Entry, evict_walk, evict_lru, evict,
}
use llm_steady_infer.PrefixCache.Walking.{InPool, WalkPost, evict_walk-Walked, in_use}

-- What an eviction of up to `n` entries does.
pub record Evicted (P : Entry → Type 0) (n : ℕ) (c c' : PrefixCache) (evicted : ℕ)
    (a a' : BlockAllocator) : Type 0 where
  pub valid : Inv a'
  pub reclaimed : Reclaimed a a'
  pub same_block_size : c'.block_size ≡ c.block_size
  pub same_max : c'.max_entries ≡ c.max_entries
  pub same_hard_max : c'.hard_max_entries ≡ c.hard_max_entries
  pub bounded : evicted ≤ n
  pub accounted : length c'.entries + evicted ≡ length c.entries
  pub in_order : in_use a.ref_counts c'.entries ≡ in_use a.ref_counts c.entries
  pub shared : All P c.entries → All P c'.entries
  pub in_pool : InPool c'.entries a'
  pub progress : 0 < n → evicted ≡ 0 → All (λ e. 0 < a.ref_counts e.block_id) c.entries

All-of-reverse : (P : Entry → Type 0) (xs : List Entry) → All P (reverse xs) → All P xs
All-of-reverse P xs h = rw reverse-reverse at (All-reverse P (reverse xs) h)

module _ (P : Entry → Type 0) (n : ℕ) (c : PrefixCache) (a : BlockAllocator) (v : Inv a)
    (h : InPool c.entries a) where
  abbrev pub EvictPost : PrefixCache × ℕ × BlockAllocator → Type 0
  EvictPost (c', evicted, a') = Evicted P n c c' evicted a a'

  pub evict_lru-Evicted : Returns (evict_lru n c a) EvictPost
  unfolding evict_lru
  evict_lru-Evicted =
      Returns-bind
        (λ r.
          WalkPost P n (reverse c.entries) [] 0 a r
          × WalkPost (λ e. e.block_id < a.num_blocks) n (reverse c.entries) [] 0 a r)
        EvictPost (evict_walk n (reverse c.entries) k_evict_scan_cap ([], 0, a)) _
        (Returns-both _ _ (evict_walk n (reverse c.entries) k_evict_scan_cap ([], 0, a))
          (evict_walk-Walked P n (reverse c.entries) k_evict_scan_cap [] 0 a v in_range)
          (evict_walk-Walked (λ e. e.block_id < a.num_blocks) n (reverse c.entries) k_evict_scan_cap
            [] 0 a v in_range))
        (λ (entries, evicted, a') (w, u). record {
          valid = w.valid;
          reclaimed = w.reclaimed;
          same_block_size = refl;
          same_max = refl;
          same_hard_max = refl;
          bounded = w.bounded (omega arith);
          accounted = omega (arith, w.accounted, length-reverse c.entries);
          in_order = w.in_order ∙ ap (in_use a.ref_counts) (rw (append-nil, reverse-reverse) refl);
          shared = λ k. w.shared (All-reverse P c.entries k) tt;
          in_pool = rw w.reclaimed.same_num_blocks (u.shared in_range tt);
          progress = λ lt z. All-of-reverse _ c.entries (w.progress (omega arith) z);
        })
    where
      in_range : InPool (reverse c.entries) a
      in_range = All-reverse (λ e. e.block_id < a.num_blocks) c.entries h

  Evicted-refl : n ≡ 0 → Evicted P n c c 0 a a
  Evicted-refl e = record {
    valid = v;
    reclaimed = Reclaimed-refl a;
    same_block_size = refl;
    same_max = refl;
    same_hard_max = refl;
    bounded = omega arith;
    accounted = omega arith;
    in_order = refl;
    shared = λ k. k;
    in_pool = h;
    progress = λ lt. absurd (omega arith);
  }

  Evicted-stats :
      (c' : PrefixCache) (evicted : ℕ) (a' : BlockAllocator) (s : PrefixCacheStats)
      → Evicted P n c c' evicted a a'
      → Evicted P n c (record c' { stats = s }) evicted a a'
  Evicted-stats c' evicted a' s w = record {
    valid = w.valid;
    reclaimed = w.reclaimed;
    same_block_size = w.same_block_size;
    same_max = w.same_max;
    same_hard_max = w.same_hard_max;
    bounded = w.bounded;
    accounted = w.accounted;
    in_order = w.in_order;
    shared = w.shared;
    in_pool = w.in_pool;
    progress = w.progress;
  }

  -- If the pool is in order and every entry names one of its blocks, evict does not abort and
  -- keeps that so. It frees at most `n` entries and keeps those whose block a row references, in
  -- their order; it frees none only if every entry is referenced.
  pub evict-Evicted : Returns (evict n c a) EvictPost
  unfolding evict
  evict-Evicted =
      Returns-if EvictPost (n == 0) _ _ (λ zero_blocks. Evicted-refl (ground arith))
        (λ _.
          Returns-bind EvictPost EvictPost (evict_lru n c a) _ evict_lru-Evicted
            (λ (c', evicted, a') w. elim (Bool-cases (ltb evicted n)) [
              | inl e ↦ rw e (Evicted-stats c' evicted a' _ w)
              | inr e ↦ rw e w
            ]))

-- The hook that the scheduler installs.
pub reclaim_hook : ReclaimFn PrefixCache
reclaim_hook needed c a = do (c', evicted, a') ← evict needed c a; some (c', a')

abbrev pub CacheOk : PrefixCache → BlockAllocator → Type 0
CacheOk c a = InPool c.entries a

-- Evicting cache entries is a lawful way to reclaim blocks.
pub reclaim_hook-IsReclaim : IsReclaim CacheOk reclaim_hook
unfolding reclaim_hook
reclaim_hook-IsReclaim = record {
  apply = λ n c a k v.
      Returns-bind (EvictPost (λ _. Unit) n c a v k) (Kept CacheOk a) (evict n c a) _
        (evict-Evicted (λ _. Unit) n c a v k)
        (λ (c', evicted, a') w. (w.in_pool, w.valid, w.reclaimed));
}
