-- ===== src/Scheduler/State/Hook.antt =====
-- The reclaim hook that the scheduler's constructor registers keeps the allocator's contract.
use llm_steady_infer.Base.{ℕ, Option, none, some, Returns, Returns-bind}
use llm_steady_infer.BlockAllocator.{BlockAllocator}
use llm_steady_infer.BlockAllocator.Invariant.{Inv}
use llm_steady_infer.BlockAllocator.Reclaim.{IsReclaim, IsHook, Kept, Reclaimed-refl}
use llm_steady_infer.PrefixCache.{PrefixCache}
use llm_steady_infer.PrefixCache.Eviction.{CacheOk, reclaim_hook, reclaim_hook-IsReclaim}
use llm_steady_infer.Scheduler.State.{reclaim_prefix_cache, reclaim_fn_of}

-- What the hook needs of the pool, with a cache or without.
abbrev pub HookOk : Option PrefixCache → BlockAllocator → Type 0
HookOk none a = Unit
HookOk (some c) a = CacheOk c a

reclaim_prefix_cache-IsReclaim : IsReclaim HookOk reclaim_prefix_cache
unfolding reclaim_prefix_cache
reclaim_prefix_cache-IsReclaim = record { apply = reclaims }
  where
    reclaims :
        (n : ℕ) (c : Option PrefixCache) (a : BlockAllocator)
        → HookOk c a
        → Inv a
        → Returns (reclaim_prefix_cache n c a) (Kept HookOk a)
    reclaims n none a k v = (tt, v, Reclaimed-refl a)
    reclaims n (some c) a k v =
        Returns-bind (Kept CacheOk a) (Kept HookOk a) (reclaim_hook n c a) _
          (reclaim_hook-IsReclaim.apply n c a k v) (λ (c', a') w. w)

pub reclaim_fn_of-IsHook : (cache : Option PrefixCache) → IsHook HookOk (reclaim_fn_of cache)
reclaim_fn_of-IsHook none = tt
reclaim_fn_of-IsHook (some c) = reclaim_prefix_cache-IsReclaim
