-- ===== src/PrefixCache/Storing.antt =====
-- insert_committed: one entry goes into the cache.
use llm_steady_infer.Base.{
  ℕ, ◌≤◌, ◌<◌, ◌≡◌, inl, inr, refl, sym, ap, ◌∙◌, subst, true, Option, some, leb, if◌then◌else◌,
  length, update, All, Returns, Returns-bind, Returns-mono, Returns-if, Bool-cases, Option-cases,
  ◌>>=◌, arith,
}
use llm_steady_infer.BlockAllocator.{BlockAllocator, mark_cached}
use llm_steady_infer.BlockAllocator.Invariant.{Inv}
use llm_steady_infer.BlockAllocator.Reclaim.{Reclaimed}
use llm_steady_infer.BlockAllocator.Sharing.{mark_cached-Inv}
use llm_steady_infer.PrefixCache.{
  PrefixCache, Entry, block_hash, find, evict_lru, insert_entry, insert_block,
}
use llm_steady_infer.PrefixCache.Walking.{InPool}
use llm_steady_infer.PrefixCache.Eviction.{Evicted, evict_lru-Evicted}

-- An entry is filed under the hash of its own context and tokens.
abbrev pub IsHashed : Entry → Type 0
IsHashed e = e.hash ≡ block_hash e.prev_hash e.tokens

-- Only pins and the free list differ.
pub record SameTables (a a' : BlockAllocator) : Type 0 where
  pub same_num_blocks : a'.num_blocks ≡ a.num_blocks
  pub same_num_rows : a'.num_rows ≡ a.num_rows
  pub same_tables : a'.block_tables ≡ a.block_tables
  pub same_refs : a'.ref_counts ≡ a.ref_counts
  pub same_busy : a'.row_busy ≡ a.row_busy

SameTables-refl : (a : BlockAllocator) → SameTables a a
SameTables-refl a = record {
  same_num_blocks = refl;
  same_num_rows = refl;
  same_tables = refl;
  same_refs = refl;
  same_busy = refl;
}

pub SameTables-trans : {a b c : BlockAllocator} → SameTables a b → SameTables b c → SameTables a c
SameTables-trans p q = record {
  same_num_blocks = q.same_num_blocks ∙ p.same_num_blocks;
  same_num_rows = q.same_num_rows ∙ p.same_num_rows;
  same_tables = q.same_tables ∙ p.same_tables;
  same_refs = q.same_refs ∙ p.same_refs;
  same_busy = q.same_busy ∙ p.same_busy;
}

Reclaimed-SameTables : {a b : BlockAllocator} → Reclaimed a b → SameTables a b
Reclaimed-SameTables r = record {
  same_num_blocks = r.same_num_blocks;
  same_num_rows = r.same_num_rows;
  same_tables = r.same_tables;
  same_refs = r.same_refs;
  same_busy = r.same_busy;
}

pinned-SameTables :
    (b : ℕ) (a : BlockAllocator) → SameTables a (record a { cached = update a.cached b true })
pinned-SameTables b a = record {
  same_num_blocks = refl;
  same_num_rows = refl;
  same_tables = refl;
  same_refs = refl;
  same_busy = refl;
}

-- A cache and a pool in order.
pub record CacheInv (c : PrefixCache) (a : BlockAllocator) : Type 0 where
  pub valid : Inv a
  pub in_pool : InPool c.entries a
  pub hashed : All IsHashed c.entries
  pub bounded : length c.entries ≤ c.hard_max_entries

-- What an insertion may do to them.
pub record Inserted (c c' : PrefixCache) (a a' : BlockAllocator) : Type 0 where
  pub cache : CacheInv c' a'
  pub same : SameTables a a'
  pub same_block_size : c'.block_size ≡ c.block_size

pub Inserted-refl : (c : PrefixCache) (a : BlockAllocator) → CacheInv c a → Inserted c c a a
Inserted-refl c a v = record { cache = v; same = SameTables-refl a; same_block_size = refl }

module _ (e : Entry) (hashed : IsHashed e) where
  abbrev pub BlockPost : PrefixCache → BlockAllocator → ℕ × PrefixCache × BlockAllocator → Type 0
  BlockPost c a (added, c', a') = Inserted c c' a a'

  -- The entry goes in: its block is pinned.
  pin_entry-Inserted :
      (c : PrefixCache) (a : BlockAllocator)
      → CacheInv c a
      → 0 < a.ref_counts e.block_id
      → length c.entries < c.hard_max_entries
      → Returns (mark_cached e.block_id a >>= λ a'. some (1, insert_entry e c, a')) (BlockPost c a)
  pin_entry-Inserted c a v h room =
      Returns-bind (λ a'. Inv a' × (a' ≡ record a { cached = update a.cached e.block_id true }))
        (BlockPost c a) (mark_cached e.block_id a) _ (mark_cached-Inv e.block_id a v.valid h)
        (λ a' (valid, same). record {
          cache = record {
            valid = valid;
            in_pool =
                let blocks : a'.num_blocks ≡ a.num_blocks = ap (λ x. x.num_blocks) same in
                subst (λ n. (e.block_id < n) × All (λ x. x.block_id < n) c.entries) (sym blocks)
                  (ground (arith, v.valid.in_pool e.block_id, h), v.in_pool);
            hashed = (hashed, v.hashed);
            bounded = room;
          };
          same = rw same (pinned-SameTables e.block_id a);
          same_block_size = refl;
        })

  -- Behind the eviction: the entry is skipped if the cache is still full.
  abbrev store : ℕ × PrefixCache × BlockAllocator → Option (ℕ × PrefixCache × BlockAllocator)
  store (evicted, c', a') =
      if leb c'.hard_max_entries (length c'.entries)
      then some (0, c', a')
      else mark_cached e.block_id a' >>= λ a''. some (1, insert_entry e c', a'')

  store-Inserted :
      (n : ℕ) (c : PrefixCache) (a : BlockAllocator)
      → CacheInv c a
      → 0 < a.ref_counts e.block_id
      → Returns (store (n, c, a)) (BlockPost c a)
  store-Inserted n c a v h =
      Returns-if (BlockPost c a) (leb c.hard_max_entries (length c.entries)) _ _
        (λ _. Inserted-refl c a v) (λ more. pin_entry-Inserted c a v h (ground arith))

  Inserted-after :
      (n : ℕ) (c c' : PrefixCache) (a a' : BlockAllocator)
      → Inserted c c' a a'
      → 0 < a.ref_counts e.block_id
      → Returns (store (n, c', a')) (BlockPost c a)
  Inserted-after n c c' a a' w h =
      Returns-mono (BlockPost c' a') (BlockPost c a) (store (n, c', a'))
        (store-Inserted n c' a' w.cache (rw w.same.same_refs h))
        (λ (added, c'', a'') w'. record {
          cache = w'.cache;
          same = SameTables-trans w.same w'.same;
          same_block_size = w'.same_block_size ∙ w.same_block_size;
        })

  Evicted-Inserted :
      (c c' : PrefixCache) (evicted : ℕ) (a a' : BlockAllocator)
      → CacheInv c a
      → Evicted IsHashed 1 c c' evicted a a'
      → Inserted c c' a a'
  Evicted-Inserted c c' evicted a a' v w = record {
    cache = record {
      valid = w.valid;
      in_pool = w.in_pool;
      hashed = w.shared v.hashed;
      bounded = omega (arith, w.accounted, w.same_hard_max, v.bounded);
    };
    same = Reclaimed-SameTables w.reclaimed;
    same_block_size = w.same_block_size;
  }

  pub insert_block-Inserted :
      (c : PrefixCache) (a : BlockAllocator)
      → CacheInv c a
      → 0 < a.ref_counts e.block_id
      → Returns (insert_block e c a) (BlockPost c a)
  unfolding insert_block
  insert_block-Inserted c a v h = elim (Option-cases (find e.hash c.entries)) [
    | inr (resident, hit) ↦ rw (hit, insert_block) (Inserted-refl c a v)
    | inl miss ↦
        rw (miss, insert_block)
          (elim (Bool-cases (leb c.max_entries (length c.entries))) [
            | inr room ↦ rw room (store-Inserted 0 c a v h)
            | inl full ↦ rw full (
                Returns-bind (λ (c', evicted, a'). Evicted IsHashed 1 c c' evicted a a')
                  (BlockPost c a) (evict_lru 1 c a) _
                  (evict_lru-Evicted IsHashed 1 c a v.valid v.in_pool)
                  (λ (c', evicted, a') w.
                    Inserted-after evicted c c' a a' (Evicted-Inserted c c' evicted a a' v w) h))
          ])
  ]
