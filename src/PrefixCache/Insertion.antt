-- ===== src/PrefixCache/Insertion.antt =====
-- insert_committed: what is recorded, and that the pool stays in order.
use llm_steady_infer.Base.{
  ℕ, zero, suc, ◌+◌, ◌-◌, ◌*◌, ◌/◌, ◌≤◌, ◌<◌, ◌≡◌, refl, ap, ◌∙◌, some, List, [], ◌∷◌, ◌++◌, ltb,
  if◌then◌else◌, length, take, drop, get_elem?, min, Returns, Returns-bind, Returns-mono, arith,
}
use llm_steady_infer.BlockAllocator.{BlockAllocator, Row}
use llm_steady_infer.PrefixCache.{
  PrefixCache, Entry, block_hash, cacheable_blocks, back_or, insert_block, Progress, insert_from,
  insert_committed,
}
use llm_steady_infer.PrefixCache.Lookup.{chain_of}
use llm_steady_infer.PrefixCache.Chain.{length-chain_of, next_chain}
use llm_steady_infer.PrefixCache.Storing.{
  BlockPost, CacheInv, Inserted, Inserted-refl, SameTables-trans, insert_block-Inserted,
}

-- Entries `b` .. `b + n - 1` of the row are mounted, and referenced.
abbrev pub HasMounted : ℕ → ℕ → Row → BlockAllocator → Type 0
HasMounted b zero row_table a = Unit
HasMounted b (suc n) row_table a =
    ((x : ℕ) × (get_elem? row_table b ≡ some (some x)) × (0 < a.ref_counts x))
    × HasMounted (b + 1) n row_table a

HasMounted-same :
    (b n : ℕ) (row_table : Row) (a a' : BlockAllocator)
    → a'.ref_counts ≡ a.ref_counts
    → HasMounted b n row_table a
    → HasMounted b n row_table a'
HasMounted-same b zero row_table a a' e h = tt
HasMounted-same b (suc n) row_table a a' e ((x, at, held), h) =
    ((x, at, rw e held), HasMounted-same (b + 1) n row_table a a' e h)

Inserted-trans :
    {c d f : PrefixCache} {a b g : BlockAllocator}
    → Inserted c d a b
    → Inserted d f b g
    → Inserted c f a g
Inserted-trans p q = record {
  cache = q.cache;
  same = SameTables-trans p.same q.same;
  same_block_size = q.same_block_size ∙ p.same_block_size;
}

-- What insert_committed leaves: the cursor is the chain of the first `n` blocks.
pub record Recorded (n : ℕ) (prompt : List ℕ) (c : PrefixCache) (a : BlockAllocator) (p : Progress)
    : Type 0 where
  pub kept : Inserted c p.cache a p.pool
  pub cursor : p.hash_chain ≡ chain_of c.block_size n 0 prompt

module _ (prompt : List ℕ) (row_table : Row) where
  insert_from-Recorded :
      (n b : ℕ) (c : PrefixCache) (a : BlockAllocator) (chain : List ℕ) (inserted : ℕ)
      → CacheInv c a
      → chain ≡ chain_of c.block_size b 0 prompt
      → HasMounted b n row_table a
      → Returns
          (insert_from n b prompt row_table
            (record { hash_chain = chain; inserted = inserted; cache = c; pool = a }))
          (Recorded (b + n) prompt c a)
  unfolding insert_from
  insert_from-Recorded zero b c a chain inserted v e h = record {
    kept = Inserted-refl c a v;
    cursor =
        let same : b ≡ b + 0 = omega arith in e ∙ ap (λ k. chain_of c.block_size k 0 prompt) same;
  }
  insert_from-Recorded (suc n) b c a chain inserted v e ((x, at, held), h) =
      let tokens = take c.block_size (drop (b * c.block_size) prompt) in
      let entry : Entry = record {
        hash = block_hash (back_or 0 chain) tokens;
        prev_hash = back_or 0 chain;
        block_id = x;
        tokens = tokens;
      } in
      rw (at, insert_from)
        (Returns-bind (BlockPost entry refl c a) (Recorded (b + suc n) prompt c a)
          (insert_block entry c a) _ (insert_block-Inserted entry refl c a v held)
          (λ (added, c', a') w.
            Returns-mono (Recorded (b + 1 + n) prompt c' a') (Recorded (b + suc n) prompt c a) _
              (insert_from-Recorded n (b + 1) c' a' (chain ++ entry.hash ∷ []) (inserted + added)
                w.cache (rw w.same_block_size (next_chain prompt b c.block_size chain e))
                (HasMounted-same (b + 1) n row_table a a' w.same.same_refs h))
              (λ p r. record {
                kept = Inserted-trans w r.kept;
                cursor =
                    let same : b + 1 + n ≡ b + suc n = omega arith in
                    r.cursor
                    ∙ rw w.same_block_size (ap (λ k. chain_of c.block_size k 0 prompt) same);
              })))

-- The blocks that insert_committed looks at: whole, committed, and before the last prompt token's.
abbrev pub committed_blocks : List ℕ → ℕ → PrefixCache → ℕ
committed_blocks prompt completed_tokens c =
    min (cacheable_blocks (length prompt) c) (completed_tokens / c.block_size)

-- If the cursor is the chain of the prompt's first blocks, and the row has mounted the committed
-- ones behind it, insert_committed does not abort: the cursor moves to the last committed block,
-- cache and pool stay in order, no table and no count changes, and the cache stays below its cap.
pub insert_committed-Recorded :
    (prompt : List ℕ) (completed_tokens : ℕ) (row_table : Row) (b : ℕ) (c : PrefixCache)
    (a : BlockAllocator)
    → CacheInv c a
    → b ≤ committed_blocks prompt completed_tokens c
    → HasMounted b (committed_blocks prompt completed_tokens c - b) row_table a
    → Returns
        (insert_committed prompt completed_tokens row_table (chain_of c.block_size b 0 prompt) c a)
        (Recorded (committed_blocks prompt completed_tokens c) prompt c a)
unfolding insert_committed
insert_committed-Recorded prompt completed_tokens row_table b c a v behind h =
    let n = committed_blocks prompt completed_tokens c in
    let start = length-chain_of c.block_size b 0 prompt in
    let same : (if ltb (cacheable_blocks (length prompt) c) (completed_tokens / c.block_size)
          then cacheable_blocks (length prompt) c
          else completed_tokens / c.block_size)
        ≡ n =
      ground arith in
    rw (start, same)
      (Returns-mono (Recorded (b + (n - b)) prompt c a) (Recorded n prompt c a) _
        (insert_from-Recorded prompt row_table (n - b) b c a _ 0 v refl h)
        (λ p r. record {
          kept = r.kept;
          cursor =
              let all : b + (n - b) ≡ n = omega arith in
              r.cursor ∙ ap (λ k. chain_of c.block_size k 0 prompt) all;
        }))
