-- ===== src/PrefixCache.antt =====
-- source/scheduler/prefix_cache.cpp, include/scheduler/prefix_cache.h.
-- The hash map and the intrusive LRU list hold the same entries: here one list, most recent first.
mod Hash
pub mod Walking
pub mod Eviction
pub mod Lookup
pub mod Chain
pub mod Storing
pub mod Insertion
pub mod Examples
unfoldable pub use Hash.*
use llm_steady_infer.Base.{
  ℕ, zero, suc, ◌+◌, ◌-◌, ◌*◌, ◌/◌, ◌≤◌, ◌<◌, ◌≡◌, Bool, true, false, not, ◌&&◌, ◌||◌, Option, none,
  some, List, [], ◌∷◌, ◌++◌, reverse, ltb, leb, ◌==◌, if◌then◌else◌, length, take, drop, get_elem?,
  check, ◌>>=◌, ◌>>◌,
}
use llm_steady_infer.BlockAllocator.{
  BlockAllocator, Row, ref_count, is_cached, mark_cached, evict_cached,
}

pub record Entry : Type 0 where
  pub hash : ℕ
  pub prev_hash : ℕ
  pub block_id : ℕ
  pub tokens : List ℕ

pub record PrefixCacheStats : Type 0 where
  pub lookups : ℕ
  pub hits : ℕ
  pub matched_blocks : ℕ
  pub inserts : ℕ
  pub evictions : ℕ
  pub evict_shortfalls : ℕ

pub record PrefixCache : Type 0 where
  pub block_size : ℕ
  pub max_entries : ℕ
  pub hard_max_entries : ℕ
  pub entries : List Entry
  pub stats : PrefixCacheStats

pub record PrefixMatch : Type 0 where
  pub blocks : List ℕ
  pub hashes : List ℕ

abbrev pub k_default_max_entries : ℕ
k_default_max_entries = 4096

abbrev pub k_evict_scan_cap : ℕ
k_evict_scan_cap = 1024

abbrev at_least_one : ℕ → ℕ
at_least_one n = if ltb n 1 then 1 else n

-- The constructor.
pub create : ℕ → ℕ → Option PrefixCache
create block_size max_entries = do
  check (ltb 0 block_size)
  some (record {
    block_size = block_size;
    max_entries = at_least_one max_entries;
    hard_max_entries = 2 * at_least_one max_entries;
    entries = [];
    stats = record {
      lookups = 0;
      hits = 0;
      matched_blocks = 0;
      inserts = 0;
      evictions = 0;
      evict_shortfalls = 0;
    };
  })

-- entries_.find(h)
pub find : ℕ → List Entry → Option Entry
find h [] = none
find h (e ∷ es) = if e.hash == h then some e else find h es

same_tokens : List ℕ → List ℕ → Bool
same_tokens [] [] = true
same_tokens [] (y ∷ ys) = false
same_tokens (x ∷ xs) [] = false
same_tokens (x ∷ xs) (y ∷ ys) = x == y && same_tokens xs ys

-- `tokens` points at a whole block of the prompt.
pub tokens_match : ℕ → Entry → List ℕ → Bool
unfolding same_tokens
tokens_match block_size e tokens =
    length e.tokens == block_size && same_tokens e.tokens (take block_size tokens)

-- The prompt's last token never lies in a shared block.
pub cacheable_blocks : ℕ → PrefixCache → ℕ
cacheable_blocks num_prompt_tokens c =
    if num_prompt_tokens == 0 then 0 else (num_prompt_tokens - 1) / c.block_size

abbrev no_match : PrefixMatch
no_match = record { blocks = []; hashes = [] }

-- The tests on a candidate entry.
pub shareable : PrefixCache → BlockAllocator → ℕ → List ℕ → Entry → Bool
unfolding tokens_match
shareable c a prev_hash tokens e =
    e.prev_hash == prev_hash
    && tokens_match c.block_size e tokens
    && not (ref_count e.block_id a == 0 && not (is_cached e.block_id a))

-- The loop of lookup, from one block on: `n` blocks are left, `tokens` starts at the next.
lookup_from : ℕ → List ℕ → ℕ → PrefixCache → BlockAllocator → PrefixMatch
lookup_from zero tokens prev_hash c a = no_match
lookup_from (suc n) tokens prev_hash c a =
    let h = block_hash prev_hash (take c.block_size tokens) in
    elim (find h c.entries) [
      | none ↦ no_match
      | some e ↦
          let rest = lookup_from n (drop c.block_size tokens) h c a in
          if shareable c a prev_hash tokens e
          then record { blocks = e.block_id ∷ rest.blocks; hashes = h ∷ rest.hashes }
          else no_match
    ]

pub lookup : List ℕ → BlockAllocator → PrefixCache → PrefixMatch
unfolding lookup_from
lookup prompt_tokens a c =
    lookup_from (cacheable_blocks (length prompt_tokens) c) prompt_tokens 0 c a

without : ℕ → List Entry → List Entry
without h [] = []
without h (e ∷ es) = if e.hash == h then es else e ∷ without h es

-- unlink and push_front of the entry under `h`, if there is one.
touch : ℕ → List Entry → List Entry
unfolding without
touch h es = elim (find h es) [ none ↦ es | some e ↦ e ∷ without h es ]

touch_all : List ℕ → List Entry → List Entry
touch_all [] es = es
touch_all (h ∷ hs) es = touch_all hs (touch h es)

record_admission : ℕ → PrefixCacheStats → PrefixCacheStats
record_admission matched s =
    let counted = record s { lookups = s.lookups + 1 } in
    if matched == 0
    then counted
    else record counted { hits = s.hits + 1; matched_blocks = s.matched_blocks + matched }

pub commit_mounted : PrefixMatch → PrefixCache → PrefixCache
unfolding touch touch_all record_admission
commit_mounted m c = record c {
  entries = touch_all m.hashes c.entries;
  stats = record_admission (length m.blocks) c.stats;
}

-- One round of evict_lru: an unreferenced entry goes, any other is kept.
evict_one : Entry → List Entry × ℕ × BlockAllocator → Option (List Entry × ℕ × BlockAllocator)
evict_one e (kept, evicted, a) =
    if ref_count e.block_id a == 0
    then (do a' ← evict_cached e.block_id a; some (kept, evicted + 1, a'))
    else some (e ∷ kept, evicted, a)

-- The loop over the entries that are left, the least recent first; `kept` are those behind them.
pub evict_walk :
    ℕ → List Entry → ℕ → List Entry × ℕ × BlockAllocator → Option (List Entry × ℕ × BlockAllocator)
evict_walk n [] budget s = some s
evict_walk n (e ∷ left) budget (kept, evicted, a) =
    if leb n evicted then some (reverse (e ∷ left) ++ kept, evicted, a) else (do
      (kept', evicted', a') ← evict_one e (kept, evicted, a)
      let budget' = if evicted' == 0 then budget else budget - 1
      let more = evict_walk n left budget' (kept', evicted', a')
      if not (evicted' == 0) && budget' == 0
          then some (reverse left ++ kept', evicted', a')
          else more)

pub evict_lru : ℕ → PrefixCache → BlockAllocator → Option (PrefixCache × ℕ × BlockAllocator)
unfolding evict_walk evict_one
evict_lru n c a = do
  (entries, evicted, a') ← evict_walk n (reverse c.entries) k_evict_scan_cap ([], 0, a)
  let stats' = record c.stats { evictions = c.stats.evictions + evicted }
  some (record c { entries = entries; stats = stats' }, evicted, a')

pub evict : ℕ → PrefixCache → BlockAllocator → Option (PrefixCache × ℕ × BlockAllocator)
evict n c a = if n == 0 then some (c, 0, a) else (do
  (c', evicted, a') ← evict_lru n c a
  let short = record c'.stats { evict_shortfalls = c'.stats.evict_shortfalls + 1 }
  some ((if ltb evicted n then record c' { stats = short } else c'), evicted, a'))

pub back_or : ℕ → List ℕ → ℕ
back_or d [] = d
back_or d (x ∷ xs) = back_or x xs

abbrev pub insert_entry : Entry → PrefixCache → PrefixCache
insert_entry e c = record c {
  entries = e ∷ c.entries;
  stats = record c.stats { inserts = c.stats.inserts + 1 };
}

-- What insert_committed does with one hashed block; the count says whether it was inserted.
pub insert_block : Entry → PrefixCache → BlockAllocator → Option (ℕ × PrefixCache × BlockAllocator)
insert_block e c a = elim (find e.hash c.entries) [
  | some resident ↦ some (0, c, a)
  | none ↦ do
    (c', evicted, a') ←
        if leb c.max_entries (length c.entries) then evict_lru 1 c a else some (c, 0, a)
    if leb c'.hard_max_entries (length c'.entries)
        then some (0, c', a')
        else (do a'' ← mark_cached e.block_id a'; some (1, insert_entry e c', a''))
]

-- What the loop of insert_committed changes: the cursor, the count, the cache and the pool.
pub record Progress : Type 0 where
  pub hash_chain : List ℕ
  pub inserted : ℕ
  pub cache : PrefixCache
  pub pool : BlockAllocator

-- The loop from block `b` on, with `n` blocks left. An entry past the row's end is not read.
insert_from : ℕ → ℕ → List ℕ → Row → Progress → Option Progress
unfolding insert_block back_or
insert_from zero b prompt_tokens row_table p = some p
insert_from (suc n) b prompt_tokens row_table p = elim (get_elem? row_table b) [
  | none ↦ none
  | some entry ↦ elim entry [
    | none ↦ some p
    | some block_id ↦
        let size = p.cache.block_size in
        let prev_hash = back_or 0 p.hash_chain in
        let tokens = take size (drop (b * size) prompt_tokens) in
        let h = block_hash prev_hash tokens in
        do
          (added, cache, pool) ←
              insert_block
                (record { hash = h; prev_hash = prev_hash; block_id = block_id; tokens = tokens })
                p.cache p.pool
          insert_from n (b + 1) prompt_tokens row_table (record {
            hash_chain = p.hash_chain ++ h ∷ [];
            inserted = p.inserted + added;
            cache = cache;
            pool = pool;
          })
  ]
]

pub insert_committed : List ℕ → ℕ → Row → List ℕ → PrefixCache → BlockAllocator → Option Progress
unfolding insert_from
insert_committed prompt_tokens completed_tokens row_table hash_chain c a =
    let cacheable = cacheable_blocks (length prompt_tokens) c in
    let done = completed_tokens / c.block_size in
    let committed = if ltb cacheable done then cacheable else done in
    insert_from (committed - length hash_chain) (length hash_chain) prompt_tokens row_table
      (record { hash_chain = hash_chain; inserted = 0; cache = c; pool = a })
