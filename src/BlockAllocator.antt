-- ===== src/BlockAllocator.antt =====
-- source/scheduler/block_allocator.cpp, include/scheduler/block_allocator.h.
-- `none` stands for the C++ value -1: an unused table entry, a negative row, a failed call.
-- An outer `none` is an aborted process: a failed CHECK, or `back()` of an empty vector.
mod Rows
pub mod Invariant
pub mod Growth
pub mod Reclaim
pub mod Admission
pub mod Sharing
pub mod Dropping
pub mod Walking
pub mod Release
pub mod SelfCheck
pub mod Gain
pub mod Shrink
pub mod Samples
pub mod Examples
pub use Rows.*
use llm_steady_infer.Base.{
  ℕ, zero, suc, ◌+◌, ◌-◌, ◌≤◌, ◌<◌, ◌≡◌, Bool, true, false, not, ◌&&◌, ◌||◌, Option, none, some,
  List, [], ◌∷◌, ◌++◌, ltb, leb, ◌==◌, if◌then◌else◌, update, length, set, take, drop, replicate,
  check, ◌>>=◌, ◌>>◌,
}

pub record BlockAllocator : Type 0 where
  pub num_blocks : ℕ
  pub num_rows : ℕ
  pub max_blocks_per_seq : ℕ
  pub block_size : ℕ
  -- The head is the back of the vector.
  pub free_blocks : List ℕ
  pub ref_counts : ℕ → ℕ
  pub cached : ℕ → Bool
  pub block_tables : ℕ → Row
  pub row_busy : ℕ → Bool

abbrev pub range_from : ℕ → ℕ → List ℕ
range_from i zero = []
range_from i (suc n) = i ∷ range_from (i + 1) n

-- The constructor.
pub create : ℕ → ℕ → ℕ → ℕ → Option BlockAllocator
create num_blocks num_rows max_blocks_per_seq block_size = do
  check (ltb 0 block_size)
  check (ltb 0 num_blocks)
  some (record {
    num_blocks = num_blocks;
    num_rows = num_rows;
    max_blocks_per_seq = max_blocks_per_seq;
    block_size = block_size;
    free_blocks = range_from 0 num_blocks;
    ref_counts = λ _. 0;
    cached = λ _. false;
    block_tables = λ _. replicate max_blocks_per_seq none;
    row_busy = λ _. false;
  })

abbrev pub num_used_blocks : BlockAllocator → Option ℕ → ℕ
num_used_blocks a none = 0
num_used_blocks a (some row) = if ltb row a.num_rows then used_entries (a.block_tables row) else 0

abbrev pub free_block_count : BlockAllocator → ℕ
free_block_count a = length a.free_blocks

-- The body of the loops of allocate_blocks and append_blocks: pop a free block into an entry.
pop_into : BlockAllocator → ℕ → ℕ → List ℕ → Option BlockAllocator
pop_into a row entry [] = none
pop_into a row entry (b ∷ rest) = do
  check (a.ref_counts b == 0)
  check (not (a.cached b))
  some (record a {
    free_blocks = rest;
    ref_counts = update a.ref_counts b 1;
    block_tables = update a.block_tables row (set (a.block_tables row) entry (some b));
  })

-- for (i = 0; i < n; ++i), from `entry` on.
pub pop_blocks : ℕ → BlockAllocator → ℕ → ℕ → Option BlockAllocator
pop_blocks zero a row entry = some a
pop_blocks (suc n) a row entry = do
  a' ← pop_into a row entry a.free_blocks
  pop_blocks n a' row (entry + 1)

-- The first row that no sequence owns, of the `n` rows from `row` on.
pub first_free_row : ℕ → ℕ → (ℕ → Bool) → Option ℕ
first_free_row zero row busy = none
first_free_row (suc n) row busy =
    let later = first_free_row n (row + 1) busy in if busy row then later else some row

-- ReclaimFn, and `reclaim_fn_ == nullptr`. `C` is what the callback's object keeps.
abbrev pub ReclaimFn : Type 0 → Type 0
ReclaimFn C = ℕ → C → BlockAllocator → Option (C × BlockAllocator)

module _ {C : Type 0} (reclaim_fn : Option (ReclaimFn C)) where
  pub reclaim_for : ℕ → C → BlockAllocator → Option (C × BlockAllocator)
  reclaim_for n c a = if n == 0 then some (c, a) else elim reclaim_fn [
    | none ↦ some (c, a)
    | some reclaim ↦
        if leb n (length a.free_blocks) then some (c, a) else reclaim (n - length a.free_blocks) c a
  ]

  -- The result is the row.
  pub allocate_blocks : ℕ → C × BlockAllocator → Option ((C × BlockAllocator) × Option ℕ)
  unfolding pop_blocks first_free_row
  allocate_blocks n (c, a) =
      if ltb a.max_blocks_per_seq n
      then some ((c, a), none)
      else elim (first_free_row a.num_rows 0 a.row_busy) [
        | none ↦ some ((c, a), none)
        | some row ↦ do
          (c', a') ← reclaim_for n c a
          if ltb (length a'.free_blocks) n then some ((c', a'), none) else (do
            a'' ← pop_blocks n (record a' { row_busy = update a'.row_busy row true }) row 0
            some ((c', a''), some row))
      ]

  -- The result is the new number of used entries.
  pub append_blocks : Option ℕ → ℕ → C × BlockAllocator → Option ((C × BlockAllocator) × Option ℕ)
  unfolding pop_blocks
  append_blocks none n (c, a) = some ((c, a), none)
  append_blocks (some row) n (c, a) =
      if leb a.num_rows row || n == 0
      then some ((c, a), none)
      else let used = num_used_blocks a (some row) in
        if ltb a.max_blocks_per_seq (used + n) then some ((c, a), none) else (do
          (c', a') ← reclaim_for n c a
          if ltb (length a'.free_blocks) n
              then some ((c', a'), none)
              else (do a'' ← pop_blocks n a' row used; some ((c', a''), some (used + n))))

-- old_table[j] == b for some j.
mentions : ℕ → Row → Bool
mentions b [] = false
mentions b (none ∷ es) = mentions b es
mentions b (some x ∷ es) = x == b || mentions b es

-- The loop that validates every block before anything is changed.
mountable : BlockAllocator → Row → List ℕ → Bool
mountable a held [] = true
mountable a held (b ∷ bs) =
    ltb b a.num_blocks
    && not (a.ref_counts b == 0 && not (a.cached b))
    && not (mentions b held)
    && mountable a held bs

add_refs : List ℕ → (ℕ → ℕ) → ℕ → ℕ
add_refs [] refs = refs
add_refs (b ∷ bs) refs = add_refs bs (update refs b (refs b + 1))

is_empty : List ℕ → Bool
is_empty [] = true
is_empty (b ∷ bs) = false

pub reserve_shared_prefix : Option ℕ → List ℕ → BlockAllocator → BlockAllocator × Bool
unfolding is_empty
reserve_shared_prefix none blocks a = (a, false)
reserve_shared_prefix (some row) blocks a =
    if leb a.num_rows row || is_empty blocks
    then (a, false)
    else let used = num_used_blocks a (some row) in
      let table = a.block_tables row in
      if ltb a.max_blocks_per_seq (used + length blocks)
      then (a, false)
      else if not (mountable a (take used table) blocks)
      then (a, false)
      else (
        record a {
          block_tables = update a.block_tables row (mount_front blocks used table);
          ref_counts = add_refs blocks a.ref_counts;
        },
        true,
      )

-- Parks a cached block, and returns any other to the free list.
release_block : ℕ → BlockAllocator → BlockAllocator
release_block b a = if a.cached b then a else record a { free_blocks = b ∷ a.free_blocks }

-- The count of a block goes down; at zero the block is released.
pub drop_ref : ℕ → BlockAllocator → Option BlockAllocator
unfolding release_block
drop_ref b a = do
  check (ltb 0 (a.ref_counts b))
  let a' = record a { ref_counts = update a.ref_counts b (a.ref_counts b - 1) }
  some (if a'.ref_counts b == 0 then release_block b a' else a')

-- The loop of free_blocks_from: the entries that stay, and `any_left`.
pub free_walk : ℕ → ℕ → Row → BlockAllocator → Option (Row × Bool × BlockAllocator)
free_walk start i [] a = some ([], false, a)
free_walk start i (none ∷ es) a = do
  (es', left, a') ← free_walk start (i + 1) es a
  some (none ∷ es', left, a')
free_walk start i (some b ∷ es) a = elim (leb start i) [
  | true ↦ do
    a₁ ← drop_ref b a
    (es', left, a') ← free_walk start (i + 1) es a₁
    some (none ∷ es', left, a')
  | false ↦ do (es', left, a') ← free_walk start (i + 1) es a; some (some b ∷ es', true, a')
]

pub free_blocks_from : Option ℕ → ℕ → BlockAllocator → Option BlockAllocator
unfolding free_walk drop_ref
free_blocks_from none start a = some a
free_blocks_from (some row) start a = if leb a.num_rows row then some a else (do
  (es, left, a') ← free_walk start 0 (a.block_tables row) a
  some (record a' {
    block_tables = update a'.block_tables row es;
    row_busy = if left then a'.row_busy else update a'.row_busy row false;
  }))

pub free_all : Option ℕ → BlockAllocator → Option BlockAllocator
unfolding free_blocks_from
free_all row a = free_blocks_from row 0 a

reclaimable_in : BlockAllocator → Row → ℕ
reclaimable_in a [] = 0
reclaimable_in a (none ∷ es) = reclaimable_in a es
reclaimable_in a (some b ∷ es) =
    (if a.ref_counts b == 1 && not (a.cached b) then 1 else 0) + reclaimable_in a es

pub reclaimable_blocks_from : Option ℕ → ℕ → BlockAllocator → ℕ
unfolding reclaimable_in
reclaimable_blocks_from none start a = 0
reclaimable_blocks_from (some row) start a =
    if leb a.num_rows row then 0 else reclaimable_in a (drop start (a.block_tables row))

-- The entries written to `dst`.
unfoldable pub copy_block_table_row : Option ℕ → ℕ → BlockAllocator → Option Row
copy_block_table_row none n_cols a = none
copy_block_table_row (some row) n_cols a = do
  check (ltb row a.num_rows)
  some (
      take (if n_cols == 0 || ltb a.max_blocks_per_seq n_cols then a.max_blocks_per_seq else n_cols)
        (a.block_tables row))

unfoldable pub ref_count : ℕ → BlockAllocator → ℕ
ref_count b a = if leb a.num_blocks b then 0 else a.ref_counts b

unfoldable pub is_cached : ℕ → BlockAllocator → Bool
is_cached b a = if leb a.num_blocks b then false else a.cached b

pub inc_ref : ℕ → BlockAllocator → Option BlockAllocator
inc_ref b a = do
  check (ltb b a.num_blocks)
  check (ltb 0 (a.ref_counts b))
  some (record a { ref_counts = update a.ref_counts b (a.ref_counts b + 1) })

pub dec_ref : ℕ → BlockAllocator → Option BlockAllocator
unfolding drop_ref
dec_ref b a = do check (ltb b a.num_blocks); drop_ref b a

pub mark_cached : ℕ → BlockAllocator → Option BlockAllocator
mark_cached b a = do
  check (ltb b a.num_blocks)
  check (ltb 0 (a.ref_counts b))
  some (record a { cached = update a.cached b true })

pub evict_cached : ℕ → BlockAllocator → Option BlockAllocator
evict_cached b a = do
  check (ltb b a.num_blocks)
  check (a.ref_counts b == 0)
  some (
      if not (a.cached b)
      then a
      else record a { cached = update a.cached b false; free_blocks = b ∷ a.free_blocks })

num_busy : ℕ → ℕ → (ℕ → Bool) → ℕ
num_busy zero row busy = 0
num_busy (suc n) row busy = (if busy row then 1 else 0) + num_busy n (row + 1) busy

pub num_busy_rows : BlockAllocator → ℕ
unfolding num_busy
num_busy_rows a = num_busy a.num_rows 0 a.row_busy

-- The destructor's audit. `none` is its early `return false`.
-- The walk of the free list: `free_seen`.
scan_free : ℕ → List ℕ → (ℕ → Bool) → Option (ℕ → Bool)
scan_free num_blocks [] seen = some seen
scan_free num_blocks (b ∷ bs) seen = do
  check (ltb b num_blocks && not (seen b))
  scan_free num_blocks bs (update seen b true)

abbrev stamped_by : ℕ → Option ℕ → Bool
stamped_by row none = false
stamped_by row (some r) = r == row

-- The walk of one row: `row_stamp` and `occurrences`.
scan_row : ℕ → ℕ → Row → (ℕ → Option ℕ) × (ℕ → ℕ) → Option ((ℕ → Option ℕ) × (ℕ → ℕ))
scan_row num_blocks row [] s = some s
scan_row num_blocks row (none ∷ es) s = scan_row num_blocks row es s
scan_row num_blocks row (some b ∷ es) (stamp, occ) = do
  check (ltb b num_blocks)
  check (not (stamped_by row (stamp b)))
  scan_row num_blocks row es (update stamp b (some row), update occ b (occ b + 1))

scan_rows : ℕ → ℕ → ℕ → (ℕ → Row) → (ℕ → Option ℕ) × (ℕ → ℕ) → Option ((ℕ → Option ℕ) × (ℕ → ℕ))
scan_rows zero num_blocks row tables s = some s
scan_rows (suc n) num_blocks row tables s = do
  s' ← scan_row num_blocks row (tables row) s
  scan_rows n num_blocks (row + 1) tables s'

-- The last loop, over the blocks from `b` on.
scan_blocks : ℕ → ℕ → BlockAllocator → (ℕ → Bool) → (ℕ → ℕ) → Bool
scan_blocks zero b a seen occ = true
scan_blocks (suc n) b a seen occ =
    occ b == a.ref_counts b
    && (if seen b
        then a.ref_counts b == 0 && not (a.cached b)
        else not (a.ref_counts b == 0 && not (a.cached b)))
    && scan_blocks n (b + 1) a seen occ

pub invariant_holds : BlockAllocator → Bool
invariant_holds a = elim (scan_free a.num_blocks a.free_blocks (λ _. false)) [
  | none ↦ false
  | some seen ↦ elim (scan_rows a.num_rows a.num_blocks 0 a.block_tables ((λ _. none), (λ _. 0))) [
    | none ↦ false
    | some (stamp, occ) ↦ scan_blocks a.num_blocks 0 a seen occ
  ]
]
