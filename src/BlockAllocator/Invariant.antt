-- ===== src/BlockAllocator/Invariant.antt =====
-- The three states of a block, and what ties the reference counts to the block tables.
use llm_steady_infer.Base.{
  ℕ, zero, suc, ◌+◌, ◌≤◌, ◌<◌, ◌≡◌, refl, Bool, false, not, ◌&&◌, [], arith, ltb, ◌==◌,
  if◌then◌else◌, length, count, update,
}
use llm_steady_infer.BlockAllocator.{BlockAllocator, Row, blocks_of, IsCompact}

-- The entries of rows 0 .. n - 1 that name `b`.
abbrev pub occurrences : ℕ → (ℕ → Row) → ℕ → ℕ
occurrences zero t b = 0
occurrences (suc n) t b = count b (blocks_of (t n)) + occurrences n t b

-- FREE: refcount 0 and no cache entry.
abbrev pub is_free : BlockAllocator → ℕ → Bool
is_free a b = ltb b a.num_blocks && (a.ref_counts b == 0 && not (a.cached b))

pub record Inv (a : BlockAllocator) : Type 0 where
  -- The free list holds each free block once, and nothing else.
  pub free_once : (b : ℕ) → count b a.free_blocks ≡ (if is_free a b then 1 else 0)
  -- A block is counted as often as the tables name it.
  pub counted : (b : ℕ) → occurrences a.num_rows a.block_tables b ≡ a.ref_counts b
  pub in_pool : (b : ℕ) → a.num_blocks ≤ b → a.ref_counts b ≡ 0
  -- No row mounts a block twice.
  pub once : (row b : ℕ) → count b (blocks_of (a.block_tables row)) ≤ 1
  pub compact : (row : ℕ) → IsCompact (a.block_tables row)
  pub width : (row : ℕ) → length (a.block_tables row) ≡ a.max_blocks_per_seq
  -- A row that nobody owns mounts nothing.
  pub idle : (row : ℕ) → a.row_busy row ≡ false → blocks_of (a.block_tables row) ≡ []

pub occurrences-update_above :
    (n : ℕ) (t : ℕ → Row) (row : ℕ) (es : Row) (b : ℕ)
    → n ≤ row
    → occurrences n (update t row es) b ≡ occurrences n t b
occurrences-update_above zero t row es b h = refl
occurrences-update_above (suc n) t row es b h =
    ground (arith, occurrences-update_above n t row es b)

pub occurrences-update :
    (n : ℕ) (t : ℕ → Row) (row : ℕ) (es : Row) (b : ℕ)
    → row < n
    → occurrences n (update t row es) b + count b (blocks_of (t row))
      ≡ occurrences n t b + count b (blocks_of es)
occurrences-update zero t row es b h = elim h [ ]
occurrences-update (suc n) t row es b h =
    ground (arith, occurrences-update n t row es b, occurrences-update_above n t row es b)

pub count-le-occurrences :
    (n : ℕ) (t : ℕ → Row) (row b : ℕ) → row < n → count b (blocks_of (t row)) ≤ occurrences n t b
count-le-occurrences zero t row b h = elim h [ ]
count-le-occurrences (suc n) t row b h = ground (arith, count-le-occurrences n t row b)
