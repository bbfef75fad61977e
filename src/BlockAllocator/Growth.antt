-- ===== src/BlockAllocator/Growth.antt =====
-- allocate_blocks and append_blocks.
use mathlib.Core.List.{append-nil, append_assoc}
use llm_steady_infer.Base.{
  ℕ, zero, suc, ◌+◌, ◌≤◌, ◌<◌, ◌≡◌, ◌≢◌, refl, ap, true, false, some, List, [], ◌∷◌, ◌++◌, arith,
  ◌==◌, if◌then◌else◌, length, set, count, count-append, update, update_ind, update_self, ◌∙◌,
  list_cases, inl, inr, sym, Returns-mono, take, drop, Returns, length-append, length-set,
}
use llm_steady_infer.BlockAllocator.{
  BlockAllocator, Row, blocks_of, IsCompact, pop_into, pop_blocks, set-IsCompact, blocks_of-set,
}
use llm_steady_infer.BlockAllocator.Invariant.{Inv, occurrences-update, count-le-occurrences}

-- One round of the loop: the block moves from the free list behind the row's blocks.
module _ (a : BlockAllocator) (row b : ℕ) (rest : List ℕ) (v : Inv a) (row_lt : row < a.num_rows)
    (owned : a.row_busy row ≡ true)
    (room : length (blocks_of (a.block_tables row)) < a.max_blocks_per_seq)
    (free : a.free_blocks ≡ b ∷ rest) where
  abbrev grown_row : Row
  grown_row = set (a.block_tables row) (length (blocks_of (a.block_tables row))) (some b)

  abbrev popped : BlockAllocator
  popped = record a {
    free_blocks = rest;
    ref_counts = update a.ref_counts b 1;
    block_tables = update a.block_tables row grown_row;
  }

  head_free : (b < a.num_blocks) × (a.ref_counts b ≡ 0) × (a.cached b ≡ false)
  head_free = ground (arith, v.free_once b, ap (count b) free)

  blocks_of-grown_row : blocks_of grown_row ≡ blocks_of (a.block_tables row) ++ b ∷ []
  blocks_of-grown_row =
      blocks_of-set (a.block_tables row) b (v.compact row) (omega (arith, v.width row))

  pop_into-popped :
      pop_into a row (length (blocks_of (a.block_tables row))) (b ∷ rest) ≡ some popped
  unfolding pop_into
  pop_into-popped = ground (arith, head_free)

  count-grown_row :
      (x : ℕ)
      → count x (blocks_of grown_row)
        ≡ count x (blocks_of (a.block_tables row)) + (if b == x then 1 else 0)
  count-grown_row x = omega (
    arith,
    ap (count x) blocks_of-grown_row,
    count-append x (blocks_of (a.block_tables row)) (b ∷ []),
  )

  unmounted : (r : ℕ) → r < a.num_rows → count b (blocks_of (a.block_tables r)) ≡ 0
  unmounted r h =
      omega (arith, v.counted b, head_free, count-le-occurrences a.num_rows a.block_tables r b h)

  popped-Inv : Inv popped
  popped-Inv = record {
    free_once = λ x. ground (arith, v.free_once x, ap (count x) free, head_free);
    counted = λ x. ground (
      arith,
      v.counted x,
      count-grown_row x,
      occurrences-update a.num_rows a.block_tables row grown_row x row_lt,
      unmounted row row_lt,
      head_free,
    );
    in_pool = λ x h. ground (arith, v.in_pool x h, head_free);
    once = λ r x. ground (arith, v.once r x, count-grown_row x, unmounted row row_lt);
    compact = λ r.
        update_ind IsCompact a.block_tables row grown_row r
          (λ _. set-IsCompact (a.block_tables row) b (v.compact row) (omega (arith, v.width row)))
          (v.compact r);
    width = λ r. ground (
      arith,
      v.width r,
      length-set (a.block_tables row) (length (blocks_of (a.block_tables row))) (some b),
    );
    idle = λ r h. ground (arith, v.idle r h, owned);
  }

-- `n` blocks move from the free list to the end of one row, and nothing else changes.
pub record Grown (n row : ℕ) (a a' : BlockAllocator) : Type 0 where
  pub same_num_blocks : a'.num_blocks ≡ a.num_blocks
  pub same_num_rows : a'.num_rows ≡ a.num_rows
  pub same_width : a'.max_blocks_per_seq ≡ a.max_blocks_per_seq
  pub same_block_size : a'.block_size ≡ a.block_size
  pub mounted :
      blocks_of (a'.block_tables row) ≡ blocks_of (a.block_tables row) ++ take n a.free_blocks
  pub supplied : n ≤ length a.free_blocks
  pub left : a'.free_blocks ≡ drop n a.free_blocks
  pub others : (r : ℕ) → r ≢ row → a'.block_tables r ≡ a.block_tables r
  pub same_busy : a'.row_busy ≡ a.row_busy
  pub same_cached : a'.cached ≡ a.cached

Grown-refl : (row : ℕ) (a : BlockAllocator) → Grown 0 row a a
Grown-refl row a = record {
  same_num_blocks = refl;
  same_num_rows = refl;
  same_width = refl;
  same_block_size = refl;
  mounted = sym (append-nil (blocks_of (a.block_tables row)));
  supplied = omega arith;
  left = refl;
  others = λ r h. refl;
  same_busy = refl;
  same_cached = refl;
}

module _ (a : BlockAllocator) (row b : ℕ) (rest : List ℕ) (v : Inv a) (row_lt : row < a.num_rows)
    (owned : a.row_busy row ≡ true)
    (room : length (blocks_of (a.block_tables row)) < a.max_blocks_per_seq)
    (free : a.free_blocks ≡ b ∷ rest) where
  abbrev first : BlockAllocator
  first = popped a row b rest v row_lt owned room free

  mounted_first : blocks_of (first.block_tables row) ≡ blocks_of (a.block_tables row) ++ b ∷ []
  mounted_first =
      ap blocks_of
        (update_self a.block_tables row (grown_row a row b rest v row_lt owned room free))
      ∙ blocks_of-grown_row a row b rest v row_lt owned room free

  Grown-suc : (n : ℕ) (a' : BlockAllocator) → Grown n row first a' → Grown (suc n) row a a'
  Grown-suc n a' g = record {
    same_num_blocks = g.same_num_blocks;
    same_num_rows = g.same_num_rows;
    same_width = g.same_width;
    same_block_size = g.same_block_size;
    mounted = cc (
      g.mounted,
      mounted_first,
      append_assoc (blocks_of (a.block_tables row)) (b ∷ []) (take n rest),
      ap (take (suc n)) free,
    );
    supplied = omega (arith, g.supplied, ap length free);
    left = ground (arith, g.left);
    others = λ r h. ground (arith, g.others r h);
    same_busy = g.same_busy;
    same_cached = g.same_cached;
  }

pub pop_blocks-Grown :
    (n : ℕ) (a : BlockAllocator) (row entry : ℕ)
    → Inv a
    → row < a.num_rows
    → a.row_busy row ≡ true
    → length (blocks_of (a.block_tables row)) ≡ entry
    → entry + n ≤ a.max_blocks_per_seq
    → n ≤ length a.free_blocks
    → Returns (pop_blocks n a row entry) (λ a'. Inv a' × Grown n row a a')
unfolding pop_blocks
pop_blocks-Grown zero a row entry v h o e w f = (v, Grown-refl row a)
pop_blocks-Grown (suc n) a row entry v h o e w f = elim (list_cases a.free_blocks) [
  | inl no_free ↦ absurd (omega (arith, ap length no_free))
  | inr (b, rest, free) ↦
      let room : length (blocks_of (a.block_tables row)) < a.max_blocks_per_seq = omega arith in
      let a₁ = popped a row b rest v h o room free in
      let popped_into : pop_into a row entry a.free_blocks ≡ some a₁ =
        cc (pop_into-popped a row b rest v h o room free) in
      rw popped_into (
        Returns-mono (λ a'. Inv a' × Grown n row a₁ a') (λ a'. Inv a' × Grown (suc n) row a a')
          (pop_blocks n a₁ row (entry + 1))
          (pop_blocks-Grown n a₁ row (entry + 1) (popped-Inv a row b rest v h o room free) h o
            (omega (
              arith,
              ap length (mounted_first a row b rest v h o room free),
              length-append (blocks_of (a.block_tables row)) (b ∷ []),
            ))
            (omega arith) (omega (arith, ap length free)))
          (λ a' (v', g). (v', Grown-suc a row b rest v h o room free n a' g)))
]
