-- ===== src/BlockAllocator/Reclaim.antt =====
-- The contract of the reclaim hook (set_reclaim_fn), and what the two allocations do under it.
use llm_steady_infer.Base.{
  ℕ, ◌+◌, ◌-◌, ◌≤◌, ◌<◌, ◌≡◌, ◌⊎◌, refl, ap, true, ◌||◌, Option, none, some, arith, ltb, leb, ◌==◌,
  if◌then◌else◌, length, Returns, Returns-bind, inl, inr, Bool-cases, ◌∙◌, sym, ◌>>=◌,
}
use llm_steady_infer.BlockAllocator.{
  BlockAllocator, Row, ReclaimFn, blocks_of, used_entries-length, pop_blocks, num_used_blocks,
  reclaim_for, append_blocks,
}
use llm_steady_infer.BlockAllocator.Invariant.{Inv}
use llm_steady_infer.BlockAllocator.Growth.{Grown, pop_blocks-Grown}

-- Blocks may come back to the free list; tables, counts and owners stay.
pub record Reclaimed (a a' : BlockAllocator) : Type 0 where
  pub same_num_blocks : a'.num_blocks ≡ a.num_blocks
  pub same_num_rows : a'.num_rows ≡ a.num_rows
  pub same_width : a'.max_blocks_per_seq ≡ a.max_blocks_per_seq
  pub same_block_size : a'.block_size ≡ a.block_size
  pub same_tables : a'.block_tables ≡ a.block_tables
  pub same_refs : a'.ref_counts ≡ a.ref_counts
  pub same_busy : a'.row_busy ≡ a.row_busy
  pub more_free : length a.free_blocks ≤ length a'.free_blocks
  pub less_cached : (b : ℕ) → a'.cached b ≡ true → a.cached b ≡ true

pub Reclaimed-refl : (a : BlockAllocator) → Reclaimed a a
Reclaimed-refl a = record {
  same_num_blocks = refl;
  same_num_rows = refl;
  same_width = refl;
  same_block_size = refl;
  same_tables = refl;
  same_refs = refl;
  same_busy = refl;
  more_free = omega arith;
  less_cached = λ b h. h;
}

pub Reclaimed-trans : {a b c : BlockAllocator} → Reclaimed a b → Reclaimed b c → Reclaimed a c
Reclaimed-trans p q = record {
  same_num_blocks = q.same_num_blocks ∙ p.same_num_blocks;
  same_num_rows = q.same_num_rows ∙ p.same_num_rows;
  same_width = q.same_width ∙ p.same_width;
  same_block_size = q.same_block_size ∙ p.same_block_size;
  same_tables = q.same_tables ∙ p.same_tables;
  same_refs = q.same_refs ∙ p.same_refs;
  same_busy = q.same_busy ∙ p.same_busy;
  more_free = omega (arith, p.more_free, q.more_free);
  less_cached = λ b h. p.less_cached b (q.less_cached b h);
}

-- `Ok` is what the hook's object needs of the pool.
abbrev pub Kept :
    {C : Type 0} → (C → BlockAllocator → Type 0) → BlockAllocator → C × BlockAllocator → Type 0
Kept Ok a (c', a') = Ok c' a' × Inv a' × Reclaimed a a'

-- The contract: from a pool in order the hook returns, and keeps it in order.
pub record IsReclaim {C : Type 0} (Ok : C → BlockAllocator → Type 0) (reclaim : ReclaimFn C)
    : Type 0 where
  pub apply :
      (n : ℕ) (c : C) (a : BlockAllocator) → Ok c a → Inv a → Returns (reclaim n c a) (Kept Ok a)

-- An unset hook needs no contract.
abbrev pub IsHook : {C : Type 0} → (C → BlockAllocator → Type 0) → Option (ReclaimFn C) → Type 0
IsHook Ok none = Unit
IsHook Ok (some reclaim) = IsReclaim Ok reclaim

module _ {C : Type 0} (Ok : C → BlockAllocator → Type 0) where
  pub reclaim_for-Kept :
      (reclaim_fn : Option (ReclaimFn C)) (n : ℕ) (c : C) (a : BlockAllocator)
      → IsHook Ok reclaim_fn
      → Ok c a
      → Inv a
      → Returns (reclaim_for reclaim_fn n c a) (Kept Ok a)
  unfolding reclaim_for
  reclaim_for-Kept none n c a h k v = elim (Bool-cases (n == 0)) [
    | inl e ↦ rw e (k, v, Reclaimed-refl a)
    | inr e ↦ rw e (k, v, Reclaimed-refl a)
  ]
  reclaim_for-Kept (some reclaim) n c a h k v = elim (Bool-cases (n == 0)) [
    | inl e ↦ rw e (k, v, Reclaimed-refl a)
    | inr e ↦ rw e (elim (Bool-cases (leb n (length a.free_blocks))) [
      | inl f ↦ rw f (k, v, Reclaimed-refl a)
      | inr f ↦ rw f (h.apply (n - length a.free_blocks) c a k v)
    ])
  ]

  -- What append_blocks may answer, and the pool that it leaves.
  pub data Appended (row n : ℕ) (a : BlockAllocator) (c' : C) (a' : BlockAllocator) (r : Option ℕ)
      : Type 0 where
    refused :
        r ≡ none
        → Ok c' a'
        → Reclaimed a a'
        → (n ≡ 0)
          ⊎ (a.max_blocks_per_seq < num_used_blocks a (some row) + n)
          ⊎ (length a'.free_blocks < n)
        → Appended row n a c' a' r
    grown :
        (a₁ : BlockAllocator)
        → r ≡ some (num_used_blocks a (some row) + n)
        → Ok c' a₁
        → Reclaimed a a₁
        → Grown n row a₁ a'
        → Appended row n a c' a' r

  module _ (reclaim_fn : Option (ReclaimFn C)) (hook : IsHook Ok reclaim_fn) (row n : ℕ) (c : C)
      (a : BlockAllocator) (k : Ok c a) (v : Inv a) (row_lt : row < a.num_rows)
      (owned : a.row_busy row ≡ true) where
    abbrev pub AppendPost : (C × BlockAllocator) × Option ℕ → Type 0
    AppendPost ((c', a'), r) = Inv a' × Appended row n a c' a' r

    pub used-blocks : num_used_blocks a (some row) ≡ length (blocks_of (a.block_tables row))
    used-blocks = ground (arith, used_entries-length (a.block_tables row))

    -- Behind the reclaim: the last test, and the loop.
    take_blocks :
        num_used_blocks a (some row) + n ≤ a.max_blocks_per_seq
        → (c' : C) (a₁ : BlockAllocator) → Kept Ok a (c', a₁)
        → Returns
            (if ltb (length a₁.free_blocks) n
              then some ((c', a₁), none)
              else (pop_blocks n a₁ row (num_used_blocks a (some row))
                  >>= (λ a''. some ((c', a''), some (num_used_blocks a (some row) + n)))))
            AppendPost
    take_blocks fits c' a₁ (k', v₁, g) = elim (Bool-cases (ltb (length a₁.free_blocks) n)) [
      | inl s ↦ rw s (v₁, refused refl k' g (inr (inr (ground arith))))
      | inr s ↦ rw s (
          Returns-bind (λ a'. Inv a' × Grown n row a₁ a') AppendPost
            (pop_blocks n a₁ row (num_used_blocks a (some row))) _
            (pop_blocks-Grown n a₁ row (num_used_blocks a (some row)) v₁
              (omega (arith, g.same_num_rows)) (cc (g.same_busy))
              (ap (λ (t : ℕ → Row). length (blocks_of (t row))) g.same_tables ∙ sym used-blocks)
              (omega (arith, g.same_width)) (ground arith))
            (λ a' (v', grows). (v', grown a₁ refl k' g grows)))
    ]

    -- With a lawful reclaim hook, and cache and pool in order, append_blocks on an owned row
    -- never aborts and keeps the pool in order. It either appends `n` free blocks to that row and
    -- no other, or changes no table, and then `n` is 0, the row is too narrow, or too few blocks
    -- are free.
    pub append_blocks-Appended : Returns (append_blocks reclaim_fn (some row) n (c, a)) AppendPost
    unfolding append_blocks
    append_blocks-Appended = elim (Bool-cases (leb a.num_rows row || n == 0)) [
      | inl e ↦ rw e (v, refused refl k (Reclaimed-refl a) (inl (ground arith)))
      | inr e ↦
          rw e (elim (Bool-cases (ltb a.max_blocks_per_seq (num_used_blocks a (some row) + n))) [
            | inl f ↦ rw f (v, refused refl k (Reclaimed-refl a) (inr (inl (ground arith))))
            | inr f ↦ rw f (
                Returns-bind (Kept Ok a) AppendPost (reclaim_for reclaim_fn n c a) _
                  (reclaim_for-Kept reclaim_fn n c a hook k v)
                  (λ (c', a₁) kept. take_blocks (ground arith) c' a₁ kept))
          ])
    ]
