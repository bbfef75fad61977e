-- ===== src/BlockAllocator/Admission.antt =====
-- allocate_blocks: a row for a new sequence.
use llm_steady_infer.Base.{
  ℕ, zero, suc, ◌+◌, ◌≤◌, ◌<◌, ◌≡◌, ◌⊎◌, refl, ap, Bool, true, false, Option, none, some, arith,
  ltb, if◌then◌else◌, length, update, update_self, Returns, Returns-bind, inl, inr, Bool-cases,
  Option-cases, ◌>>=◌,
}
use llm_steady_infer.BlockAllocator.{
  BlockAllocator, ReclaimFn, pop_blocks, reclaim_for, allocate_blocks, first_free_row,
}
use llm_steady_infer.BlockAllocator.Invariant.{Inv}
use llm_steady_infer.BlockAllocator.Growth.{Grown, pop_blocks-Grown}
use llm_steady_infer.BlockAllocator.Reclaim.{
  Reclaimed, Reclaimed-refl, Kept, IsHook, reclaim_for-Kept,
}

first_free_row-some :
    (n i row : ℕ) (busy : ℕ → Bool)
    → first_free_row n i busy ≡ some row
    → (i ≤ row) × (row < i + n) × (busy row ≡ false)
unfolding first_free_row
first_free_row-some zero i row busy e = cc
first_free_row-some (suc n) i row busy e = ground (arith, first_free_row-some n (i + 1) row busy)

first_free_row-none :
    (n i row : ℕ) (busy : ℕ → Bool)
    → first_free_row n i busy ≡ none
    → i ≤ row
    → row < i + n
    → busy row ≡ true
unfolding first_free_row
first_free_row-none zero i row busy e lo hi = absurd (omega arith)
first_free_row-none (suc n) i row busy e lo hi =
    ground (arith, first_free_row-none n (i + 1) row busy)

-- Taking a row that mounts nothing breaks no invariant.
abbrev pub taken : BlockAllocator → ℕ → BlockAllocator
taken a row = record a { row_busy = update a.row_busy row true }

taken-Inv : (a : BlockAllocator) (row : ℕ) → Inv a → Inv (taken a row)
taken-Inv a row v = record {
  free_once = v.free_once;
  counted = v.counted;
  in_pool = v.in_pool;
  once = v.once;
  compact = v.compact;
  width = v.width;
  idle = λ r h. ground (arith, v.idle r);
}

module _ {C : Type 0} (Ok : C → BlockAllocator → Type 0) where
  -- What allocate_blocks may answer, and the pool that it leaves.
  pub data Allocated (n : ℕ) (a : BlockAllocator) (c' : C) (a' : BlockAllocator) (r : Option ℕ)
      : Type 0 where
    refused :
        r ≡ none
        → Ok c' a'
        → Reclaimed a a'
        → (a.max_blocks_per_seq < n)
          ⊎ ((row : ℕ) → row < a.num_rows → a.row_busy row ≡ true)
          ⊎ (length a'.free_blocks < n)
        → Allocated n a c' a' r
    mounted :
        (row : ℕ) (a₁ : BlockAllocator)
        → r ≡ some row
        → row < a.num_rows
        → a.row_busy row ≡ false
        → Ok c' a₁
        → Reclaimed a a₁
        → Grown n row (taken a₁ row) a'
        → Allocated n a c' a' r

  module _ (reclaim_fn : Option (ReclaimFn C)) (hook : IsHook Ok reclaim_fn) (n : ℕ) (c : C)
      (a : BlockAllocator) (k : Ok c a) (v : Inv a) where
    abbrev pub AllocatePost : (C × BlockAllocator) × Option ℕ → Type 0
    AllocatePost ((c', a'), r) = Inv a' × Allocated n a c' a' r

    fill_row :
        (row : ℕ)
        → first_free_row a.num_rows 0 a.row_busy ≡ some row
        → n ≤ a.max_blocks_per_seq
        → (c' : C) (a₁ : BlockAllocator) → Kept Ok a (c', a₁)
        → Returns
            (if ltb (length a₁.free_blocks) n
              then some ((c', a₁), none)
              else (pop_blocks n (taken a₁ row) row 0 >>= (λ a''. some ((c', a''), some row))))
            AllocatePost
    fill_row row e fits c' a₁ (k', v₁, g) = elim (Bool-cases (ltb (length a₁.free_blocks) n)) [
      | inl s ↦ rw s (v₁, refused refl k' g (inr (inr (ground arith))))
      | inr s ↦
          let (_, row_lt, idle) = first_free_row-some a.num_rows 0 row a.row_busy e in
          rw s (
            Returns-bind (λ a'. Inv a' × Grown n row (taken a₁ row) a') AllocatePost
              (pop_blocks n (taken a₁ row) row 0) _
              (pop_blocks-Grown n (taken a₁ row) row 0 (taken-Inv a₁ row v₁)
                (omega (arith, g.same_num_rows)) (update_self a₁.row_busy row true)
                (ap length (v₁.idle row (cc g.same_busy))) (omega (arith, g.same_width))
                (ground arith))
              (λ a' (v', grows). (v', mounted row a₁ refl (omega arith) idle k' g grows)))
    ]

    -- With a lawful reclaim hook, and cache and pool in order, allocate_blocks never aborts and
    -- keeps the pool in order. It either takes an idle row and mounts `n` free blocks on it, or
    -- changes no table and no owner, and then the row is too narrow, every row is taken, or too
    -- few blocks are free.
    pub allocate_blocks-Allocated : Returns (allocate_blocks reclaim_fn n (c, a)) AllocatePost
    unfolding allocate_blocks
    allocate_blocks-Allocated = elim (Bool-cases (ltb a.max_blocks_per_seq n)) [
      | inl e ↦ rw e (v, refused refl k (Reclaimed-refl a) (inl (ground arith)))
      | inr e ↦ rw e (elim (Option-cases (first_free_row a.num_rows 0 a.row_busy)) [
        | inl f ↦ rw f (
          v,
          refused refl k (Reclaimed-refl a) (
              inr (
                inl (λ row h.
                  first_free_row-none a.num_rows 0 row a.row_busy f (omega arith) (omega arith)))),
        )
        | inr (row, f) ↦ rw f (
            Returns-bind (Kept Ok a) AllocatePost (reclaim_for reclaim_fn n c a) _
              (reclaim_for-Kept Ok reclaim_fn n c a hook k v)
              (λ (c', a₁) kept. fill_row row f (ground arith) c' a₁ kept))
      ])
    ]
