-- ===== src/BlockAllocator/Shrink.antt =====
-- What a cut of one row means for the others: their blocks give back at least as much as before.
use llm_steady_infer.Base.{
  ℕ, zero, suc, ◌≤◌, ◌<◌, ◌≡◌, ◌≢◌, sym, ap, subst, inl, inr, Bool-cases, none, some, [], ◌∷◌, ◌==◌,
  drop, count, count-take-le, arith, lt→leb, ==_iff,
}
use llm_steady_infer.BlockAllocator.{
  BlockAllocator, Row, blocks_of, reclaimable_in, reclaimable_blocks_from,
}
use llm_steady_infer.BlockAllocator.Invariant.{Inv, occurrences, count-le-occurrences}
use llm_steady_infer.BlockAllocator.Release.{Freed}

occurrences_mono :
    (n : ℕ) (t t' : ℕ → Row) (x : ℕ)
    → ((r : ℕ) → count x (blocks_of (t' r)) ≤ count x (blocks_of (t r)))
    → occurrences n t' x ≤ occurrences n t x
occurrences_mono zero t t' x h = omega arith
occurrences_mono (suc n) t t' x h = omega (arith, h n, occurrences_mono n t t' x h)

-- Blocks with fewer references, but still some, count at least as before.
reclaimable_in_mono :
    (es : Row) (a a' : BlockAllocator)
    → ((x : ℕ) → a'.ref_counts x ≤ a.ref_counts x)
    → ((x : ℕ) → count x (blocks_of es) ≤ a'.ref_counts x)
    → ((x : ℕ) → a'.cached x ≡ a.cached x)
    → reclaimable_in a es ≤ reclaimable_in a' es
unfolding reclaimable_in
reclaimable_in_mono [] a a' le pos same = omega arith
reclaimable_in_mono (none ∷ es) a a' le pos same = reclaimable_in_mono es a a' le pos same
reclaimable_in_mono (some b ∷ es) a a' le pos same =
    ground
      (arith, le b, pos b, same b, reclaimable_in_mono es a a' le (λ x. ground (arith, pos x)) same)

count-drop-le : (x k : ℕ) (es : Row) → count x (blocks_of (drop k es)) ≤ count x (blocks_of es)
count-drop-le x zero es = omega arith
count-drop-le x (suc k) [] = omega arith
count-drop-le x (suc k) (none ∷ es) = count-drop-le x k es
count-drop-le x (suc k) (some b ∷ es) = omega (arith, count-drop-le x k es)

module _ (start row : ℕ) (a a' : BlockAllocator) (v : Inv a) (v' : Inv a')
    (f : Freed start row a a') where
  fewer_entries :
      (x r : ℕ) → count x (blocks_of (a'.block_tables r)) ≤ count x (blocks_of (a.block_tables r))
  fewer_entries x r = elim (Bool-cases (r == row)) [
    | inl hit ↦
        subst
          (λ y. count x (blocks_of (a'.block_tables y)) ≤ count x (blocks_of (a.block_tables y)))
          (sym ((==_iff r row).0 hit))
          (omega
            (arith, ap (count x) f.kept, count-take-le x start (blocks_of (a.block_tables row))))
    | inr miss ↦
        omega (arith, ap (λ es. count x (blocks_of es)) (f.others r (λ e. ground (arith, e, miss))))
  ]

  fewer_refs : (x : ℕ) → a'.ref_counts x ≤ a.ref_counts x
  fewer_refs x = omega (
    arith,
    v.counted x,
    v'.counted x,
    ap (λ n. occurrences n a'.block_tables x) f.same_num_rows,
    occurrences_mono a.num_rows a.block_tables a'.block_tables x (fewer_entries x),
  )

  -- The cut of a row never lowers what a cut of another row would give back.
  pub reclaimable_blocks_from-others :
      (r k : ℕ)
      → r ≢ row
      → r < a.num_rows
      → reclaimable_blocks_from (some r) k a ≤ reclaimable_blocks_from (some r) k a'
  unfolding reclaimable_blocks_from
  reclaimable_blocks_from-others r k ne lt =
      rw (lt→leb r a.num_rows lt, lt→leb r a'.num_rows lt', f.others r ne)
        (reclaimable_in_mono (drop k (a.block_tables r)) a a' fewer_refs
          (λ x. omega (
            arith,
            count-drop-le x k (a.block_tables r),
            ap (λ es. count x (blocks_of es)) (f.others r ne),
            v'.counted x,
            count-le-occurrences a'.num_rows a'.block_tables r x lt',
          ))
          (λ x. ap (λ c. c x) f.same_cached))
    where
      lt' : r < a'.num_rows
      lt' = omega (arith, lt, f.same_num_rows)
