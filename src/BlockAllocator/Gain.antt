-- ===== src/BlockAllocator/Gain.antt =====
-- What a cut gives back: reclaimable_blocks_from foretells free_blocks_from.
use llm_steady_infer.Base.{
  ℕ, zero, suc, ◌+◌, ◌-◌, ◌≤◌, ◌<◌, ◌≡◌, ◌≢◌, refl, sym, ap, ◌∙◌, inl, inr, Bool, true, false, not,
  ◌&&◌, Bool-cases, Option, none, some, [], ◌∷◌, leb, ◌==◌, if◌then◌else◌, update_self, update-ne,
  length, drop, count, Returns, Returns-bind, lt→ltb, lt→leb, arith,
}
use llm_steady_infer.BlockAllocator.{
  BlockAllocator, Row, blocks_of, release_block, drop_ref, free_walk, free_blocks_from,
  reclaimable_in, reclaimable_blocks_from,
}
use llm_steady_infer.BlockAllocator.Invariant.{Inv, count-le-occurrences}

abbrev gain_of : BlockAllocator → ℕ → ℕ
gain_of a b = if a.ref_counts b == 1 && not (a.cached b) then 1 else 0

record Lowered (b : ℕ) (a a' : BlockAllocator) : Type 0 where
  gained : length a'.free_blocks ≡ length a.free_blocks + gain_of a b
  refs : (x : ℕ) → x ≢ b → a'.ref_counts x ≡ a.ref_counts x
  same_cached : a'.cached ≡ a.cached

drop_ref-Lowered :
    (b : ℕ) (a : BlockAllocator) → 0 < a.ref_counts b → Returns (drop_ref b a) (Lowered b a)
unfolding drop_ref release_block
drop_ref-Lowered b a h =
    rw (lt→ltb 0 (a.ref_counts b) h, update_self a.ref_counts b (a.ref_counts b - 1))
      (elim (Bool-cases (a.ref_counts b - 1 == 0)) [
        | inl e ↦ rw e (elim (Bool-cases (a.cached b)) [
          | inl f ↦ rw f (record {
            gained = ground arith;
            refs = λ x n. update-ne a.ref_counts b _ x n;
            same_cached = refl;
          })
          | inr f ↦ rw f (record {
            gained = ground arith;
            refs = λ x n. update-ne a.ref_counts b _ x n;
            same_cached = refl;
          })
        ])
        | inr e ↦ rw e (record {
          gained = ground arith;
          refs = λ x n. update-ne a.ref_counts b _ x n;
          same_cached = refl;
        })
      ])

-- Blocks that are not touched count as before.
reclaimable_in-same :
    (b : ℕ) (es : Row) (a a' : BlockAllocator)
    → Lowered b a a'
    → count b (blocks_of es) ≡ 0
    → reclaimable_in a' es ≡ reclaimable_in a es
unfolding reclaimable_in
reclaimable_in-same b [] a a' l h = refl
reclaimable_in-same b (none ∷ es) a a' l h = reclaimable_in-same b es a a' l h
reclaimable_in-same b (some x ∷ es) a a' l h =
    ground
      (arith, l.refs x, ap (λ (f : ℕ → Bool). f x) l.same_cached, reclaimable_in-same b es a a' l)

abbrev GainPost : ℕ → ℕ → Row → BlockAllocator → Row × Bool × BlockAllocator → Type 0
GainPost start i es a (es', left, a') =
    length a'.free_blocks ≡ length a.free_blocks + reclaimable_in a (drop (start - i) es)

drop_behind :
    (start i : ℕ) (e : Option ℕ) (es : Row)
    → leb start i ≡ false
    → drop (start - i) (e ∷ es) ≡ drop (start - (i + 1)) es
drop_behind start i e es h =
    let more : start - i ≡ suc (start - (i + 1)) = ground arith in ap (λ k. drop k (e ∷ es)) more

drop_none : (start i : ℕ) (es : Row) → leb start i ≡ true → drop (start - i) es ≡ es
drop_none start i es h = let less : start - i ≡ 0 = ground arith in ap (λ k. drop k es) less

drop-nil : (n : ℕ) → drop {A = Option ℕ} n [] ≡ []
drop-nil zero = refl
drop-nil (suc n) = refl

-- An unused entry gives nothing back.
gain-none :
    (start i : ℕ) (es : Row) (a : BlockAllocator)
    → reclaimable_in a (drop (start - i) (none ∷ es)) ≡ reclaimable_in a (drop (start - (i + 1)) es)
unfolding reclaimable_in
gain-none start i es a = elim (Bool-cases (leb start i)) [
  | inl e ↦
      ap (reclaimable_in a) (drop_none start i (none ∷ es) e)
      ∙ sym (ap (reclaimable_in a) (drop_none start (i + 1) es (ground arith)))
  | inr e ↦ ap (reclaimable_in a) (drop_behind start i none es e)
]

free_walk-gain :
    (start i : ℕ) (es : Row) (a : BlockAllocator)
    → ((x : ℕ) → count x (blocks_of es) ≤ a.ref_counts x)
    → ((x : ℕ) → count x (blocks_of es) ≤ 1)
    → Returns (free_walk start i es a) (GainPost start i es a)
unfolding free_walk reclaimable_in
free_walk-gain start i [] a h o = omega (arith, ap (reclaimable_in a) (drop-nil (start - i)))
free_walk-gain start i (none ∷ es) a h o =
    Returns-bind (GainPost start (i + 1) es a) (GainPost start i (none ∷ es) a)
      (free_walk start (i + 1) es a) _ (free_walk-gain start (i + 1) es a h o)
      (λ (es', left, a') g. omega (arith, g, gain-none start i es a))
free_walk-gain start i (some b ∷ es) a h o = elim (Bool-cases (leb start i)) [
  | inl e ↦
      rw (e, free_walk)
        (Returns-bind (Lowered b a) (GainPost start i (some b ∷ es) a) (drop_ref b a) _
          (drop_ref-Lowered b a (ground (arith, h b)))
          (λ a₁ l.
            Returns-bind (GainPost start (i + 1) es a₁) (GainPost start i (some b ∷ es) a)
              (free_walk start (i + 1) es a₁) _
              (free_walk-gain start (i + 1) es a₁ (λ x. ground (arith, h x, o x, l.refs x))
                (λ x. ground (arith, o x)))
              (λ (es', left, a') g.
                let here = ap (reclaimable_in a) (drop_none start i (some b ∷ es) e) in
                let there = ap (reclaimable_in a₁) (drop_none start (i + 1) es (ground arith)) in
                let same = reclaimable_in-same b es a a₁ l (ground (arith, o b)) in
                omega (arith, g, here, there, same, l.gained))))
  | inr e ↦
      rw (e, free_walk)
        (Returns-bind (GainPost start (i + 1) es a) (GainPost start i (some b ∷ es) a)
          (free_walk start (i + 1) es a) _
          (free_walk-gain start (i + 1) es a (λ x. ground (arith, h x)) (λ x. ground (arith, o x)))
          (λ (es', left, a') g.
            omega (arith, g, ap (reclaimable_in a) (drop_behind start i (some b) es e))))
]

-- In a pool in order, dropping the blocks of a row from the entry `start` on lengthens the free list
-- by exactly what reclaimable_blocks_from says.
pub free_blocks_from-gain :
    (start row : ℕ) (a : BlockAllocator)
    → Inv a
    → row < a.num_rows
    → Returns (free_blocks_from (some row) start a) (λ a'.
      length a'.free_blocks ≡ length a.free_blocks + reclaimable_blocks_from (some row) start a)
unfolding free_blocks_from reclaimable_blocks_from
free_blocks_from-gain start row a v lt = rw (lt→leb row a.num_rows lt) (
    Returns-bind (GainPost start 0 (a.block_tables row) a)
      (λ a'.
        length a'.free_blocks
        ≡ length a.free_blocks + reclaimable_in a (drop start (a.block_tables row)))
      (free_walk start 0 (a.block_tables row) a) _
      (free_walk-gain start 0 (a.block_tables row) a
        (λ x. omega (arith, v.counted x, count-le-occurrences a.num_rows a.block_tables row x lt))
        (v.once row))
      (λ (es', left, a') g.
        let whole : start - 0 ≡ start = omega arith in
        g ∙ ap (λ k. length a.free_blocks + reclaimable_in a (drop k (a.block_tables row))) whole))
