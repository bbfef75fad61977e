-- ===== src/BlockAllocator/Walking.antt =====
-- free_walk: dropping the references of the entries of a row.
use llm_steady_infer.Base.{
  ℕ, suc, ◌+◌, ◌-◌, ◌≤◌, ◌<◌, ◌≡◌, refl, ap, Bool, true, false, none, some, [], ◌∷◌, arith, leb,
  length, take, take-nil, count, Returns, Returns-bind, inl, inr, Bool-cases, sym, ◌∙◌,
}
use llm_steady_infer.BlockAllocator.{
  BlockAllocator, Row, blocks_of, IsCompact, IsCompact-of_empty, drop_ref, free_walk,
}
use llm_steady_infer.BlockAllocator.Dropping.{
  Dropped, InState, SamePool, SamePool-refl, SamePool-trans, drop_ref-Dropped,
}

-- The entries from `start` on are cleared, and each of their blocks loses one reference.
pub record Walked (start i : ℕ) (es : Row) (a : BlockAllocator) (es' : Row) (left : Bool)
    (a' : BlockAllocator) : Type 0 where
  pub state : InState a'
  pub same : SamePool a a'
  pub refs :
      (x : ℕ) → a'.ref_counts x + count x (blocks_of es) ≡ a.ref_counts x + count x (blocks_of es')
  pub same_length : length es' ≡ length es
  pub kept : IsCompact es → blocks_of es' ≡ take (start - i) (blocks_of es)
  pub compact : IsCompact es → IsCompact es'
  pub none_left : left ≡ false → blocks_of es' ≡ []
  pub some_left : left ≡ true → 0 < length (blocks_of es')

abbrev pub WalkPost : ℕ → ℕ → Row → BlockAllocator → Row × Bool × BlockAllocator → Type 0
WalkPost start i es a (es', left, a') = Walked start i es a es' left a'

-- Behind the entries of a row: an unused one.
Walked-none :
    (start i : ℕ) (es : Row) (a : BlockAllocator) (es' : Row) (left : Bool) (a' : BlockAllocator)
    → Walked start (i + 1) es a es' left a'
    → Walked start i (none ∷ es) a (none ∷ es') left a'
Walked-none start i es a es' left a' w = record {
  state = w.state;
  same = w.same;
  refs = w.refs;
  same_length = ap suc w.same_length;
  kept = λ c. emptied c ∙ sym (ap (take (start - i)) c ∙ take-nil (start - i));
  compact = emptied;
  none_left = w.none_left;
  some_left = w.some_left;
}
  where
    emptied : blocks_of es ≡ [] → blocks_of es' ≡ []
    emptied c =
        w.kept (IsCompact-of_empty es c)
        ∙ ap (take (start - (i + 1))) c
        ∙ take-nil (start - (i + 1))

-- A cleared entry.
Walked-clear :
    (start i b : ℕ) (es : Row) (a a₁ : BlockAllocator) (es' : Row) (left : Bool)
    (a' : BlockAllocator)
    → start ≤ i
    → Dropped b a a₁
    → Walked start (i + 1) es a₁ es' left a'
    → Walked start i (some b ∷ es) a (none ∷ es') left a'
Walked-clear start i b es a a₁ es' left a' h d w = record {
  state = w.state;
  same = SamePool-trans d.same w.same;
  refs = λ x. omega (arith, d.refs x, w.refs x);
  same_length = ap suc w.same_length;
  kept = λ c. emptied c ∙ ap (λ k. take k (b ∷ blocks_of es)) (sym ends);
  compact = emptied;
  none_left = w.none_left;
  some_left = w.some_left;
}
  where
    ends : start - i ≡ 0
    ends = omega arith

    ends' : start - (i + 1) ≡ 0
    ends' = omega arith

    emptied : IsCompact es → blocks_of es' ≡ []
    emptied c = w.kept c ∙ ap (λ k. take k (blocks_of es)) ends'

-- An entry that stays.
Walked-keep :
    (start i b : ℕ) (es : Row) (a : BlockAllocator) (es' : Row) (left : Bool) (a' : BlockAllocator)
    → i < start
    → Walked start (i + 1) es a es' left a'
    → Walked start i (some b ∷ es) a (some b ∷ es') true a'
Walked-keep start i b es a es' left a' h w = record {
  state = w.state;
  same = w.same;
  refs = λ x. omega (arith, w.refs x);
  same_length = ap suc w.same_length;
  kept = λ c. ap (◌∷◌ b) (w.kept c) ∙ ap (λ k. take k (b ∷ blocks_of es)) (sym goes_on);
  compact = w.compact;
  none_left = λ e. cc;
  some_left = λ e. omega arith;
}
  where
    goes_on : start - i ≡ suc (start - (i + 1))
    goes_on = omega arith

pub free_walk-Walked :
    (start i : ℕ) (es : Row) (a : BlockAllocator)
    → InState a
    → ((x : ℕ) → count x (blocks_of es) ≤ a.ref_counts x)
    → Returns (free_walk start i es a) (WalkPost start i es a)
unfolding free_walk
free_walk-Walked start i [] a s h = record {
  state = s;
  same = SamePool-refl a;
  refs = λ x. refl;
  same_length = refl;
  kept = λ c. sym (take-nil (start - i));
  compact = λ c. tt;
  none_left = λ e. refl;
  some_left = λ e. cc;
}
free_walk-Walked start i (none ∷ es) a s h =
    Returns-bind (WalkPost start (i + 1) es a) (WalkPost start i (none ∷ es) a)
      (free_walk start (i + 1) es a) _ (free_walk-Walked start (i + 1) es a s h)
      (λ (es', left, a') w. Walked-none start i es a es' left a' w)
free_walk-Walked start i (some b ∷ es) a s h = elim (Bool-cases (leb start i)) [
  | inl e ↦
      rw (e, free_walk)
        (Returns-bind (Dropped b a) (WalkPost start i (some b ∷ es) a) (drop_ref b a) _
          (drop_ref-Dropped b a s (ground (arith, h b)))
          (λ a₁ d.
            Returns-bind (WalkPost start (i + 1) es a₁) (WalkPost start i (some b ∷ es) a)
              (free_walk start (i + 1) es a₁) _
              (free_walk-Walked start (i + 1) es a₁ d.state (λ x. omega (arith, h x, d.refs x)))
              (λ (es', left, a') w. Walked-clear start i b es a a₁ es' left a' (ground arith) d w)))
  | inr e ↦
      rw (e, free_walk)
        (Returns-bind (WalkPost start (i + 1) es a) (WalkPost start i (some b ∷ es) a)
          (free_walk start (i + 1) es a) _
          (free_walk-Walked start (i + 1) es a s (λ x. omega (arith, h x)))
          (λ (es', left, a') w. Walked-keep start i b es a es' left a' (ground arith) w))
]
