-- ===== src/PrefixCache/Walking.antt =====
-- evict_lru: its walk from the oldest entry on.
use mathlib.Core.List.{reverse-cons, append-nil, append_assoc}
use llm_steady_infer.Base.{
  ℕ, ◌+◌, ◌-◌, ◌≤◌, ◌<◌, ◌≡◌, ◌⊎◌, inl, inr, refl, sym, ap, ◌∙◌, false, not, ◌&&◌, List, [], ◌∷◌,
  ◌++◌, reverse, leb, ◌==◌, if◌then◌else◌, length, length-append, length-reverse, All-append,
  All-reverse, All, Returns, Returns-bind, Returns-mono, Returns-if, Bool-cases, arith,
}
use llm_steady_infer.BlockAllocator.{BlockAllocator, ref_count, evict_cached}
use llm_steady_infer.BlockAllocator.Invariant.{Inv}
use llm_steady_infer.BlockAllocator.Reclaim.{Reclaimed, Reclaimed-refl, Reclaimed-trans}
use llm_steady_infer.BlockAllocator.Sharing.{evict_cached-Inv}
use llm_steady_infer.PrefixCache.{Entry, evict_one, evict_walk}

-- Every entry names a block of the pool.
abbrev pub InPool : List Entry → BlockAllocator → Type 0
InPool es a = All (λ e. e.block_id < a.num_blocks) es

-- One round drops an entry if no row references its block.
pub record EvictedOne (e : Entry) (a : BlockAllocator) (kept kept' : List Entry) (n n' : ℕ)
    (a' : BlockAllocator) : Type 0 where
  pub valid : Inv a'
  pub reclaimed : Reclaimed a a'
  pub choice :
      (kept' ≡ kept) × (n' ≡ n + 1) × (a.ref_counts e.block_id ≡ 0)
      ⊎ (kept' ≡ e ∷ kept) × (n' ≡ n) × (0 < a.ref_counts e.block_id)

evict_one-EvictedOne :
    (e : Entry) (kept : List Entry) (n : ℕ) (a : BlockAllocator)
    → Inv a
    → e.block_id < a.num_blocks
    → Returns (evict_one e (kept, n, a)) (λ (kept', n', a'). EvictedOne e a kept kept' n n' a')
unfolding evict_one ref_count
evict_one-EvictedOne e kept n a v h = elim (Bool-cases (ref_count e.block_id a == 0)) [
  | inl free ↦ rw free (
      Returns-bind (λ a'. Inv a' × Reclaimed a a' × (a'.cached e.block_id ≡ false))
        (λ (kept', n', a'). EvictedOne e a kept kept' n n' a') (evict_cached e.block_id a) _
        (evict_cached-Inv e.block_id a v h (ground arith))
        (λ a' (v', r, _). record {
          valid = v';
          reclaimed = r;
          choice = inl (refl, refl, ground arith);
        }))
  | inr held ↦
      rw held (record {
        valid = v;
        reclaimed = Reclaimed-refl a;
        choice = inr (refl, refl, ground arith);
      })
]

-- The entries whose block some row references.
abbrev pub in_use : (ℕ → ℕ) → List Entry → List Entry
in_use refs [] = []
in_use refs (e ∷ es) = if refs e.block_id == 0 then in_use refs es else e ∷ in_use refs es

pub in_use-append :
    (refs : ℕ → ℕ) (xs ys : List Entry) → in_use refs (xs ++ ys) ≡ in_use refs xs ++ in_use refs ys
in_use-append refs [] ys = refl
in_use-append refs (x ∷ xs) ys = ground (arith, in_use-append refs xs ys)

pub in_use-reverse :
    (refs : ℕ → ℕ) (xs : List Entry) → in_use refs (reverse xs) ≡ reverse (in_use refs xs)
in_use-reverse refs [] = refl
in_use-reverse refs (x ∷ xs) =
    rw (reverse-cons x xs, in_use-append refs (reverse xs) (x ∷ []), in_use-reverse refs xs)
      (ground (arith, reverse-cons x (in_use refs xs), append-nil (reverse (in_use refs xs))))

-- What the walk over `left` does. `P` is any property that the entries share.
pub record Walked (P : Entry → Type 0) (n : ℕ) (left kept kept' : List Entry) (evicted evicted' : ℕ)
    (a a' : BlockAllocator) : Type 0 where
  pub valid : Inv a'
  pub reclaimed : Reclaimed a a'
  pub bounded : evicted ≤ n → evicted' ≤ n
  pub grows : evicted ≤ evicted'
  pub accounted : length kept' + evicted' ≡ length left + length kept + evicted
  -- Entries in use stay, in their order.
  pub in_order : in_use a.ref_counts kept' ≡ in_use a.ref_counts (reverse left ++ kept)
  pub shared : All P left → All P kept → All P kept'
  -- A walk that evicts nothing has seen no entry that it could.
  pub progress : evicted' < n → evicted' ≡ 0 → All (λ e. 0 < a.ref_counts e.block_id) left

module _ (P : Entry → Type 0) (n : ℕ) where
  -- The walk stops before `left`.
  Walked-stop :
      (left kept : List Entry) (evicted : ℕ) (a : BlockAllocator)
      → Inv a
      → (evicted < n → evicted ≡ 0 → All (λ e. 0 < a.ref_counts e.block_id) left)
      → Walked P n left kept (reverse left ++ kept) evicted evicted a a
  Walked-stop left kept evicted a v stop = record {
    valid = v;
    reclaimed = Reclaimed-refl a;
    bounded = λ h. h;
    grows = omega arith;
    accounted = omega (arith, length-append (reverse left) kept, length-reverse left);
    in_order = refl;
    shared = λ l k. All-append P (reverse left) kept (All-reverse P left l) k;
    progress = stop;
  }

  Walked-step :
      (e : Entry) (left kept kept₁ kept' : List Entry) (evicted evicted₁ evicted' : ℕ)
      (a a₁ a' : BlockAllocator)
      → evicted < n
      → EvictedOne e a kept kept₁ evicted evicted₁ a₁
      → Walked P n left kept₁ kept' evicted₁ evicted' a₁ a'
      → Walked P n (e ∷ left) kept kept' evicted evicted' a a'
  Walked-step e left kept kept₁ kept' evicted evicted₁ evicted' a a₁ a' h one w = record {
    valid = w.valid;
    reclaimed = Reclaimed-trans one.reclaimed w.reclaimed;
    bounded = λ _. ground (arith, one.choice, w.bounded);
    grows = ground (arith, one.choice, w.grows);
    accounted = ground (arith, one.choice, w.accounted);
    in_order =
        (rw one.reclaimed.same_refs at w.in_order)
        ∙ in_use-append refs (reverse left) kept₁
        ∙ ap (◌++◌ (in_use refs (reverse left))) same_use
        ∙ sym (in_use-append refs (reverse left) (e ∷ kept))
        ∙ ap (in_use refs) regroup;
    shared = λ l k. elim one.choice [
      | inl (same, _, _) ↦ w.shared l.1 (rw same k)
      | inr (more, _, _) ↦ w.shared l.1 (rw more (l.0, k))
    ];
    progress = λ short zero_evicted. (
      ground (arith, one.choice, w.grows),
      rw one.reclaimed.same_refs at (w.progress short zero_evicted),
    );
  }
    where
      refs : ℕ → ℕ
      refs = a.ref_counts

      same_use : in_use refs kept₁ ≡ in_use refs (e ∷ kept)
      same_use = ground (arith, one.choice)

      regroup : reverse left ++ (e ∷ kept) ≡ reverse (e ∷ left) ++ kept
      regroup = rw (reverse-cons e left, append_assoc) refl

  abbrev pub WalkPost :
      List Entry → List Entry → ℕ → BlockAllocator → List Entry × ℕ × BlockAllocator → Type 0
  WalkPost left kept evicted a (kept', evicted', a') =
      Walked P n left kept kept' evicted evicted' a a'

  pub evict_walk-Walked :
      (left : List Entry) (budget : ℕ) (kept : List Entry) (evicted : ℕ) (a : BlockAllocator)
      → Inv a
      → InPool left a
      → Returns (evict_walk n left budget (kept, evicted, a)) (WalkPost left kept evicted a)
  unfolding evict_walk
  evict_walk-Walked [] budget kept evicted a v h = Walked-stop [] kept evicted a v (λ _ _. tt)
  evict_walk-Walked (e ∷ left) budget kept evicted a v h = elim (Bool-cases (leb n evicted)) [
    | inl done ↦ rw done (Walked-stop (e ∷ left) kept evicted a v (λ lt _. absurd (ground arith)))
    | inr more ↦ rw more (
        Returns-bind (λ (kept₁, evicted₁, a₁). EvictedOne e a kept kept₁ evicted evicted₁ a₁)
          (WalkPost (e ∷ left) kept evicted a) (evict_one e (kept, evicted, a)) _
          (evict_one-EvictedOne e kept evicted a v h.0)
          (λ (kept₁, evicted₁, a₁) one.
            let budget' = if evicted₁ == 0 then budget else budget - 1 in
            Returns-mono (WalkPost left kept₁ evicted₁ a₁) (WalkPost (e ∷ left) kept evicted a) _
              (Returns-if (WalkPost left kept₁ evicted₁ a₁) (not (evicted₁ == 0) && budget' == 0) _
                _
                (λ spent.
                  Walked-stop left kept₁ evicted₁ a₁ one.valid
                    (λ _ z. absurd (ground (arith, spent, z))))
                (λ _.
                  evict_walk-Walked left budget' kept₁ evicted₁ a₁ one.valid
                    (rw one.reclaimed.same_num_blocks h.1)))
              (λ (kept', evicted', a') w.
                Walked-step e left kept kept₁ kept' evicted evicted₁ evicted' a a₁ a' (ground arith)
                  one w)))
  ]
