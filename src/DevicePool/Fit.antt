-- ===== src/DevicePool/Fit.antt =====
-- allocate_locked's search: the smallest idle block that is large enough.
use llm_steady_infer.Base.{
  ℕ, zero, suc, ◌+◌, ◌%◌, ◌≤◌, ◌<◌, ◌≡◌, ◌⊎◌, inl, inr, refl, ap, subst, sym, ◌∙◌, false, ◌||◌,
  Option, none, some, List, [], ◌∷◌, arith, ltb, if◌then◌else◌, get_elem?, Bool-cases, Option-cases,
}
use mathlib.Core.Option.{some-injective}
use llm_steady_infer.DevicePool.{Block, best_fit, round_up, k_alignment, size_limit}

-- An idle block that the request fits in.
pub record IsFit (wanted : ℕ) (block : Block) : Type 0 where
  pub is_idle : block.busy ≡ false
  pub large : wanted ≤ block.byte_size

pub data BestFit (wanted : ℕ) (blocks : List Block) : Option (ℕ × Block) → Type 0 where
  taken :
      (j : ℕ) (b : Block)
      → get_elem? blocks j ≡ some b
      → IsFit wanted b
      → ((k : ℕ) (other : Block)
          → get_elem? blocks k ≡ some other
          → IsFit wanted other
          → b.byte_size ≤ other.byte_size)
      → BestFit wanted blocks (some (j, b))
  missed :
      ((k : ℕ) (other : Block) → get_elem? blocks k ≡ some other → IsFit wanted other → ⊥)
      → BestFit wanted blocks none

-- `best` is what the scan has kept of the places before `i`.
record Scanned (wanted i : ℕ) (best : Option (ℕ × Block)) (blocks : List Block) (j : ℕ) (b : Block)
    : Type 0 where
  origin :
      (best ≡ some (j, b))
      ⊎ ((k : ℕ) × (j ≡ i + k) × (get_elem? blocks k ≡ some b) × IsFit wanted b)
  least :
      (k : ℕ) (other : Block)
      → get_elem? blocks k ≡ some other
      → IsFit wanted other
      → b.byte_size ≤ other.byte_size
  no_more : (kept : ℕ × Block) → best ≡ some kept → b.byte_size ≤ kept.1.byte_size

-- The scan goes on with `next` in place of `best`.
record Step (wanted i : ℕ) (best : Option (ℕ × Block)) (block : Block) (next : Option (ℕ × Block))
    : Type 0 where
  keeps :
      (kept : ℕ × Block)
      → next ≡ some kept
      → (best ≡ some kept) ⊎ ((kept ≡ (i, block)) × IsFit wanted block)
  smaller :
      (kept old : ℕ × Block)
      → next ≡ some kept
      → best ≡ some old
      → kept.1.byte_size ≤ old.1.byte_size
  sees :
      IsFit wanted block
      → (kept : ℕ × Block) → next ≡ some kept
      → kept.1.byte_size ≤ block.byte_size
  stays : (next ≡ none) → (best ≡ none) × (IsFit wanted block → ⊥)

abbrev choose : ℕ → ℕ → Option (ℕ × Block) → Block → Option (ℕ × Block)
choose wanted i none block =
    if block.busy || ltb block.byte_size wanted then none else some (i, block)
choose wanted i (some best) block =
    if block.busy || ltb block.byte_size wanted
    then some best
    else if ltb block.byte_size best.1.byte_size
    then some (i, block)
    else some best

best_fit-choose :
    (wanted i : ℕ) (best : Option (ℕ × Block)) (block : Block) (blocks : List Block)
    → best_fit wanted i best (block ∷ blocks)
      ≡ best_fit wanted (suc i) (choose wanted i best block) blocks
unfolding best_fit
best_fit-choose wanted i none block blocks = refl
best_fit-choose wanted i (some best) block blocks = refl

choose-Step :
    (wanted i : ℕ) (best : Option (ℕ × Block)) (block : Block)
    → Step wanted i best block (choose wanted i best block)
choose-Step wanted i none block = record {
  keeps = λ kept e. elim (Bool-cases (block.busy || ltb block.byte_size wanted)) [
    | inl unfit ↦ absurd (ground (arith, e, unfit))
    | inr fit ↦ inr (
      ground (arith, e, fit),
      record { is_idle = ground (arith, fit); large = ground (arith, fit) },
    )
  ];
  smaller = λ kept old e o. ground (arith, o);
  sees = λ fit kept e. ground (arith, e, fit.is_idle, fit.large);
  stays = λ e. (refl, λ fit. ground (arith, e, fit.is_idle, fit.large));
}
choose-Step wanted i (some best) block = record {
  keeps = λ kept e. elim (Bool-cases (block.busy || ltb block.byte_size wanted)) [
    | inl unfit ↦ inl (ground (arith, e, unfit))
    | inr fit ↦ elim (Bool-cases (ltb block.byte_size best.1.byte_size)) [
      | inl less ↦ inr (
        ground (arith, e, fit, less),
        record { is_idle = ground (arith, fit); large = ground (arith, fit) },
      )
      | inr more ↦ inl (ground (arith, e, fit, more))
    ]
  ];
  smaller = λ kept old e o. ground (arith, e, o);
  sees = λ fit kept e. ground (arith, e, fit.is_idle, fit.large);
  stays = λ e. absurd (ground (arith, e));
}

module _ (wanted i : ℕ) (best : Option (ℕ × Block)) (block : Block) (blocks : List Block) (j : ℕ)
    (b : Block) (s : Step wanted i best block (choose wanted i best block))
    (scan : Scanned wanted (suc i) (choose wanted i best block) blocks j b) where
  least_here : IsFit wanted block → b.byte_size ≤ block.byte_size
  least_here fit = elim (Option-cases (choose wanted i best block)) [
    | inl dropped ↦ absurd ((s.stays dropped).1 fit)
    | inr (kept, e) ↦ omega (arith, scan.no_more kept e, s.sees fit kept e)
  ]

  least_cons :
      (k : ℕ) (other : Block)
      → get_elem? (block ∷ blocks) k ≡ some other
      → IsFit wanted other
      → b.byte_size ≤ other.byte_size
  least_cons zero other stands fit =
      let same = some-injective block other stands in
      subst (λ x. b.byte_size ≤ x.byte_size) same
        (least_here (subst (λ x. IsFit wanted x) (sym same) fit))
  least_cons (suc k) other stands fit = scan.least k other stands fit

  no_more_cons : (old : ℕ × Block) → best ≡ some old → b.byte_size ≤ old.1.byte_size
  no_more_cons old o = elim (Option-cases (choose wanted i best block)) [
    | inl dropped ↦ absurd (ground (arith, o, s.stays dropped))
    | inr (kept, e) ↦ omega (arith, scan.no_more kept e, s.smaller kept old e o)
  ]

  origin_cons :
      (best ≡ some (j, b))
      ⊎ ((k : ℕ) × (j ≡ i + k) × (get_elem? (block ∷ blocks) k ≡ some b) × IsFit wanted b)
  origin_cons = elim scan.origin [
    | inl chosen ↦ elim (s.keeps (j, b) chosen) [
      | inl old ↦ inl old
      | inr (same, fit) ↦ inr (
        0,
        omega (arith, ap (λ p. p.0) same),
        ap (λ p. some p.1) (sym same),
        subst (λ x. IsFit wanted x) (sym (ap (λ p. p.1) same)) fit,
      )
    ]
    | inr (k, place, stands, fit) ↦ inr (suc k, omega (arith, place), stands, fit)
  ]

  Scanned-cons : Scanned wanted i best (block ∷ blocks) j b
  Scanned-cons = record { origin = origin_cons; least = least_cons; no_more = no_more_cons }

best_fit-Scanned :
    (wanted i : ℕ) (best : Option (ℕ × Block)) (blocks : List Block) (j : ℕ) (b : Block)
    → best_fit wanted i best blocks ≡ some (j, b)
    → Scanned wanted i best blocks j b
unfolding best_fit
best_fit-Scanned wanted i best [] j b h = record {
  origin = inl h;
  least = λ k other stands. ground (arith, stands);
  no_more = λ kept e. ground (arith, h, e);
}
best_fit-Scanned wanted i best (block ∷ blocks) j b h =
    Scanned-cons wanted i best block blocks j b (choose-Step wanted i best block) (
      best_fit-Scanned wanted (suc i) (choose wanted i best block) blocks j b
        (sym (best_fit-choose wanted i best block blocks) ∙ h))

none_cons :
    (wanted : ℕ) (block : Block) (blocks : List Block)
    → (IsFit wanted block → ⊥)
    → ((k : ℕ) (other : Block) → get_elem? blocks k ≡ some other → IsFit wanted other → ⊥)
    → (k : ℕ) (other : Block) → get_elem? (block ∷ blocks) k ≡ some other
    → IsFit wanted other
    → ⊥
none_cons wanted block blocks here later zero other stands fit =
    here (subst (λ x. IsFit wanted x) (sym (some-injective block other stands)) fit)
none_cons wanted block blocks here later (suc k) other stands fit = later k other stands fit

best_fit-none :
    (wanted i : ℕ) (best : Option (ℕ × Block)) (blocks : List Block)
    → best_fit wanted i best blocks ≡ none
    → (best ≡ none)
      × ((k : ℕ) (other : Block) → get_elem? blocks k ≡ some other → IsFit wanted other → ⊥)
unfolding best_fit
best_fit-none wanted i best [] h = (h, λ k other stands. ground (arith, stands))
best_fit-none wanted i best (block ∷ blocks) h =
    let s = choose-Step wanted i best block in
    let rest =
      best_fit-none wanted (suc i) (choose wanted i best block) blocks
        (sym (best_fit-choose wanted i best block blocks) ∙ h) in
    ((s.stays rest.0).0, none_cons wanted block blocks (s.stays rest.0).1 rest.1)

scanned_taken :
    (wanted : ℕ) (blocks : List Block) (j : ℕ) (b : Block)
    → Scanned wanted 0 none blocks j b
    → BestFit wanted blocks (some (j, b))
scanned_taken wanted blocks j b scan = elim scan.origin [
  | inl kept ↦ absurd (ground (arith, kept))
  | inr (k, place, stands, fit) ↦
      taken j b (ap (get_elem? blocks) (omega (arith, place)) ∙ stands) fit scan.least
]

-- When the request fits in an idle block, allocate_locked takes an idle block that it fits in and
-- that is as small as any other such; the search comes back without one only when no idle block is
-- large enough.
pub best_fit-BestFit :
    (wanted : ℕ) (blocks : List Block) → BestFit wanted blocks (best_fit wanted 0 none blocks)
best_fit-BestFit wanted blocks = elim (Option-cases (best_fit wanted 0 none blocks)) [
  | inl none_left ↦ rw none_left (missed (best_fit-none wanted 0 none blocks none_left).1)
  | inr ((j, b), hit) ↦
      rw hit (scanned_taken wanted blocks j b (best_fit-Scanned wanted 0 none blocks j b hit))
]

-- The size that is asked of the pool: a multiple of the alignment and less than one alignment more
-- than the request, unless the request is so large that the addition wraps around: then it is 0.
pub record RoundedUp (byte_size : ℕ) (wanted : ℕ) : Type 0 where
  pub enough : byte_size + k_alignment ≤ size_limit → byte_size ≤ wanted
  pub tight : byte_size + k_alignment ≤ size_limit → wanted < byte_size + k_alignment
  pub aligned : wanted % k_alignment ≡ 0
  pub small : wanted < size_limit
  pub overflow : size_limit < byte_size + k_alignment → byte_size < size_limit → wanted ≡ 0

-- For every request, what RoundedUp says of the size that allocate_locked asks of the pool.
pub round_up-RoundedUp : (byte_size : ℕ) → RoundedUp byte_size (round_up byte_size k_alignment)
unfolding round_up
round_up-RoundedUp byte_size = record {
  enough = λ h. omega (arith, h);
  tight = λ h. omega (arith, h);
  aligned = omega arith;
  small = omega arith;
  overflow = λ h k. omega (arith, h, k);
}

pub BestFit-some :
    (wanted : ℕ) (blocks : List Block) (j : ℕ) (b : Block)
    → BestFit wanted blocks (some (j, b))
    → (get_elem? blocks j ≡ some b) × IsFit wanted b
BestFit-some wanted blocks _ _ (taken j b at fit least) = (at, fit)
