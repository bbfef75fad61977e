-- ===== src/DevicePool/MergeAll.antt =====
-- merge_all_idle_locked: it ends, and then no two idle blocks of a region touch.
use llm_steady_infer.Base.{
  ℕ, zero, suc, ◌+◌, ◌≤◌, ◌<◌, ◌≡◌, inl, inr, sym, ap, ◌∙◌, subst, Bool, true, false, none, some,
  List, [], ◌∷◌, arith, ◌==◌, get_elem?, Bool-cases, Option-cases, length, Returns, Returns-bind,
  Returns-mono, ==_iff, eq→==,
}
use llm_steady_infer.DevicePool.{Block, merge_at, merge_pass, merge_all_idle}
use llm_steady_infer.DevicePool.Merge.{
  Bounded, Merged, Merged-refl, Merged-trans, Merged-Bounded, Coalesced, IsSettled,
  merge_idle_neighbours-Coalesced,
}

-- No idle block below `n` has an idle neighbour.
pub record SettledBelow (n : ℕ) (blocks : List Block) : Type 0 where
  pub all_settled :
      (place : ℕ) (self : Block)
      → place < n
      → get_elem? blocks place ≡ some self
      → self.busy ≡ false
      → IsSettled blocks place

data Passed (blocks : List Block) : Bool × List Block → Type 0 where
  quiet : SettledBelow (length blocks) blocks → Passed blocks (false, blocks)
  again :
      (out : List Block)
      → Merged blocks out
      → length out < length blocks
      → Passed blocks (true, out)

SettledBelow-suc :
    (i : ℕ) (blocks : List Block)
    → SettledBelow i blocks
    → ((self : Block) → get_elem? blocks i ≡ some self → self.busy ≡ false → IsSettled blocks i)
    → SettledBelow (suc i) blocks
SettledBelow-suc i blocks below here = record {
  all_settled = λ place self bound at idle. elim (Bool-cases (place == i)) [
    | inl same ↦
        let e = (==_iff place i).0 same in
        subst (IsSettled blocks) (sym e) (here self (ap (get_elem? blocks) (sym e) ∙ at) idle)
    | inr differ ↦ below.all_settled place self (ground (arith, bound, differ)) at idle
  ];
}

get_elem?-lt : {A : Type 0} (xs : List A) (i : ℕ) → get_elem? xs i ≡ none → length xs ≤ i
get_elem?-lt [] i h = omega arith
get_elem?-lt (x ∷ xs) zero h = ground (arith, h)
get_elem?-lt (x ∷ xs) (suc i) h = omega (arith, get_elem?-lt xs i h)

differ : (m n : ℕ) → m < n → (m == n) ≡ false
differ m n h = ground (arith, h)

module _ (blocks : List Block) (b : Bounded blocks) where
  -- The pass goes on, or starts again, after place `i`.
  go_on :
      (n i : ℕ) (out : List Block)
      → SettledBelow i blocks
      → Coalesced blocks i out
      → (SettledBelow (suc i) blocks → Returns (merge_pass n (suc i) blocks) (Passed blocks))
      → Returns
          (elim (length out == length blocks) [
            | true ↦ merge_pass n (suc i) out
            | false ↦ some (true, out)
          ])
          (Passed blocks)
  go_on n i out below c next = elim c.progress [
    | inl (same, place) ↦
        rw (eq→== (length out) (length blocks) (ap length same), same)
          (next (
            SettledBelow-suc i blocks below (λ self at idle.
              subst (λ x. IsSettled blocks x) place
                (subst (λ x. IsSettled x c.place) same c.settled))))
    | inr less ↦ rw (differ (length out) (length blocks) less) (again out c.merged less)
  ]

  merge_pass-Passed :
      (n i : ℕ)
      → i + n ≡ length blocks
      → SettledBelow i blocks
      → Returns (merge_pass n i blocks) (Passed blocks)
  unfolding merge_pass merge_at
  merge_pass-Passed zero i total below =
      quiet (subst (λ x. SettledBelow x blocks) (omega (arith, total)) below)
  merge_pass-Passed (suc n) i total below = elim (Option-cases (get_elem? blocks i)) [
    | inl missing ↦ absurd (omega (arith, total, get_elem?-lt blocks i missing))
    | inr (block, at) ↦ elim (Bool-cases block.busy) [
      | inl busy ↦
          rw (at, busy, merge_pass)
            (merge_pass-Passed n (suc i) (omega (arith, total)) (
              SettledBelow-suc i blocks below
                (λ self at' idle. absurd (ground (arith, busy, idle, at, at')))))
      | inr idle ↦
          rw (at, idle, merge_pass)
            (Returns-bind (Coalesced blocks i) (Passed blocks) (merge_at i blocks) _
              (merge_idle_neighbours-Coalesced (suc (length blocks)) blocks i block (omega arith) at
                idle b)
              (λ out c. go_on n i out below c (merge_pass-Passed n (suc i) (omega (arith, total)))))
    ]
  ]

next_pass :
    (fuel : ℕ) (blocks : List Block) (pass : Bool × List Block)
    → ((out : List Block)
        → Merged blocks out
        → length out < length blocks
        → Returns (merge_all_idle fuel out) (λ o. Merged blocks o × SettledBelow (length o) o))
    → Passed blocks pass
    → Returns
        (elim pass.0 [ true ↦ merge_all_idle fuel pass.1 | false ↦ some pass.1 ])
        (λ out. Merged blocks out × SettledBelow (length out) out)
next_pass fuel blocks _ rest (quiet below) = (Merged-refl blocks, below)
next_pass fuel blocks _ rest (again out g less) = rest out g less

-- merge_all_idle_locked returns, with more fuel than there are blocks, on a pool whose regions fit in
-- a size_t: the idle bytes of every range of addresses and the blocks in use are the same, and
-- afterwards no idle block has an idle neighbour.
pub merge_all_idle-Merged :
    (fuel : ℕ) (blocks : List Block)
    → length blocks < fuel
    → Bounded blocks
    → Returns
        (merge_all_idle fuel blocks)
        (λ out. Merged blocks out × SettledBelow (length out) out)
unfolding merge_all_idle
merge_all_idle-Merged zero blocks enough b = absurd (omega (arith, enough))
merge_all_idle-Merged (suc fuel) blocks enough b =
    Returns-bind (Passed blocks) (λ out. Merged blocks out × SettledBelow (length out) out)
      (merge_pass (length blocks) 0 blocks) _
      (merge_pass-Passed blocks b (length blocks) 0 (omega arith)
        (record { all_settled = λ place self bound. absurd (omega (arith, bound)) }))
      (λ pass p.
        next_pass fuel blocks pass
          (λ out g less.
            Returns-mono (λ o. Merged out o × SettledBelow (length o) o)
              (λ o. Merged blocks o × SettledBelow (length o) o) (merge_all_idle fuel out)
              (merge_all_idle-Merged fuel out (omega (arith, less, enough))
                (Merged-Bounded blocks out g b))
              (λ o h. (Merged-trans g h.0, h.1)))
          p)
