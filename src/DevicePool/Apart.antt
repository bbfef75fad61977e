-- ===== src/DevicePool/Apart.antt =====
-- free_regions_locked after merge_all_idle_locked: no two idle blocks of a region touch.
use mathlib.Core.List.{append_assoc, append-nil}
use llm_steady_infer.Base.{
  ℕ, zero, suc, ◌<◌, ◌≡◌, ◌≢◌, inl, inr, refl, sym, subst, false, some, List, [], ◌∷◌, ◌++◌, arith,
  get_elem?, length, Bool-cases, All,
}
use llm_steady_infer.DevicePool.{Block}
use llm_steady_infer.DevicePool.Driver.{Driver}
use llm_steady_infer.DevicePool.Locked.{Flushing, whole_region_idle, flush_block, flush_blocks}
use llm_steady_infer.DevicePool.Neighbour.{IsNeighbour}
use llm_steady_infer.DevicePool.MergeAll.{SettledBelow}

-- No idle block has an idle neighbour further back in the list.
abbrev pub AllApart : List Block → Type 0
AllApart [] = Unit
AllApart (b ∷ bs) = All (λ c. b.busy ≡ false → IsNeighbour b c → ⊥) bs × AllApart bs

All-of_get :
    (P : Block → Type 0) (xs : List Block)
    → ((k : ℕ) (x : Block) → get_elem? xs k ≡ some x → P x)
    → All P xs
All-of_get P [] h = tt
All-of_get P (x ∷ xs) h = (h 0 x refl, All-of_get P xs (λ k y at. h (suc k) y at))

AllApart-of_get :
    (xs : List Block)
    → ((i k : ℕ) (a b : Block)
        → get_elem? xs i ≡ some a
        → get_elem? xs k ≡ some b
        → i ≢ k
        → a.busy ≡ false
        → IsNeighbour a b
        → ⊥)
    → AllApart xs
AllApart-of_get [] h = tt
AllApart-of_get (x ∷ xs) h = (
  All-of_get (λ c. x.busy ≡ false → IsNeighbour x c → ⊥) xs
      (λ k c at idle n. h 0 (suc k) x c refl at (λ e. omega (arith, e)) idle n),
  AllApart-of_get xs (λ i k a b at_a at_b ne idle n.
      h (suc i) (suc k) a b at_a at_b (λ e. ne (omega (arith, e))) idle n),
)

get_elem?-some-lt : (xs : List Block) (i : ℕ) (a : Block) → get_elem? xs i ≡ some a → i < length xs
get_elem?-some-lt [] i a h = absurd (ground (arith, h))
get_elem?-some-lt (x ∷ xs) zero a h = omega arith
get_elem?-some-lt (x ∷ xs) (suc i) a h = omega (arith, get_elem?-some-lt xs i a h)

pub SettledBelow-AllApart :
    (blocks : List Block) → SettledBelow (length blocks) blocks → AllApart blocks
SettledBelow-AllApart blocks s = AllApart-of_get blocks (λ i k a b at_a at_b ne idle n.
    (s.all_settled i a (get_elem?-some-lt blocks i a at_a) at_a idle).settled a b k at_a at_b ne n)

All-drop :
    (P : Block → Type 0) (xs : List Block) (y : Block) (ys : List Block)
    → All P (xs ++ (y ∷ ys))
    → All P (xs ++ ys)
All-drop P [] y ys h = h.1
All-drop P (x ∷ xs) y ys h = (h.0, All-drop P xs y ys h.1)

AllApart-drop :
    (xs : List Block) (y : Block) (ys : List Block)
    → AllApart (xs ++ (y ∷ ys))
    → AllApart (xs ++ ys)
AllApart-drop [] y ys h = h.1
AllApart-drop (x ∷ xs) y ys h =
    (All-drop (λ c. x.busy ≡ false → IsNeighbour x c → ⊥) xs y ys h.0, AllApart-drop xs y ys h.1)

module _ {W : Type 0} (d : Driver W) where
  flush_block-AllApart :
      (block : Block) (rest : List Block) (st : Flushing W)
      → AllApart (st.kept ++ (block ∷ rest))
      → AllApart ((flush_block d block st).kept ++ rest)
  unfolding flush_block
  flush_block-AllApart block rest st h =
      let stays = subst AllApart (sym (append_assoc st.kept (block ∷ []) rest)) h in
      elim (Bool-cases (whole_region_idle st.regions block)) [
        | inl whole ↦ elim (Bool-cases (d.free block.address st.world).0) [
          | inl free_ok ↦ rw (whole, free_ok, flush_block) (AllApart-drop st.kept block rest h)
          | inr failed ↦ rw (whole, failed, flush_block) stays
        ]
        | inr used ↦ rw (used, flush_block) stays
      ]

  pub flush_blocks-AllApart :
      (blocks : List Block) (st : Flushing W)
      → AllApart (st.kept ++ blocks)
      → AllApart (flush_blocks d blocks st).kept
  unfolding flush_blocks
  flush_blocks-AllApart [] st h = subst AllApart (append-nil st.kept) h
  flush_blocks-AllApart (block ∷ blocks) st h =
      flush_blocks-AllApart blocks (flush_block d block st) (flush_block-AllApart block blocks st h)
