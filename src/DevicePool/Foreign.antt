-- ===== src/DevicePool/Foreign.antt =====
-- A pointer of no block is the base of no region.
use llm_steady_infer.Base.{
  ℕ, ◌-◌, ◌≤◌, ◌<◌, ◌≡◌, ◌≢◌, inl, inr, refl, some, List, [], ◌∷◌, arith, ◌==◌, get_elem?,
  Bool-cases, All, ==_iff,
}
use llm_steady_infer.DevicePool.{Block, DevicePool, weigh, weigh_witness, weigh-member}
use llm_steady_infer.DevicePool.Measure.{tile, region_tile, covers_of}
use llm_steady_infer.DevicePool.Invariant.{PoolInv, IsOwned, is_key}

base_covered :
    (al : ℕ → ℕ) (r : ℕ) (regions : List (ℕ × ℕ))
    → All (IsOwned al) regions
    → weigh (is_key r) regions ≤ weigh (region_tile (covers_of r r)) regions
base_covered al r [] owned = omega arith
base_covered al r (e ∷ regions) owned = ground (arith, owned.0.1, base_covered al r regions owned.1)

below_not_covered :
    (r : ℕ) (regions : List (ℕ × ℕ)) → 0 < r → weigh (region_tile (covers_of r (r - 1))) regions ≡ 0
below_not_covered r [] positive = refl
below_not_covered r (e ∷ regions) positive =
    ground (arith, positive, below_not_covered r regions positive)

module _ (al : ℕ → ℕ) (pool : DevicePool) (ptr : ℕ) (inv : PoolInv al pool)
    (foreign : (k : ℕ) (b : Block) → get_elem? pool.blocks k ≡ some b → b.address ≢ ptr) where
  at_base :
      (k : ℕ) (b : Block) → get_elem? pool.blocks k ≡ some b → 0 < tile (covers_of ptr ptr) b → ⊥
  at_base k b at covered = foreign k b at (
      ground (
        arith,
        covered,
        inv.tiled (covers_of ptr (ptr - 1)),
        weigh-member (tile (covers_of ptr (ptr - 1))) pool.blocks k b at,
        below_not_covered ptr pool.regions,
      ))

  pub foreign_region : weigh (is_key ptr) pool.regions ≡ 0
  foreign_region = elim (Bool-cases (weigh (is_key ptr) pool.regions == 0)) [
    | inl absent ↦ (==_iff (weigh (is_key ptr) pool.regions) 0).0 absent
    | inr there ↦
        let (k, b, at, covered) = weigh_witness (tile (covers_of ptr ptr)) pool.blocks (
          ground (
            arith,
            there,
            inv.tiled (covers_of ptr ptr),
            base_covered al ptr pool.regions inv.sound.owned,
          )) in
        absurd (at_base k b at covered)
  ]
