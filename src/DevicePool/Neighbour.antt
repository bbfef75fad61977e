-- ===== src/DevicePool/Neighbour.antt =====
-- The inner loop of merge_idle_neighbours_locked: what it finds and what it misses.
use llm_steady_infer.Base.{
  ℕ, zero, suc, ◌+◌, ◌≡◌, ◌≢◌, ◌⊎◌, inl, inr, refl, false, not, ◌||◌, none, some, List, [], ◌∷◌,
  arith, ◌==◌, get_elem?, Bool-cases,
}
use llm_steady_infer.DevicePool.{Block, add_size, find_neighbour}

-- An idle block of the region of `self` that begins where `self` ends or ends where it begins.
pub record IsNeighbour (self other : Block) : Type 0 where
  pub is_idle : other.busy ≡ false
  pub same_region : other.region ≡ self.region
  pub adjacent :
      (other.address + other.byte_size ≡ self.address)
      ⊎ (self.address + self.byte_size ≡ other.address)

-- `merged` takes the place of the two.
pub record Joined (self other merged : Block) : Type 0 where
  pub neighbour : IsNeighbour self other
  pub region_of : merged.region ≡ self.region
  pub busy_of : merged.busy ≡ self.busy
  pub size_of : merged.byte_size ≡ add_size self.byte_size other.byte_size
  pub place_of :
      ((other.address + other.byte_size ≡ self.address) × (merged.address ≡ other.address))
      ⊎ ((self.address + self.byte_size ≡ other.address) × (merged.address ≡ self.address))

pub record Found (self : Block) (index j0 : ℕ) (blocks : List Block) (j : ℕ) (merged : Block)
    : Type 0 where
  pub offset : ℕ
  pub other : Block
  pub at_offset : j ≡ j0 + offset
  pub stands : get_elem? blocks offset ≡ some other
  pub elsewhere : index ≢ j
  pub joined : Joined self other merged

Found-later :
    (self : Block) (index j0 : ℕ) (b : Block) (blocks : List Block) (j : ℕ) (merged : Block)
    → Found self index (suc j0) blocks j merged
    → Found self index j0 (b ∷ blocks) j merged
Found-later self index j0 b blocks j merged f = record {
  offset = suc f.offset;
  other = f.other;
  at_offset = omega (arith, f.at_offset);
  stands = f.stands;
  elsewhere = f.elsewhere;
  joined = f.joined;
}

module _ (self : Block) (index : ℕ) where
  pub find_neighbour-Found :
      (j0 : ℕ) (blocks : List Block) (j : ℕ) (merged : Block)
      → find_neighbour self index j0 blocks ≡ some (j, merged)
      → Found self index j0 blocks j merged
  unfolding find_neighbour
  find_neighbour-Found j0 [] j merged h = ground (arith, h)
  find_neighbour-Found j0 (other ∷ blocks) j merged h =
      elim (Bool-cases (j0 == index || other.busy || not (other.region == self.region))) [
        | inl skip ↦
            Found-later self index j0 other blocks j merged
              (find_neighbour-Found (suc j0) blocks j merged (ground (arith, h, skip)))
        | inr candidate ↦ elim (Bool-cases (other.address + other.byte_size == self.address)) [
          | inl before ↦ record {
            offset = 0;
            other = other;
            at_offset = ground (arith, h, candidate, before);
            stands = refl;
            elsewhere = ground (arith, h, candidate, before);
            joined = record {
              neighbour = record {
                is_idle = ground (arith, h, candidate, before);
                same_region = ground (arith, h, candidate, before);
                adjacent = inl (ground (arith, h, candidate, before));
              };
              region_of = ground (arith, h, candidate, before);
              busy_of = ground (arith, h, candidate, before);
              size_of = ground (arith, h, candidate, before);
              place_of =
                  inl (ground (arith, h, candidate, before), ground (arith, h, candidate, before));
            };
          }
          | inr apart ↦ elim (Bool-cases (self.address + self.byte_size == other.address)) [
            | inl behind ↦ record {
              offset = 0;
              other = other;
              at_offset = ground (arith, h, candidate, apart, behind);
              stands = refl;
              elsewhere = ground (arith, h, candidate, apart, behind);
              joined = record {
                neighbour = record {
                  is_idle = ground (arith, h, candidate, apart, behind);
                  same_region = ground (arith, h, candidate, apart, behind);
                  adjacent = inr (ground (arith, h, candidate, apart, behind));
                };
                region_of = ground (arith, h, candidate, apart, behind);
                busy_of = ground (arith, h, candidate, apart, behind);
                size_of = ground (arith, h, candidate, apart, behind);
                place_of = inr (
                  ground (arith, h, candidate, apart, behind),
                  ground (arith, h, candidate, apart, behind),
                );
              };
            }
            | inr neither ↦ Found-later self index j0 other blocks j merged (
                find_neighbour-Found (suc j0) blocks j merged
                  (ground (arith, h, candidate, apart, neither)))
          ]
        ]
      ]

  pub find_neighbour-none :
      (j0 : ℕ) (blocks : List Block) (k : ℕ) (other : Block)
      → find_neighbour self index j0 blocks ≡ none
      → get_elem? blocks k ≡ some other
      → index ≢ j0 + k
      → IsNeighbour self other
      → ⊥
  unfolding find_neighbour
  find_neighbour-none j0 [] k other h stands ne n = ground (arith, stands)
  find_neighbour-none j0 (b ∷ blocks) zero other h stands ne n =
      ground (arith, h, stands, ne, n.is_idle, n.same_region, n.adjacent)
  find_neighbour-none j0 (b ∷ blocks) (suc k) other h stands ne n =
      find_neighbour-none (suc j0) blocks k other (ground (arith, h)) stands
        (λ e. ne (omega (arith, e))) n
