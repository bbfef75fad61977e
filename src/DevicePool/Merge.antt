-- ===== src/DevicePool/Merge.antt =====
-- The outer loop of merge_idle_neighbours_locked: what coalescing keeps, and that it ends.
use llm_steady_infer.Base.{
  ℕ, zero, suc, ◌+◌, ◌-◌, ◌<◌, ◌≤◌, ◌≡◌, ◌≢◌, ◌⊎◌, inl, inr, refl, subst, ap, ◌∙◌, false, some,
  List, arith, ltb, if◌then◌else◌, length, length-set, get_elem?, set, Returns, Returns-mono,
  Option-cases, Bool-cases,
}
use llm_steady_infer.DevicePool.{
  Block, size_limit, find_neighbour, merge_idle_neighbours, erase, weigh, weigh-set, weigh-erase,
  weigh-two, get_elem?-set_other, get_elem?-set_self, get_elem?-erase_above, get_elem?-erase_below,
  length-erase,
}
use llm_steady_infer.DevicePool.Measure.{
  Measure, tile, idle_part, busy_part, bytes_of, tile_split, add_size_small,
}
use llm_steady_infer.DevicePool.Neighbour.{
  IsNeighbour, Joined, Found, find_neighbour-Found, find_neighbour-none,
}

-- The bytes of every region fit in a size_t.
pub record Bounded (blocks : List Block) : Type 0 where
  pub bounded : (r : ℕ) → weigh (tile (bytes_of r)) blocks < size_limit

-- Coalescing: what is idle of every range stays so, and the blocks in use are not touched.
pub record Merged (blocks out : List Block) : Type 0 where
  pub idle_same : (m : Measure) → weigh (idle_part m) out ≡ weigh (idle_part m) blocks
  pub busy_same : (f : Block → ℕ) → weigh (busy_part f) out ≡ weigh (busy_part f) blocks

pub Merged-refl : (blocks : List Block) → Merged blocks blocks
Merged-refl blocks = record { idle_same = λ m. refl; busy_same = λ f. refl }

pub Merged-trans : {a b c : List Block} → Merged a b → Merged b c → Merged a c
Merged-trans p q = record {
  idle_same = λ m. omega (arith, p.idle_same m, q.idle_same m);
  busy_same = λ f. omega (arith, p.busy_same f, q.busy_same f);
}

pub Merged-tile :
    (m : Measure) (blocks out : List Block)
    → Merged blocks out
    → weigh (tile m) out ≡ weigh (tile m) blocks
Merged-tile m blocks out g =
    omega (arith, tile_split m blocks, tile_split m out, g.idle_same m, g.busy_same (tile m))

pub Merged-Bounded : (blocks out : List Block) → Merged blocks out → Bounded blocks → Bounded out
Merged-Bounded blocks out g b = record {
  bounded = λ r. omega (arith, Merged-tile (bytes_of r) blocks out g, b.bounded r);
}

-- No block is a neighbour of the idle one at `place`.
pub record IsSettled (blocks : List Block) (place : ℕ) : Type 0 where
  pub settled :
      (self other : Block) (k : ℕ)
      → get_elem? blocks place ≡ some self
      → get_elem? blocks k ≡ some other
      → place ≢ k
      → IsNeighbour self other
      → ⊥

-- The addresses of the first block are among those of the second, in the same region.
pub record IsWithin (self result : Block) : Type 0 where
  pub within_region : result.region ≡ self.region
  pub begins : result.address ≤ self.address
  pub ends : self.address + self.byte_size ≤ result.address + result.byte_size

IsWithin-refl : (self : Block) → IsWithin self self
IsWithin-refl self = record { within_region = refl; begins = omega arith; ends = omega arith }

IsWithin-trans : {a b c : Block} → IsWithin a b → IsWithin b c → IsWithin a c
IsWithin-trans p q = record {
  within_region = q.within_region ∙ p.within_region;
  begins = omega (arith, p.begins, q.begins);
  ends = omega (arith, p.ends, q.ends);
}

pub record Coalesced (blocks : List Block) (index : ℕ) (out : List Block) : Type 0 where
  pub merged : Merged blocks out
  pub place : ℕ
  pub result : Block
  pub stands : get_elem? out place ≡ some result
  pub idle : result.busy ≡ false
  -- The block that was at `index` has become part of it.
  pub around : (self : Block) → get_elem? blocks index ≡ some self → IsWithin self result
  pub settled : IsSettled out place
  pub progress : ((out ≡ blocks) × (place ≡ index)) ⊎ (length out < length blocks)

-- One absorption.
module _ (blocks : List Block) (index j : ℕ) (self other merged : Block)
    (at_index : get_elem? blocks index ≡ some self) (at_j : get_elem? blocks j ≡ some other)
    (ne : index ≢ j) (idle : self.busy ≡ false) (joined : Joined self other merged)
    (b : Bounded blocks) where
  sizes_small : self.byte_size + other.byte_size < size_limit
  sizes_small = ground (
    arith,
    joined.neighbour.same_region,
    b.bounded self.region,
    weigh-two (tile (bytes_of self.region)) blocks index j self other ne at_index at_j,
  )

  size_added : merged.byte_size ≡ self.byte_size + other.byte_size
  size_added =
      omega (arith, joined.size_of, add_size_small self.byte_size other.byte_size sizes_small)

  swapped : merged.byte_size ≡ other.byte_size + self.byte_size
  swapped = omega (arith, size_added)

  measure_added : (m : Measure) → tile m merged ≡ tile m self + tile m other
  measure_added m = elim joined.place_of [
    | inl before ↦
        rw (joined.region_of, before.1, swapped)
          (grind (
            arith,
            m.additive self.region other.address other.byte_size self.byte_size,
            before.0,
            joined.neighbour.same_region,
          ))
    | inr behind ↦
        rw (joined.region_of, behind.1, size_added)
          (grind (
            arith,
            m.additive self.region self.address self.byte_size other.byte_size,
            behind.0,
            joined.neighbour.same_region,
          ))
  ]

  absorbed :
      (f : Block → ℕ)
      → weigh f (erase (set blocks index merged) j) + f self + f other ≡ weigh f blocks + f merged
  absorbed f = omega (
    arith,
    weigh-set f blocks index self merged at_index,
    weigh-erase f (set blocks index merged) j other
        (get_elem?-set_other blocks index j merged ne ∙ at_j),
  )

  absorbed-Merged : Merged blocks (erase (set blocks index merged) j)
  absorbed-Merged = record {
    idle_same = λ m. ground (
      arith,
      absorbed (idle_part m),
      measure_added m,
      idle,
      joined.busy_of,
      joined.neighbour.is_idle,
    );
    busy_same =
        λ f. ground (arith, absorbed (busy_part f), idle, joined.busy_of, joined.neighbour.is_idle);
  }

  length-absorbed : suc (length (erase (set blocks index merged) j)) ≡ length blocks
  length-absorbed = omega (
    arith,
    length-set blocks index merged,
    length-erase (set blocks index merged) j other
        (get_elem?-set_other blocks index j merged ne ∙ at_j),
  )

  stands-absorbed :
      get_elem? (erase (set blocks index merged) j) (if ltb j index then index - 1 else index)
      ≡ some merged
  stands-absorbed = elim (Bool-cases (ltb j index)) [
    | inl below ↦ rw below (
        get_elem?-erase_above (set blocks index merged) (index - 1) j (ground (arith, below))
        ∙ ap (get_elem? (set blocks index merged)) (ground (arith, below))
        ∙ get_elem?-set_self blocks index self merged at_index)
    | inr above ↦ rw above (
        get_elem?-erase_below (set blocks index merged) index j (ground (arith, above, ne))
        ∙ get_elem?-set_self blocks index self merged at_index)
  ]

  self-IsWithin : IsWithin self merged
  self-IsWithin = record {
    within_region = joined.region_of;
    begins = elim joined.place_of [
      | inl before ↦ omega (arith, before.0, before.1)
      | inr behind ↦ omega (arith, behind.1)
    ];
    ends = elim joined.place_of [
      | inl before ↦ omega (arith, before.0, before.1, size_added)
      | inr behind ↦ omega (arith, behind.1, size_added)
    ];
  }

  absorb_then :
      (fuel : ℕ)
      → Returns
          (merge_idle_neighbours fuel
            (erase (set blocks index merged) j)
            (if ltb j index then index - 1 else index))
          (Coalesced (erase (set blocks index merged) j) (if ltb j index then index - 1 else index))
      → Returns
          (merge_idle_neighbours fuel
            (erase (set blocks index merged) j)
            (if ltb j index then index - 1 else index))
          (Coalesced blocks index)
  absorb_then fuel r =
      Returns-mono
        (Coalesced (erase (set blocks index merged) j) (if ltb j index then index - 1 else index))
        (Coalesced blocks index)
        (merge_idle_neighbours fuel (erase (set blocks index merged) j)
          (if ltb j index then index - 1 else index))
        r
        (λ out c. record {
          merged = Merged-trans absorbed-Merged c.merged;
          place = c.place;
          result = c.result;
          stands = c.stands;
          idle = c.idle;
          around = λ s at.
              subst (λ x. IsWithin x c.result) (ground (arith, at, at_index))
                (IsWithin-trans self-IsWithin (c.around merged stands-absorbed));
          settled = c.settled;
          progress = inr (elim c.progress [
            | inl same ↦ omega (arith, ap length same.0, length-absorbed)
            | inr less ↦ omega (arith, less, length-absorbed)
          ]);
        })

Found-at :
    (self : Block) (index : ℕ) (blocks : List Block) (j : ℕ) (merged : Block)
    (f : Found self index 0 blocks j merged)
    → get_elem? blocks j ≡ some f.other
Found-at self index blocks j merged f =
    ap (get_elem? blocks) (omega (arith, f.at_offset)) ∙ f.stands

absorb-Found :
    (fuel : ℕ) (blocks : List Block) (index j : ℕ) (self merged : Block)
    → length blocks < suc fuel
    → get_elem? blocks index ≡ some self
    → self.busy ≡ false
    → Bounded blocks
    → Found self index 0 blocks j merged
    → ((next : List Block) (i : ℕ) (block : Block)
        → length next < fuel
        → get_elem? next i ≡ some block
        → block.busy ≡ false
        → Bounded next
        → Returns (merge_idle_neighbours fuel next i) (Coalesced next i))
    → Returns
        (merge_idle_neighbours fuel
          (erase (set blocks index merged) j)
          (if ltb j index then index - 1 else index))
        (Coalesced blocks index)
absorb-Found fuel blocks index j self merged enough at idle b f next_pass =
    let at_j = Found-at self index blocks j merged f in
    let gone =
      absorbed-Merged blocks index j self f.other merged at at_j f.elsewhere idle f.joined b in
    absorb_then blocks index j self f.other merged at at_j f.elsewhere idle f.joined b fuel (
      next_pass (erase (set blocks index merged) j) (if ltb j index then index - 1 else index)
        merged
        (omega (
          arith,
          enough,
          length-absorbed blocks index j self f.other merged at at_j f.elsewhere idle f.joined b,
        ))
        (stands-absorbed blocks index j self f.other merged at at_j f.elsewhere idle f.joined b)
        (f.joined.busy_of ∙ idle)
        (Merged-Bounded blocks (erase (set blocks index merged) j) gone b))

pub merge_idle_neighbours-Coalesced :
    (fuel : ℕ) (blocks : List Block) (index : ℕ) (self : Block)
    → length blocks < fuel
    → get_elem? blocks index ≡ some self
    → self.busy ≡ false
    → Bounded blocks
    → Returns (merge_idle_neighbours fuel blocks index) (Coalesced blocks index)
unfolding merge_idle_neighbours
merge_idle_neighbours-Coalesced zero blocks index self enough at idle b =
    absurd (omega (arith, enough))
merge_idle_neighbours-Coalesced (suc fuel) blocks index self enough at idle b =
    elim (Option-cases (find_neighbour self index 0 blocks)) [
      | inl nothing ↦
          rw (at, nothing, merge_idle_neighbours)
            (record {
              merged = Merged-refl blocks;
              place = index;
              result = self;
              stands = at;
              idle = idle;
              around = λ s at'.
                  subst (λ x. IsWithin x self) (ground (arith, at, at')) (IsWithin-refl self);
              settled = record {
                settled = λ self' other k at' stands ne n.
                    find_neighbour-none self index 0 blocks k other nothing stands
                      (λ e. ne (omega (arith, e)))
                      (subst (λ x. IsNeighbour x other) (ground (arith, at, at')) n);
              };
              progress = inl (refl, refl);
            })
      | inr ((j, merged), found) ↦
          rw (at, found, merge_idle_neighbours)
            (absorb-Found fuel blocks index j self merged enough at idle b
              (find_neighbour-Found self index 0 blocks j merged found)
              (merge_idle_neighbours-Coalesced fuel))
    ]
