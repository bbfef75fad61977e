-- ===== src/DevicePool/Release.antt =====
-- release_locked: a pointer that comes back.
use llm_steady_infer.Base.{
  ℕ, zero, suc, ◌+◌, ◌≡◌, ◌≢◌, inl, inr, refl, ap, ◌∙◌, Bool, true, false, none, some, List, [],
  ◌∷◌, arith, ◌==◌, get_elem?, set, Bool-cases, Option-cases, length, Returns, Returns-bind, ◌>>=◌,
}
use llm_steady_infer.DevicePool.{
  Block, DevicePool, add_size, release_locked, find_block, merge_at, weigh, weigh-set,
  get_elem?-set_self,
}
use llm_steady_infer.DevicePool.Measure.{
  Measure, tile, idle_part, busy_part, bytes, bytes_of, add_size-mod,
}
use llm_steady_infer.DevicePool.Merge.{
  Bounded, Merged, Merged-tile, Coalesced, IsSettled, IsWithin, merge_idle_neighbours-Coalesced,
}
use llm_steady_infer.DevicePool.Invariant.{PoolInv, PoolInv-Bounded}

-- What release_locked does to a pool, with its answer whether the pool knows the pointer.
pub data Released (allocated : ℕ → ℕ) (ptr : ℕ) (pool : DevicePool)
    : Bool × DevicePool → Type 0 where
  foreign :
      ((k : ℕ) (b : Block) → get_elem? pool.blocks k ≡ some b → b.address ≢ ptr)
      → Released allocated ptr pool (false, pool)
  double_release :
      (i : ℕ) (b : Block)
      → get_elem? pool.blocks i ≡ some b
      → b.address ≡ ptr
      → b.busy ≡ false
      → Released allocated ptr pool (true, pool)
  freed :
      (i place : ℕ) (b result : Block) (out : DevicePool)
      → get_elem? pool.blocks i ≡ some b
      → b.address ≡ ptr
      → b.busy ≡ true
      → PoolInv allocated out
      → out.regions ≡ pool.regions
      → ((m : Measure)
          → weigh (busy_part (tile m)) out.blocks + tile m b
            ≡ weigh (busy_part (tile m)) pool.blocks)
      → get_elem? out.blocks place ≡ some result
      → result.busy ≡ false
      → IsWithin b result
      → IsSettled out.blocks place
      → Released allocated ptr pool (true, out)

find_block-some :
    (ptr j : ℕ) (blocks : List Block) (i : ℕ) (b : Block)
    → find_block ptr j blocks ≡ some (i, b)
    → (k : ℕ) × (i ≡ j + k) × (get_elem? blocks k ≡ some b) × (b.address ≡ ptr)
unfolding find_block
find_block-some ptr j [] i b h = absurd (ground (arith, h))
find_block-some ptr j (c ∷ blocks) i b h = elim (Bool-cases (c.address == ptr)) [
  | inl hit ↦ (0, ground (arith, h, hit), ground (arith, h, hit), ground (arith, h, hit))
  | inr miss ↦
      let (k, place, stands, here) =
        find_block-some ptr (suc j) blocks i b (ground (arith, h, miss)) in
      (suc k, omega (arith, place), stands, here)
]

find_block-at :
    (ptr : ℕ) (blocks : List Block) (i : ℕ) (b : Block)
    → find_block ptr 0 blocks ≡ some (i, b)
    → get_elem? blocks i ≡ some b
find_block-at ptr blocks i b h =
    let (k, place, stands, here) = find_block-some ptr 0 blocks i b h in
    ap (get_elem? blocks) (omega (arith, place)) ∙ stands

find_block-none :
    (ptr j : ℕ) (blocks : List Block) (k : ℕ) (b : Block)
    → find_block ptr j blocks ≡ none
    → get_elem? blocks k ≡ some b
    → b.address ≢ ptr
unfolding find_block
find_block-none ptr j [] k b h stands same = ground (arith, stands)
find_block-none ptr j (c ∷ blocks) zero b h stands same = ground (arith, h, stands, same)
find_block-none ptr j (c ∷ blocks) (suc k) b h stands same =
    find_block-none ptr (suc j) blocks k b (ground (arith, h)) stands same

module _ (allocated : ℕ → ℕ) (pool : DevicePool) (i : ℕ) (b : Block) (inv : PoolInv allocated pool)
    (at : get_elem? pool.blocks i ≡ some b) (busy : b.busy ≡ true) where
  abbrev idled : Block
  idled = record b { busy = false }

  abbrev marked : List Block
  marked = set pool.blocks i idled

  marked-tile : (m : Measure) → weigh (tile m) marked ≡ weigh (tile m) pool.blocks
  marked-tile m = omega (arith, weigh-set (tile m) pool.blocks i b idled at)

  marked-Bounded : Bounded marked
  marked-Bounded = record {
    bounded = λ r.
        omega (arith, marked-tile (bytes_of r), (PoolInv-Bounded allocated pool inv).bounded r);
  }

  abbrev released : List Block → DevicePool
  released blocks = record pool {
    blocks = blocks;
    idle_bytes = add_size pool.idle_bytes b.byte_size;
  }

  released-PoolInv : (out : List Block) → Merged marked out → PoolInv allocated (released out)
  released-PoolInv out g = record {
    sound = inv.sound;
    tiled = λ m. omega (arith, Merged-tile m marked out g, marked-tile m, inv.tiled m);
    idle_ledger = grind (
      arith,
      inv.idle_ledger,
      busy,
      g.idle_same bytes,
      weigh-set (idle_part bytes) pool.blocks i b idled at,
      add_size-mod (weigh (idle_part bytes) pool.blocks) b.byte_size,
    );
    reserved_ledger = inv.reserved_ledger;
  }

  released_in_use :
      (out : List Block)
      → Merged marked out
      → (m : Measure)
      → weigh (busy_part (tile m)) out + tile m b ≡ weigh (busy_part (tile m)) pool.blocks
  released_in_use out g m =
      ground
        (arith, busy, g.busy_same (tile m), weigh-set (busy_part (tile m)) pool.blocks i b idled at)

  freed-IsWithin : (result : Block) → IsWithin idled result → IsWithin b result
  freed-IsWithin result w = record {
    within_region = w.within_region;
    begins = w.begins;
    ends = w.ends;
  }

  freed-Released :
      (ptr : ℕ)
      → b.address ≡ ptr
      → Returns
          (merge_at i marked >>= λ blocks. some (true, released blocks))
          (Released allocated ptr pool)
  unfolding merge_at
  freed-Released ptr here =
      Returns-bind (Coalesced marked i) (Released allocated ptr pool) (merge_at i marked)
        (λ blocks. some (true, released blocks))
        (merge_idle_neighbours-Coalesced (suc (length marked)) marked i idled (omega arith)
          (get_elem?-set_self pool.blocks i b idled at) refl marked-Bounded)
        (λ out c.
          freed i c.place b c.result (released out) at here busy (released-PoolInv out c.merged)
            refl (released_in_use out c.merged) c.stands c.idle
            (freed-IsWithin c.result (c.around idled (get_elem?-set_self pool.blocks i b idled at)))
            c.settled)

-- release_locked returns on a pool that keeps the invariant, and does what Released lists: a pointer
-- of no block is left to others; a block that is idle already is left alone, the pool unchanged; a
-- block in use becomes part of an idle block that has no idle neighbour, no other buffer is touched,
-- and the invariant holds.
pub release_locked-Released :
    (allocated : ℕ → ℕ) (ptr : ℕ) (pool : DevicePool)
    → PoolInv allocated pool
    → Returns (release_locked ptr pool) (Released allocated ptr pool)
unfolding release_locked
release_locked-Released allocated ptr pool inv =
    elim (Option-cases (find_block ptr 0 pool.blocks)) [
      | inl missing ↦
          rw (missing, release_locked)
            (foreign (λ k b stands. find_block-none ptr 0 pool.blocks k b missing stands))
      | inr ((i, b), found) ↦
          let known = find_block-some ptr 0 pool.blocks i b found in
          let at = find_block-at ptr pool.blocks i b found in
          elim (Bool-cases b.busy) [
            | inl busy ↦
                rw (found, busy, release_locked)
                  (freed-Released allocated pool i b inv at busy ptr known.3)
            | inr idle ↦ rw (found, idle, release_locked) (double_release i b at known.3 idle)
          ]
    ]
