-- ===== src/DevicePool.antt =====
-- source/base/alloc_cu.cpp, include/base/alloc.h: the state of the device memory pool.
-- A pointer is a number and 0 is nullptr; the CUDA runtime is a parameter, `Driver`, over the type
-- of its own states. A size_t wraps around at `size_limit`; `none` is an access out of range.
mod Weigh
pub mod Measure
pub mod Merge
pub mod Driver
pub mod Locked
pub mod Neighbour
pub mod Waterline
pub mod ReleaseAny
pub mod Drained
pub mod Apart
pub mod FreeIdle
pub mod Overlap
pub mod Bump
pub mod Examples
pub mod Foreign
pub mod Operations
pub mod Across
pub mod MergeAll
pub mod Growing
pub mod Allocation
pub mod Reclaim
pub mod Release
pub mod HandOut
pub mod Invariant
pub mod Fit
pub mod Allocator
unfoldable pub use Weigh.*
use llm_steady_infer.Base.{
  ℕ, zero, suc, ◌+◌, ◌-◌, ◌*◌, ◌/◌, ◌%◌, Bool, true, false, not, ◌&&◌, ◌||◌, Option, none, some,
  List, [], ◌∷◌, ◌++◌, ltb, leb, ◌==◌, if◌then◌else◌, length, get_elem?, set, ◌>>=◌,
}

pub record Block : Type 0 where
  pub address : ℕ
  pub byte_size : ℕ
  pub busy : Bool
  pub region : ℕ

pub record DevicePool : Type 0 where
  pub blocks : List Block
  pub regions : List (ℕ × ℕ)
  pub idle_bytes : ℕ
  pub reserved_bytes : ℕ
  pub flush_threshold : ℕ

-- 2 ^ 64
abbrev pub size_limit : ℕ
size_limit = 18446744073709551616

abbrev pub k_alignment : ℕ
k_alignment = 256

abbrev pub k_min_split_bytes : ℕ
k_min_split_bytes = k_alignment

abbrev pub k_min_idle_flush_bytes : ℕ
k_min_idle_flush_bytes = 1024 * 1024 * 1024

-- += and -= on a size_t.
abbrev pub add_size : ℕ → ℕ → ℕ
add_size a b = (a + b) % size_limit

abbrev pub sub_size : ℕ → ℕ → ℕ
sub_size a b = (a + (size_limit - b % size_limit)) % size_limit

unfoldable pub round_up : ℕ → ℕ → ℕ
round_up value alignment = (add_size value (alignment - 1) / alignment * alignment) % size_limit

-- The loop of allocate_locked that looks for the smallest idle block that is large enough: `best`
-- is the one so far, with its place.
unfoldable pub best_fit : ℕ → ℕ → Option (ℕ × Block) → List Block → Option (ℕ × Block)
best_fit wanted i best [] = best
best_fit wanted i none (block ∷ blocks) =
    best_fit wanted (suc i)
      (if block.busy || ltb block.byte_size wanted then none else some (i, block)) blocks
best_fit wanted i (some best) (block ∷ blocks) =
    best_fit wanted (suc i)
      (if block.busy || ltb block.byte_size wanted
        then some best
        else if ltb block.byte_size best.1.byte_size
        then some (i, block)
        else some best)
      blocks

-- The hit of allocate_locked: the block `best` at place `i` is handed out, its tail split off.
unfoldable pub hand_out : ℕ → ℕ → Block → DevicePool → DevicePool
hand_out wanted i best pool =
    if leb k_min_split_bytes (best.byte_size - wanted)
    then record pool {
      blocks =
          set pool.blocks i (record best { byte_size = wanted; busy = true })
          ++ (record {
            address = best.address + wanted;
            byte_size = best.byte_size - wanted;
            busy = false;
            region = best.region;
          }
              ∷ []);
      idle_bytes = sub_size pool.idle_bytes wanted;
    }
    else record pool {
      blocks = set pool.blocks i (record best { busy = true });
      idle_bytes = sub_size pool.idle_bytes best.byte_size;
    }

-- The inner loop of merge_idle_neighbours_locked: the first neighbour of `self`, which stands at
-- `index`, and the block that the two make.
unfoldable pub find_neighbour : Block → ℕ → ℕ → List Block → Option (ℕ × Block)
find_neighbour self index j [] = none
find_neighbour self index j (other ∷ blocks) =
    let next = find_neighbour self index (suc j) blocks in
    if j == index || other.busy || not (other.region == self.region)
    then next
    else if other.address + other.byte_size == self.address
    then some (
      j,
      record self { address = other.address; byte_size = add_size self.byte_size other.byte_size },
    )
    else if self.address + self.byte_size == other.address
    then some (j, record self { byte_size = add_size self.byte_size other.byte_size })
    else next

-- The outer loop of merge_idle_neighbours_locked, on fuel.
unfoldable pub merge_idle_neighbours : ℕ → List Block → ℕ → Option (List Block)
merge_idle_neighbours zero blocks index = none
merge_idle_neighbours (suc fuel) blocks index = elim (get_elem? blocks index) [
  | none ↦ none
  | some self ↦ elim (find_neighbour self index 0 blocks) [
    | none ↦ some blocks
    | some (j, merged) ↦
        merge_idle_neighbours fuel (erase (set blocks index merged) j)
          (if ltb j index then index - 1 else index)
  ]
]

-- Every pass but the last takes a block away, so one more pass than blocks is enough.
unfoldable pub merge_at : ℕ → List Block → Option (List Block)
merge_at index blocks = merge_idle_neighbours (suc (length blocks)) blocks index

-- The inner loop of merge_all_idle_locked, with `n` places left: whether a pass merged.
unfoldable pub merge_pass : ℕ → ℕ → List Block → Option (Bool × List Block)
merge_pass zero i blocks = some (false, blocks)
merge_pass (suc n) i blocks = elim (get_elem? blocks i) [
  | none ↦ none
  | some block ↦ elim block.busy [
    | true ↦ merge_pass n (suc i) blocks
    | false ↦ merge_at i blocks >>= λ out. elim (length out == length blocks) [
      | true ↦ merge_pass n (suc i) out
      | false ↦ some (true, out)
    ]
  ]
]

-- merge_all_idle_locked, on fuel: every pass but the last takes a block away.
unfoldable pub merge_all_idle : ℕ → List Block → Option (List Block)
merge_all_idle zero blocks = none
merge_all_idle (suc fuel) blocks = merge_pass (length blocks) 0 blocks >>= λ pass. elim pass.0 [
  | true ↦ merge_all_idle fuel pass.1
  | false ↦ some pass.1
]

-- The loop of release_locked that looks for the block at `ptr`.
unfoldable pub find_block : ℕ → ℕ → List Block → Option (ℕ × Block)
find_block ptr i [] = none
find_block ptr i (block ∷ blocks) =
    if block.address == ptr then some (i, block) else find_block ptr (suc i) blocks

-- Whether the pool owns the pointer, and the pool afterwards.
unfoldable pub release_locked : ℕ → DevicePool → Option (Bool × DevicePool)
release_locked ptr pool = elim (find_block ptr 0 pool.blocks) [
  | none ↦ some (false, pool)
  | some (i, block) ↦
      if not block.busy
      then some (true, pool)
      else merge_at i (set pool.blocks i (record block { busy = false })) >>= λ blocks. some (
        true,
        record pool { blocks = blocks; idle_bytes = add_size pool.idle_bytes block.byte_size },
      )
]

-- One pool's part of check_ledger_locked.
unfoldable pub ledger_holds : DevicePool → Bool
ledger_holds pool =
    weigh (λ b. if b.busy then 0 else b.byte_size) pool.blocks % size_limit == pool.idle_bytes
    && weigh (λ r. r.1) pool.regions % size_limit == pool.reserved_bytes
