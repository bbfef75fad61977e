-- ===== src/KvManager.antt =====
-- source/scheduler/kv_manager.cpp, include/scheduler/kv_manager.h, built with USE_PAGED_ATTENTION.
pub mod Geometry
pub mod Examples
use Prim.Native.Nat.{bit_and}
use llm_steady_infer.Base.{
  ℕ, zero, suc, ◌+◌, ◌-◌, ◌*◌, ◌/◌, ◌%◌, ◌≡◌, Bool, true, false, not, ◌&&◌, ◌||◌, Option, none,
  some, List, [], ◌∷◌, ltb, leb, ◌==◌, if◌then◌else◌, length, check, ◌>>=◌, ◌>>◌,
}
use llm_steady_infer.BlockAllocator.{
  BlockAllocator, create, allocate_blocks, free_all, num_busy_rows, ReclaimFn,
}

pub data DeviceType : Type 0 where
  cpu cuda : DeviceType

abbrev is_cuda : DeviceType → Bool
is_cuda cpu = false
is_cuda cuda = true

abbrev pub k_kv_quant_none : ℕ
k_kv_quant_none = 0

abbrev pub k_kv_quant_s4 : ℕ
k_kv_quant_s4 = 1

-- A tensor that the constructor allocates: its dimensions and the bytes of one element.
pub record Pool : Type 0 where
  pub dims : List ℕ
  pub element_bytes : ℕ

abbrev elements : List ℕ → ℕ
elements [] = 1
elements (d ∷ ds) = d * elements ds

-- Tensor::byte_size; an empty tensor has none.
abbrev pub byte_size : Option Pool → ℕ
byte_size none = 0
byte_size (some p) = elements p.dims * p.element_bytes

pub record KvManager : Type 0 where
  pub num_layers : ℕ
  pub max_batch : ℕ
  pub max_seq_len : ℕ
  pub kv_dim : ℕ
  pub kv_head_num : ℕ
  pub paged : Bool
  pub kv_quant : ℕ
  pub block_size : ℕ
  pub max_blocks_per_seq : ℕ
  pub num_blocks : ℕ
  pub block_allocator : BlockAllocator
  pub group_size : ℕ
  pub channel_group : ℕ
  pub groups_per_block : ℕ
  pub channel_groups : ℕ

abbrev pub quantized : KvManager → Bool
quantized m = not (m.kv_quant == k_kv_quant_none)

-- An environment variable as strtol reads it: unset or empty, not a non-negative number, a number.
pub data EnvNumber : Type 0 where
  unset malformed : EnvNumber
  number : ℕ → EnvNumber

pub grouping_from_env : EnvNumber → Option ℕ
grouping_from_env unset = some 0
grouping_from_env malformed = none
grouping_from_env (number v) = do check (leb v 4096); some v

-- The constructor's arguments, and what it reads from the environment.
pub record Config : Type 0 where
  pub num_layers : ℕ
  pub max_batch : ℕ
  pub max_seq_len : ℕ
  pub kv_dim : ℕ
  pub kv_head_num : ℕ
  pub device : DeviceType
  pub block_size : ℕ
  pub kv_quant : ℕ
  pub group_size : ℕ
  pub channel_group : ℕ
  pub env_window : Bool
  pub env_group_size : EnvNumber
  pub env_channel_group : EnvNumber

unfoldable pub valid_block_size : ℕ → Bool
valid_block_size n = leb 4 n && bit_and n (n - 1) == 0 && 256 % n == 0

-- The layout part of the constructor: block size, table width, number of blocks, allocator.
pub layout : Config → Option (ℕ × ℕ × ℕ × BlockAllocator)
layout g = elim (is_cuda g.device) [
  | true ↦ do
    check (valid_block_size g.block_size)
    let width = (g.max_seq_len + g.block_size - 1) / g.block_size
    a ← create (g.max_batch * width) g.max_batch width g.block_size
    some (g.block_size, width, g.max_batch * width, a)
  | false ↦ do a ← create g.max_batch g.max_batch 1 g.max_seq_len; some (g.max_seq_len, 1, 0, a)
]

-- The resolution of the grouping: group size, channel group.
pub grouping : Config → ℕ → Option (ℕ × ℕ)
unfolding grouping_from_env
grouping g block_size = do
  resolved_group ←
      if ltb 0 g.group_size then some g.group_size else grouping_from_env g.env_group_size
  resolved_channel ←
      if ltb 0 g.channel_group then some g.channel_group else grouping_from_env g.env_channel_group
  check (ltb 0 g.kv_head_num && g.kv_dim % g.kv_head_num == 0)
  let head_size = g.kv_dim / g.kv_head_num
  let group_size = if ltb 0 resolved_group then resolved_group else block_size
  let channel_group =
      if ltb 0 resolved_channel
      then resolved_channel
      else if head_size % 8 == 0
      then 8
      else head_size
  check (group_size % 4 == 0 && block_size % group_size == 0)
  check (channel_group % 4 == 0 && head_size % channel_group == 0)
  check (g.kv_dim % 2 == 0)
  some (group_size, channel_group)

-- The tensors: keys, values, and the five of the quantized cache.
pub pools : KvManager → List (Option Pool)
pools m = elim m.paged [
  | true ↦ elim (quantized m) [
    | true ↦
        some (record {
          dims = m.num_layers ∷ m.num_blocks ∷ m.block_size ∷ m.kv_dim / 2 ∷ [];
          element_bytes = 1;
        })
        ∷ some (record {
          dims = m.num_layers ∷ m.num_blocks ∷ m.block_size ∷ m.kv_dim / 2 ∷ [];
          element_bytes = 1;
        })
        ∷ some (record {
          dims = m.num_layers ∷ m.num_blocks ∷ m.groups_per_block ∷ m.channel_groups ∷ [];
          element_bytes = 4;
        })
        ∷ some (record {
          dims = m.num_layers ∷ m.num_blocks ∷ m.groups_per_block ∷ m.channel_groups ∷ [];
          element_bytes = 4;
        })
        ∷ some (record {
          dims = m.num_layers ∷ m.num_blocks ∷ m.kv_head_num ∷ m.block_size ∷ [];
          element_bytes = 4;
        })
        ∷ some (record {
          dims = m.num_layers ∷ m.num_blocks ∷ m.kv_head_num ∷ m.block_size ∷ [];
          element_bytes = 4;
        })
        ∷ some (record {
          dims = m.num_layers ∷ m.max_batch ∷ m.group_size ∷ m.kv_dim ∷ [];
          element_bytes = 2;
        })
        ∷ []
    | false ↦
        some (record {
          dims = m.num_layers ∷ m.num_blocks ∷ m.block_size ∷ m.kv_dim ∷ [];
          element_bytes = 2;
        })
        ∷ some (record {
          dims = m.num_layers ∷ m.num_blocks ∷ m.block_size ∷ m.kv_dim ∷ [];
          element_bytes = 2;
        })
        ∷ none
        ∷ none
        ∷ none
        ∷ none
        ∷ none
        ∷ []
  ]
  | false ↦
      some (record {
        dims = m.num_layers ∷ m.max_batch ∷ m.kv_dim ∷ m.max_seq_len ∷ [];
        element_bytes = 4;
      })
      ∷ some (record {
        dims = m.num_layers ∷ m.max_batch ∷ m.kv_dim ∷ m.max_seq_len ∷ [];
        element_bytes = 4;
      })
      ∷ none
      ∷ none
      ∷ none
      ∷ none
      ∷ none
      ∷ []
]

abbrev sum_bytes : List (Option Pool) → ℕ
sum_bytes [] = 0
sum_bytes (p ∷ ps) = byte_size p + sum_bytes ps

pub pool_bytes : KvManager → ℕ
unfolding pools
pool_bytes m = sum_bytes (pools m)

-- `grants` tells whether the device gives a buffer of that many bytes.
abbrev all_granted : (ℕ → Bool) → List (Option Pool) → Bool
all_granted grants [] = true
all_granted grants (none ∷ ps) = all_granted grants ps
all_granted grants (some p ∷ ps) = grants (byte_size (some p)) && all_granted grants ps

-- The constructor.
pub construct : (ℕ → Bool) → Config → Option KvManager
construct grants g = do
  check (g.kv_quant == k_kv_quant_none || is_cuda g.device)
  check (g.kv_quant == k_kv_quant_none || g.kv_quant == k_kv_quant_s4)
  check (not g.env_window)
  (block_size, width, num_blocks, a) ← layout g
  (group_size, channel_group) ←
      if g.kv_quant == k_kv_quant_none then some (0, 0) else grouping g block_size
  let m : KvManager = record {
    num_layers = g.num_layers;
    max_batch = g.max_batch;
    max_seq_len = g.max_seq_len;
    kv_dim = g.kv_dim;
    kv_head_num = g.kv_head_num;
    paged = is_cuda g.device;
    kv_quant = g.kv_quant;
    block_size = block_size;
    max_blocks_per_seq = width;
    num_blocks = num_blocks;
    block_allocator = a;
    group_size = group_size;
    channel_group = channel_group;
    groups_per_block = if g.kv_quant == k_kv_quant_none then 0 else block_size / group_size;
    channel_groups = if g.kv_quant == k_kv_quant_none then 0 else g.kv_dim / channel_group;
  }
  check (all_granted grants (pools m))
  some m

pub allocate :
    {C : Type 0} → Option (ReclaimFn C) → C × KvManager → Option ((C × KvManager) × Option ℕ)
allocate reclaim_fn (c, m) = do
  ((c', a'), row) ← allocate_blocks reclaim_fn m.max_blocks_per_seq (c, m.block_allocator)
  some ((c', record m { block_allocator = a' }), row)

unfoldable pub deallocate : Option ℕ → KvManager → Option KvManager
deallocate slot_or_row m = do
  a' ← free_all slot_or_row m.block_allocator
  some (record m { block_allocator = a' })

pub busy_slot_count : KvManager → ℕ
busy_slot_count m = num_busy_rows m.block_allocator

pub free_slot_count : KvManager → ℕ
free_slot_count m = m.block_allocator.num_rows - num_busy_rows m.block_allocator

pub has_free_slot : KvManager → Bool
unfolding free_slot_count
has_free_slot m = ltb 0 (free_slot_count m)
