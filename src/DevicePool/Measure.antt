-- ===== src/DevicePool/Measure.antt =====
-- What the blocks of a pool tile: quantities that add up when a range of addresses is cut in two.
use llm_steady_infer.Base.{
  ℕ, ◌+◌, ◌%◌, ◌<◌, ◌≡◌, refl, List, [], ◌∷◌, arith, ltb, leb, ◌==◌, if◌then◌else◌,
}
use llm_steady_infer.DevicePool.{Block, weigh, size_limit, add_size, sub_size}

-- A number for each range `start`, `size` of a region that is additive.
pub record Measure : Type 0 where
  pub weight : (region start size : ℕ) → ℕ
  pub additive :
      (region start size more : ℕ)
      → weight region start (size + more)
        ≡ weight region start size + weight region (start + size) more

abbrev pub tile : Measure → Block → ℕ
tile m b = m.weight b.region b.address b.byte_size

abbrev pub region_tile : Measure → ℕ × ℕ → ℕ
region_tile m r = m.weight r.0 r.0 r.1

abbrev pub idle_part : Measure → Block → ℕ
idle_part m b = if b.busy then 0 else tile m b

abbrev pub busy_part : (Block → ℕ) → Block → ℕ
busy_part f b = if b.busy then f b else 0

pub bytes_of-additive :
    (r region start size more : ℕ)
    → (if region == r then size + more else 0)
      ≡ (if region == r then size else 0) + (if region == r then more else 0)
bytes_of-additive r region start size more = ground arith

-- The bytes of one region.
abbrev pub bytes_of : ℕ → Measure
bytes_of r = record {
  weight = λ region start size. if region == r then size else 0;
  additive = bytes_of-additive r;
}

-- All the bytes.
abbrev pub bytes : Measure
bytes = record { weight = λ region start size. size; additive = λ region start size more. refl }

-- Whether a range holds the address `x`.
abbrev pub inside : ℕ → ℕ → ℕ → ℕ
inside x start size = if leb start x then (if ltb x (start + size) then 1 else 0) else 0

pub inside-additive :
    (x start size more : ℕ)
    → inside x start (size + more) ≡ inside x start size + inside x (start + size) more
inside-additive x start size more = ground arith

abbrev pub covers : ℕ → Measure
covers x = record {
  weight = λ region start size. inside x start size;
  additive = λ region. inside-additive x;
}

pub inside_of-additive :
    (r x region start size more : ℕ)
    → (if region == r then inside x start (size + more) else 0)
      ≡ (if region == r then inside x start size else 0)
        + (if region == r then inside x (start + size) more else 0)
inside_of-additive r x region start size more = ground arith

-- Whether a range of the region `r` holds the address `x`.
abbrev pub covers_of : ℕ → ℕ → Measure
covers_of r x = record {
  weight = λ region start size. if region == r then inside x start size else 0;
  additive = inside_of-additive r x;
}

pub tile_split :
    (m : Measure) (blocks : List Block)
    → weigh (tile m) blocks ≡ weigh (idle_part m) blocks + weigh (busy_part (tile m)) blocks
tile_split m [] = omega arith
tile_split m (b ∷ blocks) = ground (arith, tile_split m blocks)

-- The counters wrap around, and are right all the same.
pub add_size-mod : (a b : ℕ) → add_size (a % size_limit) b ≡ (a + b) % size_limit
add_size-mod a b = omega arith

pub sub_size-mod : (a b : ℕ) → sub_size ((a + b) % size_limit) b ≡ a % size_limit
sub_size-mod a b = omega arith

pub add_size_small : (a b : ℕ) → a + b < size_limit → add_size a b ≡ a + b
add_size_small a b h = omega (arith, h)
