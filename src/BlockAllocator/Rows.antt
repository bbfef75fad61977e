-- ===== src/BlockAllocator/Rows.antt =====
-- One row of BlockAllocator::block_tables_: max_blocks_per_seq_ entries, `none` for -1.
use mathlib.Core.List.{append-nil}
use llm_steady_infer.Base.{
  ℕ, zero, suc, ◌+◌, ◌≤◌, ◌<◌, ◌≡◌, refl, ap, Option, none, some, List, [], ◌∷◌, ◌++◌, map, arith,
  length, set, take, drop, replicate, length-append, length-map, length-take, length-drop,
}

abbrev pub Row : Type 0
Row = List (Option ℕ)

-- The blocks that a row mounts, in the order of its entries.
abbrev pub blocks_of : Row → List ℕ
blocks_of [] = []
blocks_of (none ∷ es) = blocks_of es
blocks_of (some b ∷ es) = b ∷ blocks_of es

-- The loop of num_used_blocks.
abbrev pub used_entries : Row → ℕ
used_entries [] = 0
used_entries (none ∷ es) = used_entries es
used_entries (some b ∷ es) = suc (used_entries es)

-- std::copy_backward of the first `used` entries by the length of `blocks`, and `blocks` in front.
abbrev pub mount_front : List ℕ → ℕ → Row → Row
mount_front blocks used es = map some blocks ++ (take used es ++ drop (used + length blocks) es)

-- No mounted entry stands behind an unused one.
abbrev pub IsCompact : Row → Type 0
IsCompact [] = Unit
IsCompact (none ∷ es) = blocks_of es ≡ []
IsCompact (some b ∷ es) = IsCompact es

pub used_entries-length : (es : Row) → used_entries es ≡ length (blocks_of es)
used_entries-length [] = refl
used_entries-length (none ∷ es) = used_entries-length es
used_entries-length (some b ∷ es) = ap suc (used_entries-length es)

pub length-blocks_of-le : (es : Row) → length (blocks_of es) ≤ length es
length-blocks_of-le [] = omega arith
length-blocks_of-le (none ∷ es) = omega (arith, length-blocks_of-le es)
length-blocks_of-le (some b ∷ es) = omega (arith, length-blocks_of-le es)

pub IsCompact-of_empty : (es : Row) → blocks_of es ≡ [] → IsCompact es
IsCompact-of_empty [] h = tt
IsCompact-of_empty (none ∷ es) h = h
IsCompact-of_empty (some b ∷ es) h = cc

-- A write behind the last mounted entry appends.
pub blocks_of-set :
    (es : Row) (b : ℕ)
    → IsCompact es
    → length (blocks_of es) < length es
    → blocks_of (set es (length (blocks_of es)) (some b)) ≡ blocks_of es ++ b ∷ []
blocks_of-set [] b c h = elim h [ ]
blocks_of-set (none ∷ es) b c h = rw c (rw c)
blocks_of-set (some x ∷ es) b c h = ap (◌∷◌ x) (blocks_of-set es b c (omega arith))

pub set-IsCompact :
    (es : Row) (b : ℕ)
    → IsCompact es
    → length (blocks_of es) < length es
    → IsCompact (set es (length (blocks_of es)) (some b))
set-IsCompact [] b c h = elim h [ ]
set-IsCompact (none ∷ es) b c h = rw c (IsCompact-of_empty es c)
set-IsCompact (some x ∷ es) b c h = set-IsCompact es b c (omega arith)

pub blocks_of-replicate : (n : ℕ) → blocks_of (replicate n none) ≡ []
blocks_of-replicate zero = refl
blocks_of-replicate (suc n) = blocks_of-replicate n

pub blocks_of-append : (xs ys : Row) → blocks_of (xs ++ ys) ≡ blocks_of xs ++ blocks_of ys
blocks_of-append [] ys = refl
blocks_of-append (none ∷ xs) ys = blocks_of-append xs ys
blocks_of-append (some b ∷ xs) ys = ap (◌∷◌ b) (blocks_of-append xs ys)

pub blocks_of-map : (bs : List ℕ) → blocks_of (map some bs) ≡ bs
blocks_of-map [] = refl
blocks_of-map (b ∷ bs) = ap (◌∷◌ b) (blocks_of-map bs)

blocks_of-drop_empty : (n : ℕ) (es : Row) → blocks_of es ≡ [] → blocks_of (drop n es) ≡ []
blocks_of-drop_empty zero es h = h
blocks_of-drop_empty (suc n) [] h = refl
blocks_of-drop_empty (suc n) (none ∷ es) h = blocks_of-drop_empty n es h
blocks_of-drop_empty (suc n) (some b ∷ es) h = cc

-- The first `used` entries are the mounted ones, and behind them nothing is.
blocks_of-drop :
    (n : ℕ) (es : Row) → IsCompact es → length (blocks_of es) ≤ n → blocks_of (drop n es) ≡ []
blocks_of-drop zero [] c h = refl
blocks_of-drop zero (none ∷ es) c h = c
blocks_of-drop zero (some b ∷ es) c h = absurd (omega arith)
blocks_of-drop (suc n) [] c h = refl
blocks_of-drop (suc n) (none ∷ es) c h = blocks_of-drop_empty n es c
blocks_of-drop (suc n) (some b ∷ es) c h = blocks_of-drop n es c (omega arith)

pub take-used :
    (es : Row) → IsCompact es → take (length (blocks_of es)) es ≡ map some (blocks_of es)
take-used [] c = refl
take-used (none ∷ es) c = rw c
take-used (some b ∷ es) c = ap (◌∷◌ (some b)) (take-used es c)

-- With room for them, the new blocks stand in front, the old ones follow, and the width stays.
pub blocks_of-mount_front :
    (bs : List ℕ) (es : Row)
    → IsCompact es
    → blocks_of (mount_front bs (length (blocks_of es)) es) ≡ bs ++ blocks_of es
blocks_of-mount_front bs es c =
    let used = length (blocks_of es) in
    rw
      (
        blocks_of-append (map some bs) (take used es ++ drop (used + length bs) es),
        blocks_of-map bs,
      )
      (ap (◌++◌ bs) (
        rw (
          blocks_of-append (take used es) (drop (used + length bs) es),
          take-used es c,
          blocks_of-map (blocks_of es),
          blocks_of-drop (used + length bs) es c (omega arith),
          append-nil,
        )))

map-some-IsCompact : (bs : List ℕ) (es : Row) → IsCompact es → IsCompact (map some bs ++ es)
map-some-IsCompact [] es c = c
map-some-IsCompact (b ∷ bs) es c = map-some-IsCompact bs es c

pub mount_front-IsCompact :
    (bs : List ℕ) (es : Row) → IsCompact es → IsCompact (mount_front bs (length (blocks_of es)) es)
mount_front-IsCompact bs es c = map-some-IsCompact bs _ (
    rw (take-used es c) (
      map-some-IsCompact (blocks_of es) _ (
        IsCompact-of_empty (drop (length (blocks_of es) + length bs) es)
          (blocks_of-drop (length (blocks_of es) + length bs) es c (omega arith)))))

pub length-mount_front :
    (bs : List ℕ) (es : Row) (used : ℕ)
    → used + length bs ≤ length es
    → length (mount_front bs used es) ≡ length es
length-mount_front bs es used h = omega (
  arith,
  length-append (map some bs) (take used es ++ drop (used + length bs) es),
  length-append (take used es) (drop (used + length bs) es),
  length-map {0, 0} bs some,
  length-take used es,
  length-drop (used + length bs) es,
)
