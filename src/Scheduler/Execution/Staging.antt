-- ===== src/Scheduler/Execution/Staging.antt =====
-- The prefill row map that execute_batch hands to the model.
use mathlib.Core.Option.{some-injective}
use llm_steady_infer.Base.{
  count, get_elem?, zero, if◌then◌else◌, ℕ, suc, ◌+◌, ◌≤◌, ◌<◌, ◌≡◌, refl, ap, ◌∙◌, inl, inr, ◌==◌,
  Bool-cases, some, List, [], ◌∷◌, length, arith,
}
use llm_steady_infer.Scheduler.Batch.{BatchRow, back}
use llm_steady_infer.Scheduler.Execution.{row_starts_from, row_starts}

abbrev pub IsIncreasing : ℕ → List ℕ → Type 0
IsIncreasing lo [] = Unit
IsIncreasing lo (x ∷ xs) = (lo < x) × IsIncreasing x xs

back-cons : (x v : ℕ) (xs : List ℕ) → back xs ≡ some v → back (x ∷ xs) ≡ some v
back-cons x v [] h = cc
back-cons x v (y ∷ ys) h = h

increasing-count : (x lo : ℕ) (xs : List ℕ) → IsIncreasing lo xs → x ≤ lo → count x xs ≡ 0
increasing-count x lo [] h le = refl
increasing-count x lo (y ∷ ys) h le =
    ground (arith, h.0, le, increasing-count x y ys h.1 (omega (arith, h.0, le)))

-- A row map for prefill rows that begin at row `first`: it holds the first row, each row whose
-- sequence is another than that of the row before, and at the end the number of rows.
pub record RowMap (first : ℕ) (rs : List BatchRow) (starts : List ℕ) : Type 0 where
  pub groups : List ℕ
  pub begins : starts ≡ first ∷ groups
  pub increasing : IsIncreasing first groups
  pub sentinel : back starts ≡ some (first + length rs)
  pub small : length starts ≤ length rs + 1
  pub boundaries :
      (k : ℕ) (a b : BatchRow)
      → get_elem? rs k ≡ some a
      → get_elem? rs (suc k) ≡ some b
      → count (first + suc k) starts ≡ (if b.seq == a.seq then 0 else 1)

record Tail (i last : ℕ) (rs : List BatchRow) (starts : List ℕ) : Type 0 where
  increasing : (lo : ℕ) → lo < i → IsIncreasing lo starts
  sentinel : back starts ≡ some (i + length rs)
  small : length starts ≤ length rs + 1
  at_first :
      (b : BatchRow) → get_elem? rs 0 ≡ some b → count i starts ≡ (if b.seq == last then 0 else 1)
  later :
      (k : ℕ) (a b : BatchRow)
      → get_elem? rs k ≡ some a
      → get_elem? rs (suc k) ≡ some b
      → count (i + suc k) starts ≡ (if b.seq == a.seq then 0 else 1)

-- The boundaries behind a row, from those of the rows after it.
later_rows :
    (i : ℕ) (r : BatchRow) (rs : List BatchRow) (starts : List ℕ)
    → Tail (i + 1) r.seq rs starts
    → (k : ℕ) (a b : BatchRow) → get_elem? (r ∷ rs) k ≡ some a
    → get_elem? rs k ≡ some b
    → count (i + suc k) starts ≡ (if b.seq == a.seq then 0 else 1)
later_rows i r rs starts t zero a b at_a at_b =
    t.at_first b at_b ∙ ap (λ x. if b.seq == x.seq then 0 else 1) (some-injective r a at_a)
later_rows i r rs starts t (suc k) a b at_a at_b =
    ap (λ x. count x starts) (omega arith) ∙ t.later k a b at_a at_b

row_starts_from-Tail :
    (i last : ℕ) (rs : List BatchRow) → Tail i last rs (row_starts_from i last rs)
unfolding row_starts_from
row_starts_from-Tail i last [] = record {
  increasing = λ lo h. (h, tt);
  sentinel = ap some (omega arith);
  small = omega arith;
  at_first = λ b at. ground (arith, at);
  later = λ k a b at. ground (arith, at);
}
row_starts_from-Tail i last (r ∷ rs) =
    let t = row_starts_from-Tail (i + 1) r.seq rs in
    let rest = row_starts_from (i + 1) r.seq rs in
    let none_here = increasing-count i i rest (t.increasing i (omega arith)) (omega arith) in
    elim (Bool-cases (r.seq == last)) [
      | inl e ↦ rw e (record {
        increasing = λ lo h. t.increasing lo (omega (arith, h));
        sentinel = t.sentinel ∙ ap some (omega arith);
        small = omega (arith, t.small);
        at_first = λ b at. ground (arith, e, none_here, ap (λ x. x.seq) (some-injective r b at));
        later = later_rows i r rs rest t;
      })
      | inr e ↦ rw e (record {
        increasing = λ lo h. (h, t.increasing i (omega arith));
        sentinel = back-cons i (i + suc (length rs)) rest (t.sentinel ∙ ap some (omega arith));
        small = omega (arith, t.small);
        at_first = λ b at. ground (arith, e, none_here, ap (λ x. x.seq) (some-injective r b at));
        later = λ k a b at_a at_b. ground (arith, later_rows i r rs rest t k a b at_a at_b);
      })
    ]

-- For at least one prefill row the row map begins at the first, increases strictly, and ends with
-- the number of rows of the batch. Behind the first row, a row of the batch is in the map exactly
-- if its sequence is another than that of the row before it.
pub row_starts-RowMap :
    (first : ℕ) (r : BatchRow) (rs : List BatchRow)
    → RowMap first (r ∷ rs) (row_starts first (r ∷ rs))
unfolding row_starts
row_starts-RowMap first r rs =
    let t = row_starts_from-Tail (first + 1) r.seq rs in
    let rest = row_starts_from (first + 1) r.seq rs in
    record {
      groups = rest;
      begins = refl;
      increasing = t.increasing first (omega arith);
      sentinel =
          back-cons first (first + suc (length rs)) rest (t.sentinel ∙ ap some (omega arith));
      small = omega (arith, t.small);
      boundaries = λ k a b at_a at_b. ground (arith, later_rows first r rs rest t k a b at_a at_b);
    }
