-- ===== src/Fp16/Normalizing.antt =====
-- fp16_to_fp32: the loop that normalizes a subnormal number.
use llm_steady_infer.Base.{
  ℕ, zero, suc, ◌+◌, ◌*◌, ◌/◌, ◌%◌, ◌≤◌, ◌<◌, ◌≡◌, inl, inr, refl, ap, ◌∙◌, Bool-cases, arith, ◌==◌,
  ==_iff, Returns,
}
use llm_steady_infer.Fp16.{normalize}

-- x * 2 ^ n
abbrev pub scaled : ℕ → ℕ → ℕ
scaled zero x = x
scaled (suc n) x = 2 * scaled n x

scaled-double : (n x : ℕ) → scaled n (x * 2) ≡ 2 * scaled n x
scaled-double zero x = omega arith
scaled-double (suc n) x = omega (arith, scaled-double n x)

pub scaled-add : (m n x : ℕ) → scaled (m + n) x ≡ scaled m (scaled n x)
scaled-add zero n x = ap (λ k. scaled k x) (omega arith)
scaled-add (suc m) n x =
    let e : suc m + n ≡ suc (m + n) = omega arith in
    ap (λ k. scaled k x) e ∙ ap (λ y. 2 * y) (scaled-add m n x)

pub scaled-times : (n x : ℕ) → scaled n (8192 * x) ≡ 8192 * scaled n x
scaled-times zero x = refl
scaled-times (suc n) x = omega (arith, scaled-times n x)

-- The loop of a subnormal number stops with the leading bit in place.
pub record Normal (mant : ℕ) (r : ℕ × ℕ) : Type 0 where
  pub shifted : 0 < r.0
  pub few : r.0 ≤ 10
  pub leading : 1024 ≤ r.1
  pub below : r.1 < 2048
  pub total : r.1 ≡ scaled r.0 mant

next_total : (shifts mant m : ℕ) → m ≡ scaled shifts mant → m * 2 ≡ scaled (shifts + 1) mant
next_total shifts mant m total =
    let e : suc shifts ≡ shifts + 1 = omega arith in
    let twice : m * 2 ≡ 2 * scaled shifts mant = omega (arith, total) in
    twice ∙ ap (λ k. scaled k mant) e

pub normalize-Normal :
    (fuel shifts mant m : ℕ)
    → fuel + shifts ≡ 10
    → m ≡ scaled shifts mant
    → m < 1024
    → 1024 ≤ scaled fuel m
    → Returns (normalize fuel shifts m) (Normal mant)
unfolding normalize
normalize-Normal zero shifts mant m count total small large = absurd (omega (arith, small, large))
normalize-Normal (suc fuel) shifts mant m count total small large =
    elim (Bool-cases (m * 2 / 1024 % 2 == 0)) [
      | inl clear ↦
          rw (clear, normalize)
            (normalize-Normal fuel (shifts + 1) mant (m * 2) (omega (arith, count))
              (next_total shifts mant m total)
              (omega (arith, small, (==_iff (m * 2 / 1024 % 2) 0).0 clear))
              (omega (arith, large, scaled-double fuel m)))
      | inr found ↦
          rw (found, normalize)
            (record {
              shifted = omega arith;
              few = omega (arith, count);
              leading = ground (arith, found, small);
              below = omega (arith, small);
              total = next_total shifts mant m total;
            })
    ]
