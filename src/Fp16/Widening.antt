-- ===== src/Fp16/Widening.antt =====
-- The widened number has the value of the half-precision one.
use llm_steady_infer.Base.{
  ℕ, zero, suc, ◌+◌, ◌-◌, ◌*◌, ◌/◌, ◌%◌, ◌≤◌, ◌<◌, ◌≡◌, ◌⊎◌, inl, inr, refl, sym, ap, subst, ◌∙◌,
  true, false, Bool-cases, some, arith, ◌==◌, ==_iff, Returns, Returns-bind, ◌>>=◌,
}
use llm_steady_infer.Fp16.{normalize, fields, fp16_to_fp32}
use llm_steady_infer.Fp16.Normalizing.{Normal, normalize-Normal, scaled, scaled-add, scaled-times}

-- The value of a finite half-precision number, times 2 ^ 24.
abbrev pub fp16_value : ℕ → ℕ
fp16_value h = elim (h / 1024 % 32) [ zero ↦ h % 1024 | suc e ↦ scaled e (1024 + h % 1024) ]

-- The word `b` is a single-precision number of sign `sign` and of the value `v`, times 2 ^ 47.
pub record IsFloat (sign v b : ℕ) : Type 0 where
  pub word : b < 4294967296
  pub signed : b / 2147483648 ≡ sign
  pub value :
      ((b % 2147483648 ≡ 0) × (v ≡ 0))
      ⊎ ((103 ≤ b / 8388608 % 256)
          × (b / 8388608 % 256 < 255)
          × (v ≡ scaled (b / 8388608 % 256 - 103) (8388608 + b % 8388608)))

-- The exponent of the result is all ones, as it was; the mantissa is 0 when it was.
pub record IsSpecial (sign mant b : ℕ) : Type 0 where
  pub word : b < 4294967296
  pub signed : b / 2147483648 ≡ sign
  pub exponent : b / 8388608 % 256 ≡ 255
  pub mantissa : b % 8388608 ≡ 8192 * mant

fields-parts :
    (sign e m : ℕ)
    → sign < 2
    → e < 256
    → m < 1024
    → (fields sign e m < 4294967296)
      × (fields sign e m / 2147483648 ≡ sign)
      × (fields sign e m / 8388608 % 256 ≡ e)
      × (fields sign e m % 8388608 ≡ 8192 * m)
      × (fields sign e m % 2147483648 ≡ e * 8388608 + m * 8192)
fields-parts sign e m s x y = (
  omega (arith, s, x, y),
  omega (arith, s, x, y),
  omega (arith, s, x, y),
  omega (arith, s, x, y),
  omega (arith, s, x, y),
)

scaled-mega : (n x : ℕ) → scaled n (8388608 * x) ≡ 8388608 * scaled n x
scaled-mega zero x = refl
scaled-mega (suc n) x = omega (arith, scaled-mega n x)

fp16_value-subnormal : (h : ℕ) → h / 1024 % 32 ≡ 0 → fp16_value h ≡ h % 1024
fp16_value-subnormal h e = rw (e, fp16_value) refl

fp16_value-normal : (h e : ℕ) → h / 1024 % 32 ≡ suc e → fp16_value h ≡ scaled e (1024 + h % 1024)
fp16_value-normal h e eq = rw (eq, fp16_value) refl

-- The two classes of results.
pub data Widened (h : ℕ) (b : ℕ) : Type 0 where
  finite : h / 1024 % 32 < 31 → IsFloat (h / 32768) (8388608 * fp16_value h) b → Widened h b
  special : h / 1024 % 32 ≡ 31 → IsSpecial (h / 32768) (h % 1024) b → Widened h b

-- A float of the parts, from the value of its exponent and mantissa.
IsFloat-of :
    (sign e m v : ℕ)
    → sign < 2
    → 103 ≤ e
    → e < 255
    → m < 1024
    → v ≡ scaled (e - 103) (8388608 + 8192 * m)
    → IsFloat sign v (fields sign e m)
IsFloat-of sign e m v s low high small value =
    let (word, signed, exponent, mantissa, rest) =
      fields-parts sign e m s (omega (arith, high)) small in
    record {
      word = word;
      signed = signed;
      value = inr (
        omega (arith, exponent, low),
        omega (arith, exponent, high),
        value
            ∙ ap (λ k. scaled (k - 103) (8388608 + 8192 * m)) (sym exponent)
            ∙ ap (λ k. scaled (fields sign e m / 8388608 % 256 - 103) (8388608 + k)) (sym mantissa),
      );
    }

module _ (h : ℕ) (bits : h < 65536) where
  abbrev sign : ℕ
  sign = h / 32768 % 2

  sign-whole : sign ≡ h / 32768
  sign-whole = omega (arith, bits)

  subnormal_value :
      (r : ℕ × ℕ)
      → Normal (h % 1024) r
      → 8388608 * (h % 1024) ≡ scaled (127 - 15 - (r.0 - 1) - 103) (8388608 + 8192 * (r.1 % 1024))
  subnormal_value r n =
      let exponent : 127 - 15 - (r.0 - 1) - 103 ≡ 10 - r.0 = omega (arith, n.shifted, n.few) in
      let mantissa : 8388608 + 8192 * (r.1 % 1024) ≡ 8192 * r.1 =
        omega (arith, n.leading, n.below) in
      let count : 10 - r.0 + r.0 ≡ 10 = omega (arith, n.few) in
      let whole : 8388608 * (h % 1024) ≡ 8192 * scaled 10 (h % 1024) = omega arith in
      whole
      ∙ ap (λ k. 8192 * scaled k (h % 1024)) (sym count)
      ∙ ap (λ y. 8192 * y) (scaled-add (10 - r.0) r.0 (h % 1024))
      ∙ ap (λ y. 8192 * scaled (10 - r.0) y) (sym n.total)
      ∙ sym (scaled-times (10 - r.0) r.1)
      ∙ ap (scaled (10 - r.0)) (sym mantissa)
      ∙ ap (λ k. scaled k (8388608 + 8192 * (r.1 % 1024))) (sym exponent)

  normal_value :
      (e : ℕ)
      → 8388608 * scaled e (1024 + h % 1024)
        ≡ scaled (suc e + 127 - 15 - 103) (8388608 + 8192 * (h % 1024))
  normal_value e =
      let exponent : suc e + 127 - 15 - 103 ≡ e + 10 = omega arith in
      let mantissa : 8388608 * (1024 + h % 1024) ≡ scaled 10 (8388608 + 8192 * (h % 1024)) =
        omega arith in
      sym (scaled-mega e (1024 + h % 1024))
      ∙ ap (scaled e) mantissa
      ∙ sym (scaled-add e 10 (8388608 + 8192 * (h % 1024)))
      ∙ ap (λ k. scaled k (8388608 + 8192 * (h % 1024))) (sym exponent)

  signed-IsFloat : (v b : ℕ) → IsFloat sign v b → IsFloat (h / 32768) v b
  signed-IsFloat v b f = subst (λ s. IsFloat s v b) sign-whole f

  subnormal_case :
      h / 1024 % 32 ≡ 0
      → (h % 1024 == 0) ≡ false
      → Returns
          (normalize 10 0 (h % 1024) >>= λ (shifts, m).
            some (fields sign (127 - 15 - (shifts - 1)) (m % 1024)))
          (Widened h)
  subnormal_case none_exp some_mant =
      Returns-bind (Normal (h % 1024)) (Widened h) (normalize 10 0 (h % 1024)) _
        (normalize-Normal 10 0 (h % 1024) (h % 1024) (omega arith) refl (omega arith)
          (ground (arith, some_mant)))
        (λ r n. finite (omega (arith, none_exp)) (
          signed-IsFloat _ _ (
            IsFloat-of sign (127 - 15 - (r.0 - 1)) (r.1 % 1024) (8388608 * fp16_value h)
              (omega arith) (omega (arith, n.shifted, n.few)) (omega (arith, n.shifted, n.few))
              (omega arith)
              (ap (λ y. 8388608 * y) (fp16_value-subnormal h none_exp) ∙ subnormal_value r n))))

  zero_case : h / 1024 % 32 ≡ 0 → (h % 1024 == 0) ≡ true → Widened h (fields sign 0 0)
  zero_case none_exp no_mant =
      let (word, signed, exponent, mantissa, rest) =
        fields-parts sign 0 0 (omega arith) (omega arith) (omega arith) in
      finite (omega (arith, none_exp)) (record {
        word = word;
        signed = signed ∙ sign-whole;
        value = inl (
          omega (arith, rest),
          omega (arith, fp16_value-subnormal h none_exp, (==_iff (h % 1024) 0).0 no_mant),
        );
      })

  special_case : h / 1024 % 32 ≡ 31 → Widened h (fields sign 255 (h % 1024))
  special_case all_ones =
      let (word, signed, exponent, mantissa, rest) =
        fields-parts sign 255 (h % 1024) (omega arith) (omega arith) (omega arith) in
      special all_ones (record {
        word = word;
        signed = signed ∙ sign-whole;
        exponent = exponent;
        mantissa = mantissa;
      })

  normal_case :
      (e : ℕ)
      → h / 1024 % 32 ≡ suc e
      → suc e < 31
      → Widened h (fields sign (h / 1024 % 32 + 127 - 15) (h % 1024))
  normal_case e some_exp low = finite (omega (arith, some_exp, low)) (
      signed-IsFloat _ _ (
        IsFloat-of sign (h / 1024 % 32 + 127 - 15) (h % 1024) (8388608 * fp16_value h) (omega arith)
          (omega (arith, some_exp)) (omega (arith, some_exp, low)) (omega arith)
          (ap (λ y. 8388608 * y) (fp16_value-normal h e some_exp)
            ∙ normal_value e
            ∙ ap (λ k. scaled (k + 127 - 15 - 103) (8388608 + 8192 * (h % 1024))) (sym some_exp))))

  positive_exponent : (h / 1024 % 32 == 0) ≡ false → (e : ℕ) × (h / 1024 % 32 ≡ suc e)
  positive_exponent some_exp = (h / 1024 % 32 - 1, ground (arith, some_exp))

  -- For every half-precision pattern of 16 bits the conversion returns, its loop on a subnormal
  -- number included, and the result is exact: it has the sign and the value of a finite number, and
  -- an infinity or a NaN stays one, with the mantissa's bits in place.
  pub fp16_to_fp32-Widened : Returns (fp16_to_fp32 h) (Widened h)
  unfolding fp16_to_fp32
  fp16_to_fp32-Widened = elim (Bool-cases (h / 1024 % 32 == 0)) [
    | inl low ↦
        let none_exp = (==_iff (h / 1024 % 32) 0).0 low in
        elim (Bool-cases (h % 1024 == 0)) [
          | inl no_mant ↦ rw (low, no_mant, fp16_to_fp32) (zero_case none_exp no_mant)
          | inr some_mant ↦ rw (low, some_mant, fp16_to_fp32) (subnormal_case none_exp some_mant)
        ]
    | inr some_exp ↦ elim (Bool-cases (h / 1024 % 32 == 31)) [
      | inl high ↦
          rw (some_exp, high, fp16_to_fp32) (special_case ((==_iff (h / 1024 % 32) 31).0 high))
      | inr mid ↦
          let (e, eq) = positive_exponent some_exp in
          rw (some_exp, mid, fp16_to_fp32) (normal_case e eq (ground (arith, eq, mid)))
    ]
  ]
