-- ===== src/Scheduler/Preemption/Truncation.antt =====
-- truncate_sequence, as far as the sequence is concerned.
use native.Mathlib.Nat.{div-add-mod', mul_assoc, mul-div_left}
use llm_steady_infer.Base.{
  ℕ, ◌+◌, ◌-◌, ◌*◌, ◌/◌, ◌%◌, ◌≤◌, ◌<◌, ◌≡◌, refl, ap, ◌∙◌, subst, inl, inr, true, Bool-cases, List,
  ◌==◌, ltb, length, take, length-take, arith,
}
use llm_steady_infer.Sequence.{Sequence, preempted, is_preempted, kv_len, sync_kv_quant_state}
use llm_steady_infer.Scheduler.Preemption.{truncated}

-- What a cut to `keep` whole blocks leaves.
pub record Cut (block_size group_size keep : ℕ) (q q' : Sequence) : Type 0 where
  pub committed : kv_len q' ≡ keep * block_size
  pub all_quantized : q'.k_quantized_tokens ≡ keep * block_size
  pub no_residual : q'.k_residual_count ≡ 0
  pub blocks : q'.num_blocks_allocated ≡ keep
  pub cursor : length q'.prefix_hash_chain ≤ keep
  pub counted : length q'.generated_tokens ≡ q'.num_generated_tokens
  pub waits : is_preempted q' ≡ true
  pub counted_cut : q'.preempt_count ≡ q.preempt_count + 1
  pub same_prompt : q'.prompt_tokens ≡ q.prompt_tokens

whole_groups : (n d k : ℕ) → 0 < d → n % d ≡ 0 → k * n / d * d ≡ k * n
whole_groups n d k h e =
    let exact : n / d * d ≡ n = omega (arith, div-add-mod' n d) in
    let product : k * (n / d) * d ≡ k * n = mul_assoc k (n / d) d ∙ ap (◌*◌ k) exact in
    subst (λ x. x / d * d ≡ x) product (ap (λ x. x * d) (mul-div_left (k * (n / d)) h))

length-take-le : (n : ℕ) (xs : List ℕ) → length (take n xs) ≤ n
length-take-le n xs = omega (arith, length-take n xs)

synced-Cut :
    (block_size group_size keep : ℕ) (q c : Sequence)
    → 0 < group_size
    → block_size % group_size ≡ 0
    → kv_len c ≡ keep * block_size
    → c.num_blocks_allocated ≡ keep
    → length c.prefix_hash_chain ≤ keep
    → length c.generated_tokens ≡ c.num_generated_tokens
    → c.preempt_count ≡ q.preempt_count + 1
    → c.prompt_tokens ≡ q.prompt_tokens
    → Cut block_size group_size keep q
        (record (sync_kv_quant_state group_size c) { state = preempted })
unfolding sync_kv_quant_state
synced-Cut block_size group_size keep q c pos groups len blocks cursor counted cuts prompt =
    let whole : keep * block_size / group_size * group_size ≡ keep * block_size =
      whole_groups block_size group_size keep pos groups in
    let exact : kv_len c / group_size * group_size ≡ keep * block_size = rw len whole in
    elim (Bool-cases (group_size == 0)) [
      | inl e ↦ absurd (ground arith)
      | inr e ↦ rw e (record {
        committed = len;
        all_quantized = exact;
        no_residual = omega (arith, exact, len);
        blocks = blocks;
        cursor = cursor;
        counted = counted;
        waits = refl;
        counted_cut = cuts;
        same_prompt = prompt;
      })
    ]

-- If the group size divides the block size, the sequence's counts are consistent, and the cut is
-- below its committed length, the kept blocks are what is committed, all of it quantized in whole
-- groups, and the prefix cursor stays within them.
pub truncated-Cut :
    (block_size group_size keep : ℕ) (q : Sequence)
    → 0 < group_size
    → block_size % group_size ≡ 0
    → keep * block_size < kv_len q
    → length q.generated_tokens ≡ q.num_generated_tokens
    → q.next_prefill_chunk_start ≤ q.num_prompt_tokens
    → Cut block_size group_size keep q (truncated block_size group_size keep q)
unfolding truncated
truncated-Cut block_size group_size keep q pos groups below counted within =
    elim (Bool-cases (ltb (keep * block_size) q.num_prompt_tokens)) [
      | inl e ↦ rw e (
          synced-Cut block_size group_size keep q _ pos groups refl refl
            (length-take-le keep q.prefix_hash_chain) refl refl refl)
      | inr e ↦
          let keep_gen = keep * block_size - q.num_prompt_tokens in
          let complete : q.is_prefill_complete ≡ true = ground arith in
          let more : ltb keep_gen (length q.generated_tokens) ≡ true = ground arith in
          rw (e, more)
            (synced-Cut block_size group_size keep q _ pos groups (ground (arith)) refl
              (length-take-le keep q.prefix_hash_chain)
              (ground (arith, length-take keep_gen q.generated_tokens)) refl refl)
    ]
