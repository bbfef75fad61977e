-- ===== src/PrefixCache/Chain.antt =====
-- The chained hashes of a prompt: one more block.
use llm_steady_infer.Base.{
  ℕ, zero, suc, ◌+◌, ◌*◌, ◌≡◌, refl, sym, ap, ◌∙◌, List, [], ◌∷◌, ◌++◌, length, take, drop, arith,
}
use llm_steady_infer.PrefixCache.{block_hash, back_or}
use llm_steady_infer.PrefixCache.Lookup.{chain_of}

drop-nil : (n : ℕ) → drop {A = ℕ} n [] ≡ []
drop-nil zero = refl
drop-nil (suc n) = refl

drop-drop : (m n : ℕ) (xs : List ℕ) → drop n (drop m xs) ≡ drop (m + n) xs
drop-drop zero n xs = ap (λ k. drop k xs) (omega arith)
drop-drop (suc m) n [] = drop-nil n ∙ sym (drop-nil (suc m + n))
drop-drop (suc m) n (x ∷ xs) =
    let skip : suc (m + n) ≡ suc m + n = omega arith in
    drop-drop m n xs ∙ ap (λ k. drop k (x ∷ xs)) skip

-- One more hash.
chain_of-snoc :
    (size n prev : ℕ) (tokens : List ℕ)
    → chain_of size (suc n) prev tokens
      ≡ chain_of size n prev tokens
        ++ block_hash
            (back_or prev (chain_of size n prev tokens))
            (take size (drop (n * size) tokens))
          ∷ []
unfolding back_or
chain_of-snoc size zero prev tokens =
    let none_skipped : 0 ≡ 0 * size = omega arith in
    ap (λ k. block_hash prev (take size (drop k tokens)) ∷ []) none_skipped
chain_of-snoc size (suc n) prev tokens =
    let h = block_hash prev (take size tokens) in
    let skip : drop (n * size) (drop size tokens) ≡ drop (suc n * size) tokens =
      let more : size + n * size ≡ suc n * size = omega arith in
      drop-drop size (n * size) tokens ∙ ap (λ k. drop k tokens) more in
    ap (◌∷◌ h) (rw skip at (chain_of-snoc size n h (drop size tokens)))

pub length-chain_of : (size n prev : ℕ) (tokens : List ℕ) → length (chain_of size n prev tokens) ≡ n
length-chain_of size zero prev tokens = refl
length-chain_of size (suc n) prev tokens =
    ap suc (length-chain_of size n (block_hash prev (take size tokens)) (drop size tokens))

pub next_chain :
    (prompt : List ℕ) (b size : ℕ) (chain : List ℕ)
    → chain ≡ chain_of size b 0 prompt
    → chain ++ block_hash (back_or 0 chain) (take size (drop (b * size) prompt)) ∷ []
      ≡ chain_of size (b + 1) 0 prompt
next_chain prompt b size chain e =
    let more : suc b ≡ b + 1 = omega arith in
    ap (λ ch. ch ++ block_hash (back_or 0 ch) (take size (drop (b * size) prompt)) ∷ []) e
    ∙ sym (chain_of-snoc size b 0 prompt)
    ∙ ap (λ k. chain_of size k 0 prompt) more
