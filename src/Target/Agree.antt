-- ===== src/Target/Agree.antt =====
-- The scan's test on words and the public test on bytes agree.
use native.Mathlib.Nat.{pow-suc, pow-zero}
use btcrig.Base.{
  ℕ, zero, suc, ◌+◌, ◌*◌, ◌/◌, ◌%◌, ◌^◌, ◌≡◌, refl, sym, ap, ap₂, ◌∙◌, arith, subst, List, [], ◌∷◌,
  length, get_or, All, leb,
}
use btcrig.Word.{bswap32, load_le32, put_be32}
use btcrig.Word.Swap.{IsByte, IsWord, bswap32_sum, load_le32_sum}
use btcrig.Sha256d.Midstate.{words_to_hash}
use btcrig.Sha256d.Midstate.Blocks.{length-words_to_hash, words_to_hash-IsByte}
use btcrig.Target.{hash_words_meet_target, hash_meets_target, load_target}
use btcrig.Target.Order.{value, swapped, hash_loop-value, hash_words_loop-value}

value-cons : (b n x : ℕ) (l : List ℕ) → value b (suc n) (x ∷ l) ≡ x + b * value b n l
unfolding value
value-cons b zero x l = omega (arith, ap (λ (t : ℕ). x * t) (pow-zero b))
value-cons b (suc n) x l =
    omega (arith, value-cons b n x l, ap (λ (t : ℕ). get_or l n 0 * t) (pow-suc b n))

-- Four bytes make one digit to the base `2 ^ 32`.
value_four :
    (n a b c d : ℕ) (l : List ℕ)
    → value 256 (suc (suc (suc (suc n)))) (a ∷ b ∷ c ∷ d ∷ l)
      ≡ a + b * 2 ^ 8 + c * 2 ^ 16 + d * 2 ^ 24 + 2 ^ 32 * value 256 n l
value_four n a b c d l = omega (
  arith,
  value-cons 256 (suc (suc (suc n))) a (b ∷ c ∷ d ∷ l),
  value-cons 256 (suc (suc n)) b (c ∷ d ∷ l),
  value-cons 256 (suc n) c (d ∷ l),
  value-cons 256 n d l,
)

abbrev four_times : ℕ → ℕ
four_times zero = 0
four_times (suc n) = suc (suc (suc (suc (four_times n))))

-- The digest's bytes, read from the lowest, are its swapped words.
value-words_to_hash :
    (ws : List ℕ)
    → All IsWord ws
    → value 256 (four_times (length ws)) (words_to_hash ws)
      ≡ value (2 ^ 32) (length ws) (swapped ws)
unfolding value words_to_hash put_be32
value-words_to_hash [] h = refl
value-words_to_hash (w ∷ ws) h =
    let small : IsWord w = h.0 in
    omega (
      arith,
      value_four (four_times (length ws)) (w / 2 ^ 24 % 256) (w / 2 ^ 16 % 256) (w / 2 ^ 8 % 256)
          (w % 256) (words_to_hash ws),
      value-cons (2 ^ 32) (length ws) (bswap32 w) (swapped ws),
      bswap32_sum w small,
      value-words_to_hash ws h.1,
    )

value-load_target :
    (n : ℕ) (p : List ℕ)
    → length p ≡ four_times n
    → All IsByte p
    → value (2 ^ 32) n (load_target n p) ≡ value 256 (four_times n) p
unfolding value load_target
value-load_target zero p e h = refl
value-load_target (suc n) (a ∷ b ∷ c ∷ d ∷ p) e h = omega (
  arith,
  value-cons (2 ^ 32) n (load_le32 (a ∷ b ∷ c ∷ d ∷ p)) (load_target n p),
  load_le32_sum a b c d p h.0 h.1.0 h.1.1.0 h.1.1.1.0,
  value-load_target n p (omega arith) h.1.1.1.1,
  value_four (four_times n) a b c d p,
)
value-load_target (suc n) _ e h = absurd (omega arith)

load_target-IsWord :
    (n : ℕ) (p : List ℕ)
    → length p ≡ four_times n
    → All IsByte p
    → (length (load_target n p) ≡ n) × All IsWord (load_target n p)
unfolding load_target
load_target-IsWord zero p e h = (refl, tt)
load_target-IsWord (suc n) (a ∷ b ∷ c ∷ d ∷ p) e h =
    let (len, words) = load_target-IsWord n p (omega arith) h.1.1.1.1 in
    let bound : IsWord (load_le32 (a ∷ b ∷ c ∷ d ∷ p)) =
      omega (arith, h, load_le32_sum a b c d p h.0 h.1.0 h.1.1.0 h.1.1.1.0) in
    (ap suc len, (bound, words))
load_target-IsWord (suc n) _ e h = absurd (omega arith)

-- For 32 bytes of hash and of target, `miner_hash_meets_target` holds exactly when the hash, read
-- as a little-endian number, is at most the target.
pub hash_meets_target_lem :
    (hash target : List ℕ)
    → length hash ≡ 32
    → length target ≡ 32
    → All IsByte hash
    → All IsByte target
    → hash_meets_target hash target ≡ leb (value 256 32 hash) (value 256 32 target)
unfolding hash_meets_target
hash_meets_target_lem hash target lh lt bh bt =
    hash_loop-value 32 hash target (omega arith) (omega arith) bh bt

-- For 8 machine words of hash and 32 bytes of target, `hash_words_meet_target` on the target's
-- words holds exactly when `miner_hash_meets_target` does on the bytes of the hash.
pub hash_words_meet_target-hash_meets_target :
    (ws target : List ℕ)
    → length ws ≡ 8
    → length target ≡ 32
    → All IsWord ws
    → All IsByte target
    → hash_words_meet_target ws (load_target 8 target) ≡ hash_meets_target (words_to_hash ws) target
unfolding hash_words_meet_target hash_meets_target
hash_words_meet_target-hash_meets_target ws target lw lt words bytes =
    let (len, loaded) = load_target-IsWord 8 target lt bytes in
    let hash_value : value 256 32 (words_to_hash ws) ≡ value (2 ^ 32) 8 (swapped ws) =
      subst (λ n. value 256 (four_times n) (words_to_hash ws) ≡ value (2 ^ 32) n (swapped ws)) lw
        (value-words_to_hash ws words) in
    hash_words_loop-value 8 ws (load_target 8 target) (omega arith) (omega arith) words loaded
    ∙ ap₂ leb (sym hash_value) (value-load_target 8 target lt bytes)
    ∙ sym (
        hash_loop-value 32 (words_to_hash ws) target (omega (arith, length-words_to_hash ws))
          (omega arith) (words_to_hash-IsByte ws) bytes)
