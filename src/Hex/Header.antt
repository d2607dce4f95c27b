-- ===== src/Hex/Header.antt =====
-- The readers of header fields turn printed words of four bytes round.
use btcrig.Base.{
  ℕ, zero, suc, ◌*◌, ◌≡◌, refl, ap, ap₂, true, some, List, [], ◌∷◌, arith, ◌==◌, length, All, ◌>>=◌,
}
use btcrig.Word.Swap.{IsByte}
use btcrig.Hex.{reversed4, hex_u32_to_le, append_some, prevhash_loop, prevhash_to_header_bytes}
use btcrig.Hex.RoundTrip.{to_hex, hex_to_bytes-to_hex, length-to_hex}

-- The bytes with each four turned round.
abbrev pub swap_words : List ℕ → List ℕ
swap_words (a ∷ b ∷ c ∷ d ∷ bs) = d ∷ c ∷ b ∷ a ∷ swap_words bs
swap_words bs = []

pub hex_u32_to_le-to_hex :
    (bs : List ℕ) → length bs ≡ 4 → All IsByte bs → hex_u32_to_le (to_hex bs) ≡ some (swap_words bs)
unfolding hex_u32_to_le
hex_u32_to_le-to_hex (a ∷ b ∷ c ∷ d ∷ []) e h =
    ap (λ r. r >>= λ tmp. some (reversed4 tmp)) (hex_to_bytes-to_hex (a ∷ b ∷ c ∷ d ∷ []) h)
hex_u32_to_le-to_hex _ e h = absurd (omega arith)

pub prevhash_loop-to_hex :
    (n : ℕ) (bs : List ℕ)
    → length bs ≡ n * 4
    → All IsByte bs
    → prevhash_loop n (to_hex bs) ≡ some (swap_words bs)
unfolding prevhash_loop
prevhash_loop-to_hex zero [] e h = refl
prevhash_loop-to_hex (suc n) (a ∷ b ∷ c ∷ d ∷ bs) e h =
    ap₂ append_some
      (hex_u32_to_le-to_hex (a ∷ b ∷ c ∷ d ∷ []) refl (h.0, (h.1.0, (h.1.1.0, (h.1.1.1.0, tt)))))
      (prevhash_loop-to_hex n bs (omega arith) h.1.1.1.1)
prevhash_loop-to_hex _ _ e h = absurd (omega arith)

pub prevhash_to_header_bytes-to_hex :
    (bs : List ℕ)
    → length bs ≡ 32
    → All IsByte bs
    → prevhash_to_header_bytes (to_hex bs) ≡ some (swap_words bs)
unfolding prevhash_to_header_bytes
prevhash_to_header_bytes-to_hex bs e h =
    let whole : (length (to_hex bs) == 64) ≡ true = ground (arith, length-to_hex bs) in
    rw whole (prevhash_loop-to_hex 8 bs e h)
