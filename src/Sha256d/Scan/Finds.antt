-- ===== src/Sha256d/Scan/Finds.antt =====
-- A scan reports exactly the nonces of its range whose header meets the target.
use btcrig.Base.{
  ℕ, zero, suc, ◌+◌, ◌≡◌, refl, sym, ap, ◌∙◌, arith, List, [], ◌∷◌, ◌++◌, map, length, set, take,
  length-append, length-take, All-append, All-take, Bool-cases, inl, inr, All, Bool, true,
  if◌then◌else◌,
}
use btcrig.Word.{u32, bswap32, store_le32, load_be32}
use btcrig.Word.Swap.{IsByte, IsWord, load_be32-store_le32}
use btcrig.Target.{hash_words_meet_target, hash_meets_target, load_target}
use btcrig.Target.Agree.{hash_words_meet_target-hash_meets_target}
use btcrig.Sha256d.OpenSsl.{OpenSsl}
use btcrig.Sha256d.Compress.{load_block}
use btcrig.Sha256d.Midstate.{sha256d_80}
use btcrig.Sha256d.Midstate.Header.{IsHeaderHash}
use btcrig.Sha256d.Scan.{Match, scan_loop, scan_nonce_range}

-- The nonces of a scan, `n` of them from the `i`-th on, in order.
abbrev pub nonces : ℕ → ℕ → ℕ → List ℕ
nonces start zero i = []
nonces start (suc n) i = u32 (start + i) ∷ nonces start n (i + 1)

abbrev pub keep : (ℕ → Bool) → List ℕ → List ℕ
keep p [] = []
keep p (x ∷ xs) = if p x then x ∷ keep p xs else keep p xs

-- The last 16 bytes of a header: 12 bytes and the nonce, low byte first.
abbrev pub with_nonce : List ℕ → ℕ → List ℕ
with_nonce tail12 nonce = tail12 ++ store_le32 nonce

-- Writing the swapped nonce into the last word is loading it from the header's bytes.
set-load_block :
    (tail16 : List ℕ) (nonce : ℕ)
    → length tail16 ≡ 16
    → IsWord nonce
    → set (load_block 4 tail16) 3 (bswap32 nonce) ≡ load_block 4 (with_nonce (take 12 tail16) nonce)
unfolding load_block load_be32 store_le32
set-load_block
      (b0 ∷ b1 ∷ b2 ∷ b3 ∷ b4 ∷ b5 ∷ b6 ∷ b7 ∷ b8 ∷ b9 ∷ b10 ∷ b11 ∷ b12 ∷ b13 ∷ b14 ∷ b15 ∷ [])
      nonce e h =
    ap
      (λ t.
        load_be32 (b0 ∷ b1 ∷ b2 ∷ b3 ∷ [])
        ∷ load_be32 (b4 ∷ b5 ∷ b6 ∷ b7 ∷ [])
        ∷ load_be32 (b8 ∷ b9 ∷ b10 ∷ b11 ∷ [])
        ∷ t
        ∷ [])
      (sym (load_be32-store_le32 nonce h))
set-load_block _ nonce e h = absurd (omega arith)

set-set : (l : List ℕ) (i x y : ℕ) → set (set l i x) i y ≡ set l i y
set-set [] i x y = refl
set-set (a ∷ l) zero x y = refl
set-set (a ∷ l) (suc i) x y = ap (◌∷◌ a) (set-set l i x y)

module _ (hash : List ℕ → List ℕ) (target : List ℕ) (start : ℕ) (meets : ℕ → Bool) (tail16 : List ℕ)
    (ht : length tail16 ≡ 16)
    (agree : (nonce : ℕ)
      → IsWord nonce
      → hash_words_meet_target
          (hash (load_block 4 (with_nonce (take 12 tail16) nonce)))
          (load_target 8 target)
        ≡ meets nonce) where
  scan_loop-keep :
      (left i : ℕ) (tail_words : List ℕ)
      → ((nonce : ℕ)
          → IsWord nonce
          → set tail_words 3 (bswap32 nonce) ≡ load_block 4 (with_nonce (take 12 tail16) nonce))
      → map
          (λ (m : Match). m.nonce)
          (scan_loop hash (load_target 8 target) start true left i tail_words)
        ≡ keep meets (nonces start left i)
  unfolding scan_loop
  scan_loop-keep zero i tail_words at = refl
  scan_loop-keep (suc left) i tail_words at =
      let nonce = u32 (start + i) in
      let tail_words' = set tail_words 3 (bswap32 nonce) in
      let small : IsWord nonce = omega arith in
      let rest =
        scan_loop-keep left (i + 1) tail_words'
          (λ n p. set-set tail_words 3 (bswap32 nonce) (bswap32 n) ∙ at n p) in
      let test : hash_words_meet_target (hash tail_words') (load_target 8 target) ≡ meets nonce =
        ap (λ t. hash_words_meet_target (hash t) (load_target 8 target)) (at nonce small)
        ∙ agree nonce small in
      elim (Bool-cases (meets nonce)) [
        | inl e ↦ rw (test, e) (ap (◌∷◌ nonce) rest)
        | inr e ↦ rw (test, e) rest
      ]

  scan_keeps :
      (count : ℕ)
      → map
          (λ (m : Match). m.nonce)
          (scan_nonce_range hash (load_target 8 target) start true count (load_block 4 tail16))
        ≡ keep meets (nonces start count 0)
  unfolding scan_nonce_range
  scan_keeps count =
      scan_loop-keep count 0 (load_block 4 tail16) (λ n p. set-load_block tail16 n ht p)

-- The header with a nonce in its last four bytes.
abbrev pub header_with : List ℕ → List ℕ → ℕ → List ℕ
header_with first tail16 nonce = first ++ with_nonce (take 12 tail16) nonce

with_nonce_lem :
    (tail16 : List ℕ) (nonce : ℕ)
    → length tail16 ≡ 16
    → All IsByte tail16
    → (length (with_nonce (take 12 tail16) nonce) ≡ 16)
      × All IsByte (with_nonce (take 12 tail16) nonce)
unfolding store_le32
with_nonce_lem tail16 nonce e h = (
  omega (arith, length-append (take 12 tail16) (store_le32 nonce), length-take 12 tail16),
  All-append IsByte (take 12 tail16) (store_le32 nonce) (All-take IsByte 12 tail16 h) (omega arith),
)

-- With a hash function that serves the job of the header, and a target of 32 bytes, a scan with a
-- callback reports, in order, exactly the nonces of its range for which the double SHA-256 of the
-- header with that nonce meets the target.
pub scan_nonce_range-keep :
    (lib : OpenSsl) (first tail16 target : List ℕ) (hash : List ℕ → List ℕ) (start count : ℕ)
    → IsHeaderHash lib first hash
    → length tail16 ≡ 16
    → All IsByte tail16
    → length target ≡ 32
    → All IsByte target
    → map
        (λ (m : Match). m.nonce)
        (scan_nonce_range hash (load_target 8 target) start true count (load_block 4 tail16))
      ≡ keep
          (λ nonce. hash_meets_target (sha256d_80 lib (header_with first tail16 nonce)) target)
          (nonces start count 0)
scan_nonce_range-keep lib first tail16 target hash start count serves ht bytes hg bytes_target =
    scan_keeps hash target start _ tail16 ht
      (λ nonce small.
        let tail = with_nonce (take 12 tail16) nonce in
        let (len, tail_bytes) = with_nonce_lem tail16 nonce ht bytes in
        let (eight, words) = serves.words tail len tail_bytes in
        hash_words_meet_target-hash_meets_target (hash (load_block 4 tail)) target eight hg words
          bytes_target
        ∙ ap (λ t. hash_meets_target t target) (serves.digest tail len tail_bytes))
      count
