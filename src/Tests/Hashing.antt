-- ===== src/Tests/Hashing.antt =====
-- Tests and instances of the theorems on hashing, at the header of the first block of the chain.
use btcrig.Fips
use btcrig.Base.{
  ℕ, ◌-◌, ◌≡◌, refl, true, List, [], ◌∷◌, ◌++◌, map, arith, leb, take, replicate, All,
}
use btcrig.Word.{rotr32, bswap32, load_be32, load_le32}
use btcrig.Word.Swap.{IsByte}
use btcrig.Target.{hash_words_meet_target, hash_meets_target, load_target}
use btcrig.Target.Order.{value}
use btcrig.Target.Agree.{hash_meets_target_lem, hash_words_meet_target-hash_meets_target}
use btcrig.Sha256d.OpenSsl.{OpenSsl, IsFips}
use btcrig.Sha256d.Constants.{initial_state}
use btcrig.Sha256d.Compress.{compress_block, compress_words, load_block}
use btcrig.Sha256d.Compress.Refines.{compress_block-compress}
use btcrig.Sha256d.Midstate.{words_to_hash, sha256d_80, midstate_prepare, hash_openssl, hash_fast_c}
use btcrig.Sha256d.Midstate.Header.{
  IsHeaderHash, hash_openssl-IsHeaderHash, hash_fast_c-IsHeaderHash,
}
use btcrig.Sha256d.Backend.{fast_c, Build, midstate_hash}
use btcrig.Sha256d.Backend.Serves.{no_kernels, midstate_hash-sha256d_80}
use btcrig.Sha256d.Scan.{Match, scan_nonce_range}
use btcrig.Sha256d.Scan.Finds.{nonces, keep, header_with, scan_nonce_range-keep}

-- A library that does what FIPS 180-4 says.
abbrev fips_lib : OpenSsl
fips_lib = record {
  Ctx = List ℕ;
  words = λ c. c;
  init = initial_state;
  update = λ c block. Fips.compress c (Fips.to_words block);
  transform = λ c block. Fips.compress c (Fips.to_words block);
  sha256 = Fips.sha256;
}

fips_lib-IsFips : IsFips fips_lib
fips_lib-IsFips = record {
  words_init = refl;
  words_update = λ block e h. refl;
  words_transform = λ ctx block e h. refl;
  sha256_digest = λ message h. refl;
}

abbrev first64 : List ℕ
first64 =
    0x01 ∷ 0x00 ∷ 0x00 ∷ 0x00 ∷ 0x00 ∷ 0x00 ∷ 0x00 ∷ 0x00 ∷ 0x00 ∷ 0x00 ∷ 0x00 ∷ 0x00 ∷ 0x00 ∷ 0x00
    ∷ 0x00 ∷ 0x00 ∷ 0x00 ∷ 0x00 ∷ 0x00 ∷ 0x00 ∷ 0x00 ∷ 0x00 ∷ 0x00 ∷ 0x00 ∷ 0x00 ∷ 0x00 ∷ 0x00
    ∷ 0x00 ∷ 0x00 ∷ 0x00 ∷ 0x00 ∷ 0x00 ∷ 0x00 ∷ 0x00 ∷ 0x00 ∷ 0x00 ∷ 0x3b ∷ 0xa3 ∷ 0xed ∷ 0xfd
    ∷ 0x7a ∷ 0x7b ∷ 0x12 ∷ 0xb2 ∷ 0x7a ∷ 0xc7 ∷ 0x2c ∷ 0x3e ∷ 0x67 ∷ 0x76 ∷ 0x8f ∷ 0x61 ∷ 0x7f
    ∷ 0xc8 ∷ 0x1b ∷ 0xc3 ∷ 0x88 ∷ 0x8a ∷ 0x51 ∷ 0x32 ∷ 0x3a ∷ 0x9f ∷ 0xb8 ∷ 0xaa ∷ []

abbrev tail16 : List ℕ
tail16 =
    0x4b ∷ 0x1e ∷ 0x5e ∷ 0x4a ∷ 0x29 ∷ 0xab ∷ 0x5f ∷ 0x49 ∷ 0xff ∷ 0xff ∷ 0x00 ∷ 0x1d ∷ 0x1d ∷ 0xac
    ∷ 0x2b ∷ 0x7c ∷ []

-- The target of the block, lowest byte first.
abbrev block_target : List ℕ
block_target =
    0x00 ∷ 0x00 ∷ 0x00 ∷ 0x00 ∷ 0x00 ∷ 0x00 ∷ 0x00 ∷ 0x00 ∷ 0x00 ∷ 0x00 ∷ 0x00 ∷ 0x00 ∷ 0x00 ∷ 0x00
    ∷ 0x00 ∷ 0x00 ∷ 0x00 ∷ 0x00 ∷ 0x00 ∷ 0x00 ∷ 0x00 ∷ 0x00 ∷ 0x00 ∷ 0x00 ∷ 0x00 ∷ 0x00 ∷ 0xff
    ∷ 0xff ∷ 0x00 ∷ 0x00 ∷ 0x00 ∷ 0x00 ∷ []

abbrev first32 : List ℕ
first32 = take 32 first64

abbrev block_nonce : ℕ
block_nonce = 2083236893

abbrev junk : List ℕ
junk = replicate 48 0xdead

first64-IsByte : All IsByte first64
first64-IsByte = omega arith

tail16-IsByte : All IsByte tail16
tail16-IsByte = omega arith

block_target-IsByte : All IsByte block_target
block_target-IsByte = omega arith

-- The specification gives the known digest of "abc".
sha256_abc :
    Fips.final_state (b'a' ∷ b'b' ∷ b'c' ∷ [])
    ≡ 0xba78_16bf ∷ 0x8f01_cfea ∷ 0x4141_40de ∷ 0x5dae_2223 ∷ 0xb003_61a3 ∷ 0x9617_7a9c
      ∷ 0xb410_ff61 ∷ 0xf200_15ad ∷ []
unfolding Fips.final_state Fips.fold_blocks Fips.pad Fips.compress Fips.message_schedule Fips.extend
    Fips.next_word Fips.rounds Fips.round Fips.add_words Fips.to_words Fips.to_bytes rotr32
sha256_abc = refl

-- The scan finds the nonce of the block, and not the one before it.
scan_finds_block :
    map
      (λ (m : Match). m.nonce)
      (scan_nonce_range
        (hash_fast_c junk (compress_block junk initial_state first64))
        (load_target 8 block_target)
        (block_nonce - 1)
        true
        2
        (load_block 4 tail16))
    ≡ block_nonce ∷ []
unfolding scan_nonce_range hash_fast_c compress_block compress_words load_block load_target
    load_be32 load_le32 bswap32 rotr32 hash_words_meet_target
scan_finds_block = refl

compress_block-compress_example :
    compress_block junk initial_state first64 ≡ Fips.compress initial_state (Fips.to_words first64)
compress_block-compress_example =
    compress_block-compress junk initial_state first64 refl refl refl first64-IsByte

hash_openssl-IsHeaderHash_example :
    IsHeaderHash fips_lib first64 (hash_openssl fips_lib (midstate_prepare fips_lib junk first64))
hash_openssl-IsHeaderHash_example =
    hash_openssl-IsHeaderHash fips_lib fips_lib-IsFips first64 refl first64-IsByte junk

hash_fast_c-IsHeaderHash_example :
    IsHeaderHash fips_lib first64
      (hash_fast_c junk (midstate_prepare fips_lib junk first64).fast_state)
hash_fast_c-IsHeaderHash_example =
    hash_fast_c-IsHeaderHash fips_lib fips_lib-IsFips first64 refl first64-IsByte junk junk refl
      refl

scan_nonce_range-keep_example :
    map
      (λ (m : Match). m.nonce)
      (scan_nonce_range
        (hash_openssl fips_lib (midstate_prepare fips_lib junk first64))
        (load_target 8 block_target)
        (block_nonce - 1)
        true
        2
        (load_block 4 tail16))
    ≡ keep
        (λ nonce.
          hash_meets_target (sha256d_80 fips_lib (header_with first64 tail16 nonce)) block_target)
        (nonces (block_nonce - 1) 2 0)
scan_nonce_range-keep_example =
    scan_nonce_range-keep fips_lib first64 tail16 block_target
      (hash_openssl fips_lib (midstate_prepare fips_lib junk first64)) (block_nonce - 1) 2
      (hash_openssl-IsHeaderHash fips_lib fips_lib-IsFips first64 refl first64-IsByte junk) refl
      tail16-IsByte refl block_target-IsByte

hash_meets_target_lem_example :
    hash_meets_target first32 block_target ≡ leb (value 256 32 first32) (value 256 32 block_target)
hash_meets_target_lem_example =
    hash_meets_target_lem first32 block_target refl refl (omega arith) block_target-IsByte

hash_words_meet_target-hash_meets_target_example :
    hash_words_meet_target initial_state (load_target 8 block_target)
    ≡ hash_meets_target (words_to_hash initial_state) block_target
hash_words_meet_target-hash_meets_target_example =
    hash_words_meet_target-hash_meets_target initial_state block_target refl refl (omega arith)
      block_target-IsByte

abbrev bare : Build fips_lib
bare = no_kernels

midstate_hash-sha256d_80_example :
    midstate_hash bare junk fast_c (midstate_prepare fips_lib junk first64) tail16
    ≡ sha256d_80 fips_lib (first64 ++ tail16)
midstate_hash-sha256d_80_example =
    midstate_hash-sha256d_80 fips_lib junk fast_c first64 tail16 fips_lib-IsFips refl refl
      first64-IsByte refl tail16-IsByte
