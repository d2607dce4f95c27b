-- ===== src/Job/Builds.antt =====
-- What miner_build_job makes of a well-formed template: the parts are given as bytes, and their
-- prints are the strings of the call.
use btcrig.Base.{
  ℕ, ◌<◌, ◌≡◌, refl, sym, ap, ◌∙◌, subst, false, some, List, [], ◌∷◌, ◌++◌, map, arith, leb, length,
  replicate, All, All-append, ◌>>=◌,
}
use btcrig.CString.{copy_checked}
use btcrig.Word.Swap.{IsByte}
use btcrig.Hex.{hex_to_bytes, hex_to_alloc}
use btcrig.Hex.RoundTrip.{
  to_hex, to_hex-append, length-to_hex, hex_to_bytes-to_hex, hex_to_alloc-to_hex,
}
use btcrig.Hex.Header.{swap_words, hex_u32_to_le-to_hex, prevhash_to_header_bytes-to_hex}
use btcrig.Sha256d.OpenSsl.{OpenSsl}
use btcrig.Job.{Doubles, Template, sha256d_data, merkle_loop, build_job, target_from_difficulty}

-- A template before it is printed.
pub record Parts (Double : Type 0) : Type 0 where
  pub job_id : List ℕ
  pub prevhash : List ℕ
  pub coinb1 : List ℕ
  pub extranonce1 : List ℕ
  pub extranonce2 : List ℕ
  pub coinb2 : List ℕ
  pub branches : List (List ℕ)
  pub version : List ℕ
  pub nbits : List ℕ
  pub ntime : List ℕ
  pub difficulty : Double

abbrev pub IsBytes : ℕ → List ℕ → Type 0
IsBytes n bs = (length bs ≡ n) × All IsByte bs

-- The sizes of the fields, and room for the copied strings.
pub record IsWell {D : Type 0} (p : Parts D) : Type 0 where
  pub job_id : length p.job_id < 128
  pub prevhash : IsBytes 32 p.prevhash
  pub coinb1 : All IsByte p.coinb1
  pub extranonce1 : All IsByte p.extranonce1
  pub extranonce2 : All IsByte p.extranonce2
  pub short : length p.extranonce2 < 16
  pub coinb2 : All IsByte p.coinb2
  pub branches : All (IsBytes 32) p.branches
  pub version : IsBytes 4 p.version
  pub nbits : IsBytes 4 p.nbits
  pub ntime : IsBytes 4 p.ntime

unfoldable pub printed : {D : Type 0} → Parts D → Template D
printed p = record {
  job_id = p.job_id;
  prevhash = to_hex p.prevhash;
  coinb1 = to_hex p.coinb1;
  coinb2 = to_hex p.coinb2;
  merkle = map to_hex p.branches;
  version = to_hex p.version;
  nbits = to_hex p.nbits;
  ntime = to_hex p.ntime;
  extranonce1 = to_hex p.extranonce1;
  extranonce2 = to_hex p.extranonce2;
  difficulty = p.difficulty;
}

copy_checked-some : (size : ℕ) (src : List ℕ) → length src < size → copy_checked size src ≡ some src
unfolding copy_checked
copy_checked-some size src h =
    let fits : leb size (length src) ≡ false = ground arith in rw fits refl

module _ (lib : OpenSsl) where
  -- The Merkle root from the leaf and the branches, the lowest first.
  abbrev pub merkle_root : List (List ℕ) → List ℕ → List ℕ
  merkle_root [] leaf = leaf
  merkle_root (b ∷ bs) leaf = merkle_root bs (sha256d_data lib (leaf ++ b))

  merkle_loop-to_hex :
      (bs : List (List ℕ)) (leaf : List ℕ)
      → All (IsBytes 32) bs
      → merkle_loop lib (map to_hex bs) leaf ≡ some (merkle_root bs leaf)
  unfolding merkle_loop
  merkle_loop-to_hex [] leaf h = refl
  merkle_loop-to_hex (b ∷ bs) leaf h =
      ap (λ r. r >>= λ branch. merkle_loop lib (map to_hex bs) (sha256d_data lib (leaf ++ branch)))
        (subst (λ n. hex_to_bytes (to_hex b) n ≡ some b) h.0.0 (hex_to_bytes-to_hex b h.0.1))
      ∙ merkle_loop-to_hex bs (sha256d_data lib (leaf ++ b)) h.1

  -- The 80 bytes of the header: version, previous hash in words, root, time, bits and a zero nonce.
  abbrev pub header_of : {D : Type 0} → Parts D → List ℕ
  header_of p =
      swap_words p.version
      ++ (swap_words p.prevhash
          ++ (merkle_root p.branches
                (sha256d_data lib (p.coinb1 ++ (p.extranonce1 ++ (p.extranonce2 ++ p.coinb2))))
              ++ (swap_words p.ntime ++ (swap_words p.nbits ++ replicate 4 0))))

  coinbase-to_hex :
      {D : Type 0} (p : Parts D)
      → IsWell p
      → hex_to_alloc
          (to_hex p.coinb1 ++ (to_hex p.extranonce1 ++ (to_hex p.extranonce2 ++ to_hex p.coinb2)))
        ≡ some (p.coinb1 ++ (p.extranonce1 ++ (p.extranonce2 ++ p.coinb2)))
  coinbase-to_hex p w =
      let whole = p.coinb1 ++ (p.extranonce1 ++ (p.extranonce2 ++ p.coinb2)) in
      let joined : to_hex whole
          ≡ to_hex p.coinb1 ++ (to_hex p.extranonce1 ++ (to_hex p.extranonce2 ++ to_hex p.coinb2)) =
        to_hex-append p.coinb1 (p.extranonce1 ++ (p.extranonce2 ++ p.coinb2))
        ∙ ap (λ t. to_hex p.coinb1 ++ t)
            (to_hex-append p.extranonce1 (p.extranonce2 ++ p.coinb2)
              ∙ ap (λ t. to_hex p.extranonce1 ++ t) (to_hex-append p.extranonce2 p.coinb2)) in
      ap hex_to_alloc (sym joined)
      ∙ hex_to_alloc-to_hex whole (
          All-append IsByte p.coinb1 _ w.coinb1 (
            All-append IsByte p.extranonce1 _ w.extranonce1
              (All-append IsByte p.extranonce2 _ w.extranonce2 w.coinb2)))

  -- Every well-formed template is accepted, and gives the header of its parts, with the root folded
  -- from the double hash of the coinbase, and the target of its difficulty.
  pub build_job-printed :
      (F : Doubles) (p : Parts F.Double)
      → IsWell p
      → build_job lib F (printed p)
        ≡ some (record {
          seq = 0;
          job_id = p.job_id;
          extranonce2 = to_hex p.extranonce2;
          ntime = to_hex p.ntime;
          header = header_of p;
          target = target_from_difficulty F p.difficulty;
        })
  unfolding printed build_job
  build_job-printed F p w =
      let coinbase = p.coinb1 ++ (p.extranonce1 ++ (p.extranonce2 ++ p.coinb2)) in
      rw
        (
          copy_checked-some 128 p.job_id w.job_id,
          copy_checked-some 32 (to_hex p.extranonce2) (omega (arith, length-to_hex p.extranonce2)),
          copy_checked-some 16 (to_hex p.ntime) (omega (arith, length-to_hex p.ntime)),
          coinbase-to_hex p w,
          merkle_loop-to_hex p.branches (sha256d_data lib coinbase) w.branches,
          hex_u32_to_le-to_hex p.version w.version.0 w.version.1,
          prevhash_to_header_bytes-to_hex p.prevhash w.prevhash.0 w.prevhash.1,
          hex_u32_to_le-to_hex p.ntime w.ntime.0 w.ntime.1,
          hex_u32_to_le-to_hex p.nbits w.nbits.0 w.nbits.1,
        )
        refl
