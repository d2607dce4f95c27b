-- ===== src/ShareQueue.antt =====
-- The ring of shares in `struct miner` (src/miner.c): the fields `shares`, `share_head`,
-- `share_tail` and `share_count`, with the parts of `queue_share_locked`, `miner_pop_share` and
-- `miner_set_job` that touch them. A slot is `none` until it is first written.
pub mod Fifo
use btcrig.Base.{
  ℕ, zero, suc, ◌+◌, ◌-◌, ◌*◌, ◌/◌, ◌%◌, ◌^◌, ◌≤◌, ◌<◌, min, max, bit_and, bit_or, bit_xor, ◌≡◌,
  refl, sym, ap, ap₂, ◌∙◌, subst, ◌≢◌, ◌↔◌, ◌⊎◌, inl, inr, Bool, true, false, not, ◌&&◌, ◌||◌,
  Option, none, some, List, [], ◌∷◌, ◌++◌, map, arith, ltb, leb, ◌==◌, if◌then◌else◌, ltb→lt,
  lt→ltb, leb→le, ==_iff, tests, Bool-cases, Option-cases, length, get_or, set, take, drop,
  replicate, All, length-append, length-set, length-take, length-drop, length-replicate,
  take-append-drop, take_append, drop_append, get_or-set_self, get_or-set_ne, get_or-take,
  get_or_ext, All-append, All-take, All-drop, All-get_or, length-map,
}

-- SHARE_QUEUE_SIZE
abbrev pub queue_size : ℕ
queue_size = 256

pub record ShareQueue {ℓ} (A : Type ℓ) : Type ℓ where
  pub shares : List (Option A)
  pub share_head : ℕ
  pub share_tail : ℕ
  pub share_count : ℕ

module _ {ℓ} {A : Type ℓ} where
  -- The zeroed memory of `calloc`.
  unfoldable pub empty : ShareQueue A
  empty = record {
    shares = replicate queue_size none;
    share_head = 0;
    share_tail = 0;
    share_count = 0;
  }

  -- A share is dropped when the ring is full.
  unfoldable pub push : ShareQueue A → A → ShareQueue A
  push q share = if leb queue_size q.share_count then q else record q {
    shares = set q.shares q.share_tail (some share);
    share_tail = (q.share_tail + 1) % queue_size;
    share_count = q.share_count + 1;
  }

  -- The flag `found`, what `*share` is set to, and the ring after.
  unfoldable pub pop : ShareQueue A → Bool × Option A × ShareQueue A
  pop q =
      if ltb 0 q.share_count
      then (
        true,
        get_or q.shares q.share_head none,
        record q { share_head = (q.share_head + 1) % queue_size; share_count = q.share_count - 1 },
      )
      else (false, none, q)

  -- A new job forgets the shares, and leaves the slots as they are.
  unfoldable pub clear : ShareQueue A → ShareQueue A
  clear q = record q { share_head = 0; share_tail = 0; share_count = 0 }
