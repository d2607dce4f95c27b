-- ===== src/Stratum/Client/Flush.antt =====
-- Where every send succeeds, flush_shares submits the shares that wait, the oldest first.
use mathlib.Core.List.{append_assoc, append-nil}
use btcrig.Base.{
  ℕ, zero, suc, ◌+◌, ◌≤◌, ◌≡◌, refl, sym, ap, ◌∙◌, Bool, true, none, some, List, [], ◌∷◌, ◌++◌,
  arith, length,
}
use btcrig.Word.{u64}
use btcrig.Sha256d.OpenSsl.{OpenSsl}
use btcrig.Sha256d.Midstate.{Midstate}
use btcrig.ShareQueue.{pop}
use btcrig.ShareQueue.Fifo.{Holds, pop-empty, pop-Holds}
use btcrig.Miner.{Miner, Share}
use btcrig.Miner.Control.{pop_share}
use btcrig.Job.{Doubles}
use btcrig.Stratum.Json.{Json}
use btcrig.Stratum.Session.{Session, flush_share, register_pending_share}
use btcrig.Stratum.Client.{
  Request, submit, Client, next_share, flush_next, flush_loop, waiting_shares, flush_shares,
}

-- The submits of shares, with ids from `id` on.
abbrev pub submits : {D : Type 0} → List ℕ → ℕ → List (Share D) → List (Request D)
submits user id [] = []
submits user id (share ∷ shares) = submit id user share ∷ submits user (id + 1) shares

module _ (lib : OpenSsl) (F : Doubles) (J : Json F.Double) where
  -- The miner of a session, with the shares that wait in it.
  abbrev pub Waiting : Session lib F.Double → List (Share F.Double) → Type 0
  Waiting s q = (m : Miner (Midstate lib) F.Double) × (s.miner ≡ some m) × Holds m.queue q

  next_share-Waiting :
      (s : Session lib F.Double) (x : Share F.Double) (q : List (Share F.Double))
      → Waiting s (x ∷ q)
      → next_share lib F J s ≡ some x
  unfolding next_share pop_share
  next_share-Waiting s x q w =
      let found = pop-Holds w.0.queue x q w.2 in rw (w.1, found.0, found.1, next_share) refl

  next_share-none : (s : Session lib F.Double) → Waiting s [] → next_share lib F J s ≡ none
  unfolding next_share pop_share
  next_share-none s w = let found = pop-empty w.0.queue w.2 in rw (w.1, found, next_share) refl

  flush_share-Waiting :
      (s : Session lib F.Double) (x : Share F.Double) (q : List (Share F.Double)) (id : ℕ)
      (now : F.Double)
      → Waiting s (x ∷ q)
      → Waiting (flush_share lib F s id true now).1 q
        × ((flush_share lib F s id true now).1.submit_count ≡ u64 (s.submit_count + 1))
  unfolding flush_share register_pending_share pop_share
  flush_share-Waiting s x q id now w =
      let found = pop-Holds w.0.queue x q w.2 in
      let m' : Miner (Midstate lib) F.Double = record w.0 { queue = (pop w.0.queue).2 } in
      rw (w.1, found.0, found.1, flush_share) ((m', refl, found.2), refl)

  -- The counter of the submits behind `n` of them.
  abbrev pub counted : ℕ → ℕ → ℕ
  counted zero count = count
  counted (suc n) count = counted n (u64 (count + 1))

  flush_loop-submits :
      (user : List ℕ) (works : ℕ → Bool) (time : ℕ → F.Double) (n : ℕ) (c : Client lib F.Double)
      (q : List (Share F.Double))
      → ((i : ℕ) → works i ≡ true)
      → Waiting c.session q
      → length q ≤ n
      → (after : Client lib F.Double) × (flush_loop lib F J user works time n c ≡ (true, after))
        × (after.sent ≡ c.sent ++ submits user c.next_rpc_id q)
        × (after.session.submit_count ≡ counted (length q) c.session.submit_count)
        × Waiting after.session []
  unfolding flush_loop flush_next
  flush_loop-submits user works time zero c [] good w h =
      (c, refl, sym (append-nil c.sent), refl, w)
  flush_loop-submits user works time zero c (x ∷ q) good w h = absurd (omega arith)
  flush_loop-submits user works time (suc n) c [] good w h = (
    c,
    (rw (next_share-none c.session w, flush_loop, flush_next) refl),
    sym (append-nil c.sent),
    refl,
    w,
  )
  flush_loop-submits user works time (suc n) c (x ∷ q) good w h =
      let id = c.next_rpc_id in
      let noted = flush_share-Waiting c.session x q id (time n) w in
      let next : Client lib F.Double = record c {
        session = (flush_share lib F c.session id true (time n)).1;
        next_rpc_id = id + 1;
        sent = c.sent ++ (submit id user x ∷ []);
      } in
      let rest = flush_loop-submits user works time n next q good noted.0 (omega arith) in
      (
        rest.0,
        (rw (next_share-Waiting c.session x q w, good n, flush_loop, flush_next) rest.1),
        rest.2 ∙ append_assoc c.sent (submit id user x ∷ []) (submits user (id + 1) q),
        rest.3 ∙ ap (counted (length q)) noted.1,
        rest.4,
      )

  -- Where every send succeeds, flush_shares reports no failure, submits all shares that wait, the
  -- oldest first, with ids that go on from the next one, counts them, and leaves none waiting.
  pub flush_shares-submits :
      (user : List ℕ) (works : ℕ → Bool) (time : ℕ → F.Double) (c : Client lib F.Double)
      (q : List (Share F.Double))
      → ((i : ℕ) → works i ≡ true)
      → Waiting c.session q
      → (after : Client lib F.Double) × (flush_shares lib F J user works time c ≡ (true, after))
        × (after.sent ≡ c.sent ++ submits user c.next_rpc_id q)
        × (after.session.submit_count ≡ counted (length q) c.session.submit_count)
        × Waiting after.session []
  unfolding flush_shares waiting_shares
  flush_shares-submits user works time c q good w =
      let same : waiting_shares lib F J c.session ≡ length q =
        rw (w.1, waiting_shares) (w.2.count) in
      flush_loop-submits user works time (waiting_shares lib F J c.session) c q good w (omega arith)
