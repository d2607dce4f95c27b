-- ===== src/Stratum/Connection/Modes.antt =====
-- Which connection an address comes to.
use btcrig.Base.{◌≡◌, refl, ap, ◌∙◌, inl, inr, Bool, true, false, ◌&&◌, none, some, Bool-cases}
use btcrig.Url.{PoolEndpoint}
use btcrig.Stratum.Connection.{Attempt, Attempts, conn_open_once, open_plain, open_again, conn_open}

-- A handshake that fails opens nothing.
once_fails :
    (verify_tls : Bool) (a : Attempt)
    → a.handshake_works ≡ false
    → (conn_open_once true verify_tls a).0 ≡ none
unfolding conn_open_once
once_fails verify_tls a failed = elim (Bool-cases a.tcp_works) [
  | inr down ↦ rw (down, conn_open_once) refl
  | inl up ↦ elim (Bool-cases a.tls_there) [
    | inr missing ↦ rw (up, missing, conn_open_once) refl
    | inl there ↦ rw (up, there, failed, conn_open_once) refl
  ]
]

plain_opens :
    (endpoint : PoolEndpoint) (a : Attempts)
    → endpoint.use_tls ≡ true
    → a.plain.tcp_works ≡ true
    → open_plain endpoint a ≡ some (record { use_tls = false; verified = false })
unfolding open_plain conn_open_once
plain_opens endpoint a tls tcp = rw (tls, tcp, open_plain) refl

again_opens :
    (endpoint : PoolEndpoint) (a : Attempts) (handshake_failed : Bool)
    → endpoint.use_tls ≡ true
    → a.compatible.handshake_works ≡ false
    → a.plain.tcp_works ≡ true
    → open_again endpoint a handshake_failed ≡ some (record { use_tls = false; verified = false })
unfolding open_again
again_opens endpoint a handshake_failed tls second tcp =
    let plain = plain_opens endpoint a tls tcp in
    let nothing : (conn_open_once endpoint.use_tls false a.compatible).0 ≡ none =
      ap (λ b. (conn_open_once b false a.compatible).0) tls
      ∙ once_fails false a.compatible second in
    elim (Bool-cases (endpoint.use_tls && endpoint.verify_tls && handshake_failed)) [
      | inl retried ↦ rw (retried, nothing, open_again) plain
      | inr not_retried ↦ rw (not_retried, open_again) plain
    ]

-- An address with TLS whose handshakes fail, the verified one included, is connected without TLS as soon
-- as plain TCP works.
pub conn_open-downgrades :
    (endpoint : PoolEndpoint) (a : Attempts)
    → endpoint.use_tls ≡ true
    → a.asked.handshake_works ≡ false
    → a.compatible.handshake_works ≡ false
    → a.plain.tcp_works ≡ true
    → conn_open endpoint a ≡ some (record { use_tls = false; verified = false })
unfolding conn_open
conn_open-downgrades endpoint a tls first second tcp =
    let nothing : (conn_open_once endpoint.use_tls endpoint.verify_tls a.asked).0 ≡ none =
      ap (λ b. (conn_open_once b endpoint.verify_tls a.asked).0) tls
      ∙ once_fails endpoint.verify_tls a.asked first in
    rw (nothing, conn_open)
      (again_opens endpoint a (conn_open_once endpoint.use_tls endpoint.verify_tls a.asked).1 tls
        second tcp)
