-- ===== src/Url/Printed.antt =====
-- A written address is parsed as what it was written from, by the session and by the proxy.
use mathlib.Core.List.{append-nil}
use btcrig.Base.{
  ℕ, suc, ◌+◌, ◌-◌, ◌<◌, ◌≡◌, refl, ap, ◌∙◌, ◌≢◌, Bool, true, false, Option, none, some, List, [],
  ◌∷◌, ◌++◌, arith, leb, ◌==◌, length, take, length-append, All-append, take_whole, take-append,
}
use btcrig.CString.{codes, copy_checked, copy_cut}
use btcrig.Url.{
  before_first, pool_scheme, checked_endpoint, host_and_port, parse_pool_url, proxy_scheme,
  cut_endpoint, parse_endpoint,
}
use btcrig.Url.Split.{Lacks, before_first-append, before_first_whole, split_last-append}

-- The ways to begin an address. With a flag for `stratum+` and for `ssl` in place of `tls`, an
-- address is plain, verified or insecure; the proxy knows the first two.
pub data Kind : Type 0 where
  plain verified insecure : Kind

abbrev pub scheme_text : Kind → Bool → Bool → List ℕ
scheme_text plain true ssl = codes "stratum+tcp://"
scheme_text plain false ssl = codes "tcp://"
scheme_text verified true true = codes "stratum+ssl://"
scheme_text verified true false = codes "stratum+tls://"
scheme_text verified false true = codes "ssl://"
scheme_text verified false false = codes "tls://"
scheme_text insecure true true = codes "stratum+ssl-insecure://"
scheme_text insecure true false = codes "stratum+tls-insecure://"
scheme_text insecure false true = codes "ssl-insecure://"
scheme_text insecure false false = codes "tls-insecure://"

abbrev pub is_tls : Kind → Bool
is_tls plain = false
is_tls verified = true
is_tls insecure = true

abbrev pub is_verified : Kind → Bool
is_verified plain = true
is_verified verified = true
is_verified insecure = false

-- A path starts with a slash.
abbrev pub path_text : Option (List ℕ) → List ℕ
path_text none = []
path_text (some p) = b'/' ∷ p

abbrev pub address : List ℕ → List ℕ → Option (List ℕ) → List ℕ
address host port path = (host ++ (b':' ∷ port)) ++ path_text path

-- What a host and a port have to be for the arrays and for the delimiters.
pub record IsAddress (host port : List ℕ) : Type 0 where
  pub host_size : length host < 256
  pub host_some : 0 < length host
  pub port_size : length port < 16
  pub port_some : 0 < length port
  pub host_slash : Lacks b'/' host
  pub port_slash : Lacks b'/' port
  pub port_colon : Lacks b':' port

-- The cut text before the path.
before_path :
    (host port : List ℕ) (path : Option (List ℕ))
    → IsAddress host port
    → before_first b'/' (copy_cut 320 (address host port path)) ≡ host ++ (b':' ∷ port)
unfolding copy_cut
before_path host port none a =
    let hp = host ++ (b':' ∷ port) in
    let size : length hp ≡ length host + suc (length port) = length-append host (b':' ∷ port) in
    let no_slash : Lacks b'/' hp =
      All-append (λ x. (x == b'/') ≡ false) host (b':' ∷ port) a.host_slash (refl, a.port_slash) in
    ap (before_first b'/') (
      take-append 319 (host ++ (b':' ∷ port)) [] (omega (arith, a.host_size, a.port_size))
      ∙ ap (λ t. hp ++ t) (take_whole (319 - length hp) [] (omega arith))
      ∙ append-nil hp)
    ∙ before_first_whole b'/' hp no_slash
before_path host port (some p) a =
    let hp = host ++ (b':' ∷ port) in
    let size : length hp ≡ length host + suc (length port) = length-append host (b':' ∷ port) in
    let no_slash : Lacks b'/' hp =
      All-append (λ x. (x == b'/') ≡ false) host (b':' ∷ port) a.host_slash (refl, a.port_slash) in
    let more : 319 - length hp ≡ suc (318 - length hp) = omega (arith, a.host_size, a.port_size) in
    ap (before_first b'/') (
      take-append 319 hp (b'/' ∷ p) (omega (arith, a.host_size, a.port_size))
      ∙ ap (λ k. hp ++ take k (b'/' ∷ p)) more)
    ∙ before_first-append b'/' hp (take (318 - length hp) p) no_slash

host_and_port-address :
    (use_tls : Bool) (host port : List ℕ)
    → IsAddress host port
    → host_and_port use_tls (host ++ (b':' ∷ port)) ≡ (host, port)
unfolding host_and_port
host_and_port-address use_tls host port a =
    rw (host_and_port, split_last-append b':' host port a.port_colon) refl

checked_endpoint-address :
    (use_tls verify_tls : Bool) (host port : List ℕ)
    → IsAddress host port
    → checked_endpoint use_tls verify_tls host port
      ≡ some (record { host = host; port = port; use_tls = use_tls; verify_tls = verify_tls })
unfolding checked_endpoint copy_checked
checked_endpoint-address use_tls verify_tls host port a =
    let host_fits : leb 256 (length host) ≡ false = ground (arith, a.host_size) in
    let port_fits : leb 16 (length port) ≡ false = ground (arith, a.port_size) in
    let host_there : (length host == 0) ≡ false = ground (arith, a.host_some) in
    let port_there : (length port == 0) ≡ false = ground (arith, a.port_some) in
    rw (host_fits, port_fits, host_there, port_there) refl

address_there :
    (host port : List ℕ) (path : Option (List ℕ)) → (length (address host port path) == 0) ≡ false
address_there host port path = ground (
  arith,
  length-append (host ++ (b':' ∷ port)) (path_text path),
  length-append host (b':' ∷ port),
)

pool_scheme-text :
    (kind : Kind) (stratum ssl : Bool) (rest : List ℕ)
    → pool_scheme (scheme_text kind stratum ssl ++ rest)
      ≡ record { use_tls = is_tls kind; verify_tls = is_verified kind; rest = rest }
unfolding pool_scheme
pool_scheme-text plain true ssl rest = refl
pool_scheme-text plain false ssl rest = refl
pool_scheme-text verified true true rest = refl
pool_scheme-text verified true false rest = refl
pool_scheme-text verified false true rest = refl
pool_scheme-text verified false false rest = refl
pool_scheme-text insecure true true rest = refl
pool_scheme-text insecure true false rest = refl
pool_scheme-text insecure false true rest = refl
pool_scheme-text insecure false false rest = refl

-- An address of any kind, with a host and a port that fit and have no delimiters in them, with or
-- without a path, is parsed as that host and port, with the flags of its kind.
pub parse_pool_url-address :
    (kind : Kind) (stratum ssl : Bool) (host port : List ℕ) (path : Option (List ℕ))
    → IsAddress host port
    → parse_pool_url (scheme_text kind stratum ssl ++ address host port path)
      ≡ some (record {
        host = host;
        port = port;
        use_tls = is_tls kind;
        verify_tls = is_verified kind;
      })
unfolding parse_pool_url
parse_pool_url-address kind stratum ssl host port path a =
    rw
      (
        parse_pool_url,
        pool_scheme-text kind stratum ssl (address host port path),
        address_there host port path,
        before_path host port path a,
        host_and_port-address (is_tls kind) host port a,
      )
      (checked_endpoint-address (is_tls kind) (is_verified kind) host port a)

proxy_scheme-text :
    (kind : Kind) (stratum ssl : Bool) (rest : List ℕ)
    → kind ≢ insecure
    → proxy_scheme (scheme_text kind stratum ssl ++ rest) ≡ (is_tls kind, rest)
unfolding proxy_scheme
proxy_scheme-text plain true ssl rest h = refl
proxy_scheme-text plain false ssl rest h = refl
proxy_scheme-text verified true true rest h = refl
proxy_scheme-text verified true false rest h = refl
proxy_scheme-text verified false true rest h = refl
proxy_scheme-text verified false false rest h = refl
proxy_scheme-text insecure stratum ssl rest h = absurd (h refl)

cut_endpoint-address :
    (use_tls : Bool) (host port : List ℕ)
    → IsAddress host port
    → cut_endpoint use_tls host port ≡ some (record { host = host; port = port; use_tls = use_tls })
unfolding cut_endpoint copy_cut
cut_endpoint-address use_tls host port a =
    let host_there : (length host == 0) ≡ false = ground (arith, a.host_some) in
    let port_there : (length port == 0) ≡ false = ground (arith, a.port_some) in
    rw
      (
        take_whole 255 host (omega (arith, a.host_size)),
        take_whole 15 port (omega (arith, a.port_size)),
        host_there,
        port_there,
      )
      refl

-- The proxy parses the same addresses in the same way, those apart that turn the verification off.
pub parse_endpoint-address :
    (kind : Kind) (stratum ssl : Bool) (host port : List ℕ) (path : Option (List ℕ))
    → kind ≢ insecure
    → IsAddress host port
    → parse_endpoint (scheme_text kind stratum ssl ++ address host port path)
      ≡ some (record { host = host; port = port; use_tls = is_tls kind })
unfolding parse_endpoint
parse_endpoint-address kind stratum ssl host port path known a =
    rw
      (
        parse_endpoint,
        proxy_scheme-text kind stratum ssl (address host port path) known,
        address_there host port path,
        before_path host port path a,
        host_and_port-address (is_tls kind) host port a,
      )
      (cut_endpoint-address (is_tls kind) host port a)
