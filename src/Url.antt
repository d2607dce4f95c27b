-- ===== src/Url.antt =====
-- The addresses of stratum.c and proxy_main.c: parse_pool_url, parse_endpoint and parse_host_port.
-- `none` is the -1, after which no caller looks at the endpoint.
pub mod Split
pub mod Printed
use btcrig.Base.{
  ℕ, zero, suc, ◌+◌, ◌-◌, ◌*◌, ◌/◌, ◌%◌, ◌^◌, ◌≤◌, ◌<◌, min, max, bit_and, bit_or, bit_xor, ◌≡◌,
  refl, sym, ap, ap₂, ◌∙◌, subst, ◌≢◌, ◌↔◌, ◌⊎◌, inl, inr, Bool, true, false, not, ◌&&◌, ◌||◌,
  Option, none, some, List, [], ◌∷◌, ◌++◌, map, arith, ltb, leb, ◌==◌, if◌then◌else◌, ltb→lt,
  lt→ltb, leb→le, ==_iff, tests, Bool-cases, Option-cases, length, get_or, set, take, drop,
  replicate, All, length-append, length-set, length-take, length-drop, length-replicate,
  take-append-drop, take_append, drop_append, get_or-set_self, get_or-set_ne, get_or-take,
  get_or_ext, All-append, All-take, All-drop, All-get_or, length-map, ◌>>=◌,
}
use btcrig.CString.{codes, starts_with, copy_checked, copy_cut}

-- What stands before the first `c`: `strchr` and a zero written there.
unfoldable pub before_first : ℕ → List ℕ → List ℕ
before_first c [] = []
before_first c (x ∷ xs) = if x == c then [] else x ∷ before_first c xs

unfoldable pub cons_left : ℕ → List ℕ × List ℕ → List ℕ × List ℕ
cons_left x (before, after) = (x ∷ before, after)

-- `strrchr` and a zero written there: what stands before the last `c`, and after it.
unfoldable pub split_last : ℕ → List ℕ → Option (List ℕ × List ℕ)
unfolding cons_left
split_last c [] = none
split_last c (x ∷ xs) = elim (split_last c xs) [
  | some parts ↦ some (cons_left x parts)
  | none ↦ if x == c then some ([], xs) else none
]

-- The prefix of an address: its flags, and where the host starts.
pub record Scheme : Type 0 where
  pub use_tls : Bool
  pub verify_tls : Bool
  pub rest : List ℕ

unfoldable pub pool_scheme : List ℕ → Scheme
pool_scheme p =
    if starts_with p (codes "stratum+tcp://")
    then record { use_tls = false; verify_tls = true; rest = drop 14 p }
    else if starts_with p (codes "stratum+tls-insecure://")
        || starts_with p (codes "stratum+ssl-insecure://")
    then record { use_tls = true; verify_tls = false; rest = drop 23 p }
    else if starts_with p (codes "stratum+tls://")
    then record { use_tls = true; verify_tls = true; rest = drop 14 p }
    else if starts_with p (codes "stratum+ssl://")
    then record { use_tls = true; verify_tls = true; rest = drop 14 p }
    else if starts_with p (codes "tcp://")
    then record { use_tls = false; verify_tls = true; rest = drop 6 p }
    else if starts_with p (codes "tls-insecure://") || starts_with p (codes "ssl-insecure://")
    then record { use_tls = true; verify_tls = false; rest = drop 15 p }
    else if starts_with p (codes "tls://") || starts_with p (codes "ssl://")
    then record { use_tls = true; verify_tls = true; rest = drop 6 p }
    else record { use_tls = false; verify_tls = true; rest = p }

-- `pool_endpoint_t`
pub record PoolEndpoint : Type 0 where
  pub host : List ℕ
  pub port : List ℕ
  pub use_tls : Bool
  pub verify_tls : Bool

-- The copies, and the test that neither is empty; a default port never is.
unfoldable pub checked_endpoint : Bool → Bool → List ℕ → List ℕ → Option PoolEndpoint
unfolding copy_checked
checked_endpoint use_tls verify_tls host port = do
  h ← copy_checked 256 host
  q ← copy_checked 16 port
  (if (length h == 0) || (length q == 0)
      then none
      else some (record { host = h; port = q; use_tls = use_tls; verify_tls = verify_tls }))

unfoldable pub default_port : Bool → List ℕ
default_port use_tls = if use_tls then codes "4333" else codes "3333"

-- Host and port of the text before the path.
unfoldable pub host_and_port : Bool → List ℕ → List ℕ × List ℕ
unfolding split_last default_port
host_and_port use_tls hostport = elim (split_last b':' hostport) [
  | none ↦ (hostport, default_port use_tls)
  | some parts ↦ parts
]

unfoldable pub parse_pool_url : List ℕ → Option PoolEndpoint
unfolding pool_scheme checked_endpoint host_and_port before_first copy_cut
parse_pool_url url =
    let s = pool_scheme url in
    if length s.rest == 0
    then none
    else let (host, port) = host_and_port s.use_tls (before_first b'/' (copy_cut 320 s.rest)) in
      checked_endpoint s.use_tls s.verify_tls host port

-- Those of proxy_main.c: no scheme turns the verification off, and what is too long is cut.
unfoldable pub proxy_scheme : List ℕ → Bool × List ℕ
proxy_scheme p =
    if starts_with p (codes "stratum+tcp://")
    then (false, drop 14 p)
    else if starts_with p (codes "stratum+tls://") || starts_with p (codes "stratum+ssl://")
    then (true, drop 14 p)
    else if starts_with p (codes "tcp://")
    then (false, drop 6 p)
    else if starts_with p (codes "tls://") || starts_with p (codes "ssl://")
    then (true, drop 6 p)
    else (false, p)

-- `endpoint_t`
pub record Endpoint : Type 0 where
  pub host : List ℕ
  pub port : List ℕ
  pub use_tls : Bool

unfoldable pub cut_endpoint : Bool → List ℕ → List ℕ → Option Endpoint
unfolding copy_cut
cut_endpoint use_tls host port =
    let h = copy_cut 256 host in
    let q = copy_cut 16 port in
    if (length h == 0) || (length q == 0)
    then none
    else some (record { host = h; port = q; use_tls = use_tls })

unfoldable pub parse_endpoint : List ℕ → Option Endpoint
unfolding proxy_scheme cut_endpoint host_and_port before_first copy_cut
parse_endpoint url =
    let (use_tls, rest) = proxy_scheme url in
    if length rest == 0
    then none
    else let (host, port) = host_and_port use_tls (before_first b'/' (copy_cut 320 rest)) in
      cut_endpoint use_tls host port

-- The host and the port of a listener; an empty host is every address.
unfoldable pub parse_host_port : List ℕ → Option (List ℕ × List ℕ)
unfolding split_last copy_cut
parse_host_port text =
    if length text == 0 then none else elim (split_last b':' (copy_cut 320 text)) [
      | none ↦ none
      | some (before, after) ↦
          let host = copy_cut 256 (if length before == 0 then codes "0.0.0.0" else before) in
          let port = copy_cut 16 after in
          if (length host == 0) || (length port == 0) then none else some (host, port)
    ]
