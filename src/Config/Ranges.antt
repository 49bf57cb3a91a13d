-- ===== src/Config/Ranges.antt =====
-- The settings that src/config.c accepts are in range.
use concurrent_http_proxy_se.Base.{
  ℕ, ◌^◌, ◌≤◌, ◌<◌, ◌≡◌, refl, subst, arith, ltb, leb, ◌==◌, if◌then◌else◌, Bool, true, false, not,
  ◌&&◌, ◌||◌, Option, none, some, List, [], ◌∷◌, ◌⊎◌, inl, inr, some_injective, bind_then,
  if_not_some,
}
use concurrent_http_proxy_se.Bytes.{Bytes, codes, bytes_eq}
use concurrent_http_proxy_se.Config.{
  Config, defaults, is_out_of_long, int_of, size_of, set_port, set_workers, set_cache_size,
  set_log_level, parse_int_arg, unsigned, parse_size_arg, set_flag, Parsed, help, invalid, accepted,
  parse_from, parse_args,
}
use concurrent_http_proxy_se.Parser.{strtol}
use concurrent_http_proxy_se.Logger.{parse_level}

-- Settings in the ranges that the program promises.
pub record IsConfig (c : Config) : Type 0 where
  pub port_from : 1 ≤ c.port
  pub port_to : c.port ≤ 65535
  pub workers_from : 1 ≤ c.worker_count
  pub workers_to : c.worker_count ≤ 256
  pub cache_from : 1 ≤ c.cache_size_bytes
  pub cache_to : c.cache_size_bytes < 2 ^ 64

parse_int_arg_lem :
    (value : Bytes) (low high n : ℕ)
    → parse_int_arg value low high ≡ some n
    → (low ≤ n) × (n ≤ high)
unfolding parse_int_arg
parse_int_arg_lem value low high n e =
    bind_then (strtol value) (int_of low high) e λ (negative, m, rest) _ e1.
      let (_, e2) = if_not_some (is_out_of_long negative m || not (bytes_eq rest [])) e1 in
      let (ok, e3) = if_not_some ((negative && ltb 0 m) || ltb m low || ltb high m) e2 in
      let same = some_injective e3 in (ground (arith, ok, same), ground (arith, ok, same))

unsigned_lem : (negative : Bool) (n : ℕ) → n < 2 ^ 64 → unsigned negative n < 2 ^ 64
unsigned_lem true n h = ground arith
unsigned_lem false n h = h

parse_size_arg_lem :
    (value : Bytes) (n : ℕ) → parse_size_arg value ≡ some n → (1 ≤ n) × (n < 2 ^ 64)
unfolding parse_size_arg
parse_size_arg_lem value n e = bind_then (strtol value) size_of e λ (negative, m, rest) _ e1.
    let (fits, e2) = if_not_some (leb (2 ^ 64) m || not (bytes_eq rest [])) e1 in
    let (ok, e3) = if_not_some (unsigned negative m == 0) e2 in
    let same = some_injective e3 in
    let small : unsigned negative m < 2 ^ 64 = unsigned_lem negative m (ground (arith, fits)) in
    (ground (arith, ok, same), omega (arith, small, same))

if_either :
    {A : Type 0} (b : Bool) {x y : Option A} {d : A}
    → (if b then x else y) ≡ some d
    → (x ≡ some d) ⊎ (y ≡ some d)
if_either true e = inl e
if_either false e = inr e

module _ (c d : Config) (value : Bytes) (v : IsConfig c) where
  set_port-IsConfig : set_port c value ≡ some d → IsConfig d
  set_port-IsConfig e =
      bind_then (parse_int_arg value 1 65535) (λ n. some (record c { port = n })) e
        λ n f g.
          let (low, high) = parse_int_arg_lem value 1 65535 n f in
          subst IsConfig (some_injective g) (record {
            port_from = low;
            port_to = high;
            workers_from = v.workers_from;
            workers_to = v.workers_to;
            cache_from = v.cache_from;
            cache_to = v.cache_to;
          })

  set_workers-IsConfig : set_workers c value ≡ some d → IsConfig d
  set_workers-IsConfig e =
      bind_then (parse_int_arg value 1 256) (λ n. some (record c { worker_count = n })) e
        λ n f g.
          let (low, high) = parse_int_arg_lem value 1 256 n f in
          subst IsConfig (some_injective g) (record {
            port_from = v.port_from;
            port_to = v.port_to;
            workers_from = low;
            workers_to = high;
            cache_from = v.cache_from;
            cache_to = v.cache_to;
          })

  set_cache_size-IsConfig : set_cache_size c value ≡ some d → IsConfig d
  set_cache_size-IsConfig e =
      bind_then (parse_size_arg value) (λ n. some (record c { cache_size_bytes = n })) e
        λ n f g.
          let (low, high) = parse_size_arg_lem value n f in
          subst IsConfig (some_injective g) (record {
            port_from = v.port_from;
            port_to = v.port_to;
            workers_from = v.workers_from;
            workers_to = v.workers_to;
            cache_from = low;
            cache_to = high;
          })

  set_log_level-IsConfig : set_log_level c value ≡ some d → IsConfig d
  set_log_level-IsConfig e =
      bind_then (parse_level value) (λ l. some (record c { log_level = l })) e
        λ l f g. subst IsConfig (some_injective g) (record {
          port_from = v.port_from;
          port_to = v.port_to;
          workers_from = v.workers_from;
          workers_to = v.workers_to;
          cache_from = v.cache_from;
          cache_to = v.cache_to;
        })

  set_flag-IsConfig : (flag : Bytes) → set_flag c flag value ≡ some d → IsConfig d
  unfolding set_flag
  set_flag-IsConfig flag e = elim (if_either (bytes_eq flag (codes "--port")) e) [
    | inl p ↦ set_port-IsConfig p
    | inr e1 ↦ elim (if_either (bytes_eq flag (codes "--workers")) e1) [
      | inl p ↦ set_workers-IsConfig p
      | inr e2 ↦ elim (if_either (bytes_eq flag (codes "--cache-size")) e2) [
        | inl p ↦ set_cache_size-IsConfig p
        | inr e3 ↦ elim (if_either (bytes_eq flag (codes "--log-level")) e3) [
          | inl p ↦ set_log_level-IsConfig p
          | inr e4 ↦ absurd (cc e4)
        ]
      ]
    ]
  ]

abbrev AllInRange : Parsed → Type 0
AllInRange help = Unit
AllInRange invalid = Unit
AllInRange (accepted c) = IsConfig c

parse_from-IsConfig : (c : Config) (args : List Bytes) → IsConfig c → AllInRange (parse_from c args)
unfolding parse_from
parse_from-IsConfig c [] v = v
parse_from-IsConfig c (flag ∷ []) v = by_help (bytes_eq flag (codes "--help"))
  where
    by_help : (b : Bool) → AllInRange (if b then help else invalid)
    by_help true = tt
    by_help false = tt
parse_from-IsConfig c (flag ∷ value ∷ rest) v =
    by_help (bytes_eq flag (codes "--help"))
      (by_flag (set_flag c flag value) refl λ d w. parse_from-IsConfig d rest w)
  where
    next : Option Config → Parsed
    next o = elim o [ none ↦ invalid | some d ↦ parse_from d rest ]

    by_flag :
        (o : Option Config)
        → set_flag c flag value ≡ o
        → ((d : Config) → IsConfig d → AllInRange (parse_from d rest))
        → AllInRange (next o)
    by_flag none e ih = tt
    by_flag (some d) e ih = ih d (set_flag-IsConfig c d value v flag e)

    by_help :
        (b : Bool)
        → AllInRange (next (set_flag c flag value))
        → AllInRange (if b then help else next (set_flag c flag value))
    by_help true h = tt
    by_help false h = h

-- The settings that proxy_config_parse_args accepts are in range, whatever the arguments are: a port
-- from 1 to 65535, 1 to 256 workers and a cache of at least one byte, of which size_t holds the size.
pub parse_args-IsConfig :
    (args : List Bytes) (c : Config) → parse_args args ≡ accepted c → IsConfig c
unfolding parse_args defaults
parse_args-IsConfig args c e = subst AllInRange e (
    parse_from-IsConfig defaults args (record {
      port_from = omega arith;
      port_to = omega arith;
      workers_from = omega arith;
      workers_to = omega arith;
      cache_from = omega arith;
      cache_to = omega arith;
    }))
