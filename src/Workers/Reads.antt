-- ===== src/Workers/Reads.antt =====
-- What the workers of src/proxy_server.c may rely on, whatever the others do in between.
use concurrent_http_proxy_se.Base.{
  ℕ, ◌<◌, ◌≤◌, ◌^◌, ◌≡◌, refl, sym, ap, subst, ◌∙◌, arith, length, Bool, true, false, some, none,
  [], some_injective, Option, done,
}
use concurrent_http_proxy_se.Bytes.{Bytes}
use concurrent_http_proxy_se.Cache
use concurrent_http_proxy_se.Cache.{Cache, Value, no_value}
use concurrent_http_proxy_se.Cache.Entries.{All-lookup}
use concurrent_http_proxy_se.Cache.Get.{get-touch, get_failed, answer, found}
use concurrent_http_proxy_se.Cache.Refinement.{create-Holds}
use concurrent_http_proxy_se.Cache.Spec.{lookup, Holds}
use concurrent_http_proxy_se.Lru.{Lru}
use concurrent_http_proxy_se.Metrics
use concurrent_http_proxy_se.Metrics.Counts.{active, is_open}
use concurrent_http_proxy_se.Parser.{Request}
use concurrent_http_proxy_se.Parser.Shape.{IsRequest, parse-IsRequest}
use concurrent_http_proxy_se.Server.{build_cache_key, c_string}
use concurrent_http_proxy_se.Server.Key.{build_cache_key_fits, build_cache_key_injective}
use concurrent_http_proxy_se.Workers.{Start}
use concurrent_http_proxy_se.Workers.Invariant.{
  connected, Among, IsShared, IsFetched, reachable-IsShared,
}
use concurrent_http_proxy_se.Workers.Shared.{Shared, fresh, Reachable}
use concurrent_http_proxy_se.Workers.Sound.{Fetched}

-- The value that holds a copy of these bytes.
abbrev pub value_of : Bytes → Value
value_of bytes = record { bytes = some bytes; size_bytes = length bytes }

-- The lookup of a key that a well-formed cache holds bytes for, by its answer.
found_value :
    (o : Option Bytes) (value : Value)
    → found o ≡ (done, value)
    → (bytes : Bytes) × (o ≡ some bytes) × (value ≡ value_of bytes)
found_value none value e = absurd (cc e)
found_value (some bytes) value e = (bytes, refl, sym (ap (λ a. a.1) e))

-- The state that the server sets up before it accepts connections.
module _ (workers total object : ℕ) (memory : Lru) (old : ℕ → Bytes) (c : Cache)
    (few : workers < 2 ^ 64) (filled : 0 < object) (within : object ≤ total) (word : total < 2 ^ 63)
    (made : Cache.create total object true memory old ≡ some c) where
  fresh-IsShared : IsShared workers total object (fresh c)
  unfolding Metrics.create active is_open connected
  fresh-IsShared =
      let (is, held) = create-Holds total object memory old filled within word in
      record {
        opened = refl;
        gauge = refl;
        few = omega arith;
        sound = tt;
        cached =
            ([], subst (λ d. Holds total object d []) (some_injective (sym is ∙ made)) held, tt);
      }

  reached : {s : Shared} → Reachable workers (fresh c) s → IsShared workers total object s
  reached r = reachable-IsShared few fresh-IsShared r

  -- The server begins with fresh counters, an empty cache and fewer than 2^64 workers. Then in every
  -- state that its workers reach, whatever their order, the gauge of active connections is the number
  -- of handlers that have counted their connection and have not yet counted its end.
  pub active-connected :
      {s : Shared} → Reachable workers (fresh c) s → active s.metrics ≡ connected s.handlers
  active-connected r = (reached r).gauge

  -- A lookup that hits, in any state that the workers reach from fresh counters and an empty cache:
  -- the value holds what a handler of this run captured. That handler read a request from its client
  -- that the parser accepted, its forwarding succeeded with a copy of these bytes, and its request
  -- was for the same method, host, port and path as this one.
  pub get-Fetched :
      {s : Shared} {key : Bytes} {value : Value} {after : Cache} (r : Request) (copied : Bool)
      → Reachable workers (fresh c) s
      → IsRequest r
      → build_cache_key r 4096 ≡ some key
      → Cache.get s.cache (some key) no_value copied ≡ (done, value, after)
      → (bytes : Bytes) × (value ≡ value_of bytes)
        × (b : Start) × Among b s.begun
        × (f : Fetched b key bytes) × (f.asked.method ≡ r.method)
        × (f.asked.host ≡ r.host)
        × (f.asked.port ≡ r.port)
        × (f.asked.path ≡ r.path)
  get-Fetched {s} {key} r false run v k e =
      let (m, held, all) = (reached run).cached in absurd (cc (e, (get_failed key no_value held).0))
  get-Fetched {s} {key} r true run v k e =
      let (m, held, all) = (reached run).cached in
      let (bytes, is, same) =
        found_value (lookup key m) _ (sym (get-touch key no_value held).0 ∙ ap answer e) in
      let (b, among, f) = All-lookup (IsFetched s.begun) key bytes m all is in
      let valid = parse-IsRequest (c_string f.text) f.asked f.accepts in
      let (method, host, port, path) =
        build_cache_key_injective f.asked r key valid v
          (build_cache_key_fits f.asked valid ∙ ap (λ t. some t) (sym f.named)) k in
      (bytes, same, b, among, f, method, host, port, path)
