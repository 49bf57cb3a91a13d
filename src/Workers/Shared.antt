-- ===== src/Workers/Shared.antt =====
-- The counters, the cache and the handlers that run, and the steps between them in any order.
-- `begun` is the history: what every handler began with, the latest first.
use concurrent_http_proxy_se.Base.{
  ℕ, ◌<◌, ◌≡◌, length, Bool, false, some, List, [], ◌∷◌, ◌++◌, Status,
}
use concurrent_http_proxy_se.Bytes.{Bytes}
use concurrent_http_proxy_se.Cache
use concurrent_http_proxy_se.Cache.{Cache, Value, no_value, Allocation}
use concurrent_http_proxy_se.Cache.Failure.{IsUnused}
use concurrent_http_proxy_se.Metrics
use concurrent_http_proxy_se.Metrics.{Metrics}
use concurrent_http_proxy_se.Metrics.Counts.{Event, apply}
use concurrent_http_proxy_se.Sockets.{Trace}
use concurrent_http_proxy_se.Workers.{Start, Handler, over, counts, looks_up, puts, handle}

pub record Shared : Type 0 where
  pub metrics : Metrics
  pub cache : Cache
  pub handlers : List Handler
  pub begun : List Start

-- Before the first connection: fresh counters and a cache.
abbrev pub fresh : Cache → Shared
fresh c = record { metrics = Metrics.create (some tt); cache = c; handlers = []; begun = [] }

-- A step of one of at most `workers` handlers: it begins with a connection, calls a shared module, or
-- returns. `copied` and `a` are what the allocator gives; it gives no block that is in use.
pub data Step (workers : ℕ) (s : Shared) : Shared → Type 0 where
  begins :
      (b : Start)
      → length s.handlers < workers
      → Step workers s (record s {
        handlers = handle b.rounds b.network b.trace b.client ∷ s.handlers;
        begun = b ∷ s.begun;
      })
  calls_metrics :
      (xs : List Handler) (e : Event) (h : Handler) (ys : List Handler)
      → s.handlers ≡ xs ++ (counts e h ∷ ys)
      → Step workers s (record s { metrics = apply e s.metrics; handlers = xs ++ (h ∷ ys) })
  calls_get :
      (xs : List Handler) (t : Trace) (key : Bytes) (f : Status × Value → Handler)
      (ys : List Handler) (copied : Bool) (status : Status) (value : Value) (cache : Cache)
      → s.handlers ≡ xs ++ (looks_up t key f ∷ ys)
      → Cache.get s.cache (some key) no_value copied ≡ (status, value, cache)
      → Step workers s (record s { cache = cache; handlers = xs ++ (f (status, value) ∷ ys) })
  calls_put :
      (xs : List Handler) (t : Trace) (key bytes : Bytes) (f : Status × Bool → Handler)
      (ys : List Handler) (a : Allocation) (status : Status) (evicted : Bool) (cache : Cache)
      → s.handlers ≡ xs ++ (puts t key bytes f ∷ ys)
      → IsUnused s.cache a.entry
      → Cache.put s.cache (some key) (some bytes) (length bytes) a false ≡ (status, evicted, cache)
      → Step workers s (record s { cache = cache; handlers = xs ++ (f (status, evicted) ∷ ys) })
  ends :
      (xs : List Handler) (t : Trace) (ys : List Handler)
      → s.handlers ≡ xs ++ (over t ∷ ys)
      → Step workers s (record s { handlers = xs ++ ys })

pub data Reachable (workers : ℕ) (s : Shared) : Shared → Type 0 where
  start : Reachable workers s s
  next : {t u : Shared} → Reachable workers s t → Step workers t u → Reachable workers s u
