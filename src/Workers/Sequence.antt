-- ===== src/Workers/Sequence.antt =====
-- A worker that nobody interrupts is one of the runs of the workers.
use concurrent_http_proxy_se.Base.{
  ℕ, ◌<◌, ◌≡◌, refl, subst, ◌∙◌, false, some, some_injective, length, List, [], ◌∷◌,
}
use concurrent_http_proxy_se.Cache
use concurrent_http_proxy_se.Cache.{no_value}
use concurrent_http_proxy_se.Cache.Failure.{IsUnused}
use concurrent_http_proxy_se.Metrics.Counts.{apply}
use concurrent_http_proxy_se.Server
use concurrent_http_proxy_se.Server.{World, Allocator}
use concurrent_http_proxy_se.Sockets.{Os}
use concurrent_http_proxy_se.Workers.{
  Start, Handler, over, unfinished, counts, looks_up, puts, handle,
}
use concurrent_http_proxy_se.Workers.Alone.{alone, alone-handle}
use concurrent_http_proxy_se.Workers.Shared.{
  Shared, Reachable, next, begins, calls_metrics, calls_get, calls_put, ends,
}

-- What a worker shares, with the handlers that run.
abbrev shared : World → List Handler → List Start → Shared
shared w handlers begun = record {
  metrics = w.metrics;
  cache = w.cache;
  handlers = handlers;
  begun = begun;
}

module _ (workers : ℕ) (alloc : Allocator)
    (free : (u : World) → IsUnused u.cache (alloc.blocks u).entry) (s : Shared) (ys : List Handler)
    (begun : List Start) where
  alone-Reachable :
      (h : Handler) (w v : World)
      → alone alloc w h ≡ some v
      → Reachable workers s (shared w (h ∷ ys) begun)
      → Reachable workers s (shared v ys begun)
  unfolding alone
  alone-Reachable (over t) w v e r =
      subst (λ u. Reachable workers s (shared u ys begun)) (some_injective e)
        (next r (ends [] t ys refl))
  alone-Reachable unfinished w v e r = absurd (cc e)
  alone-Reachable (counts e h) w v is r =
      alone-Reachable h (record w { metrics = apply e w.metrics }) v is
        (next r (calls_metrics [] e h ys refl))
  alone-Reachable (looks_up t key f) w v e r =
      let u = record w { trace = t } in
      let a = Cache.get u.cache (some key) no_value (alloc.copy u) in
      alone-Reachable (f (a.0, a.1)) (record u { cache = a.2 }) v e
        (next r (calls_get [] t key f ys (alloc.copy u) a.0 a.1 a.2 refl refl))
  alone-Reachable (puts t key bytes f) w v e r =
      let u = record w { trace = t } in
      let a = Cache.put u.cache (some key) (some bytes) (length bytes) (alloc.blocks u) false in
      alone-Reachable (f (a.0, a.1)) (record u { cache = a.2 }) v e
        (next r (calls_put [] t key bytes f ys (alloc.blocks u) a.0 a.1 a.2 refl (free u) refl))

-- A worker is free, and the allocator gives no block in use: what process_client_connection does from
-- beginning to end, with nobody in between, leads to a state that the workers reach.
process-Reachable :
    (workers : ℕ) (alloc : Allocator)
    → ((u : World) → IsUnused u.cache (alloc.blocks u).entry)
    → (s : Shared) (ys : List Handler) (begun : List Start) (fuel : ℕ) (os : Os) (client : ℕ)
      (w v : World)
    → length ys < workers
    → Server.process fuel os alloc w client ≡ some v
    → Reachable workers s (shared w ys begun)
    → Reachable workers s (
        shared v ys
          (record { rounds = fuel; network = os; trace = w.trace; client = client } ∷ begun))
process-Reachable workers alloc free s ys begun fuel os client w v room e r =
    let b : Start = record { rounds = fuel; network = os; trace = w.trace; client = client } in
    alone-Reachable workers alloc free s ys (b ∷ begun) (handle fuel os w.trace client) w v
      (alone-handle fuel os alloc client w ∙ e) (next r (begins b room))
