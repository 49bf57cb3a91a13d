-- ===== src/Metrics/Tests.antt =====
-- A run of the counters of src/metrics.c, and the theorems about them at it.
use concurrent_http_proxy_se.Base.{◌≡◌, refl, some, List, [], ◌∷◌, arith}
use concurrent_http_proxy_se.Metrics.{Metrics, create}
use concurrent_http_proxy_se.Metrics.Counts.{
  Event, request, connect, received, miss, sent, disconnect, run, read, bytes_out, read-run, total,
  is_open,
}

abbrev miss_path : List Event
miss_path = request ∷ connect ∷ received 90 ∷ connect ∷ miss ∷ sent 512 ∷ disconnect ∷ []

-- A size_t that is about to wrap around.
abbrev nearly_full : Metrics
nearly_full = run (sent 0xffff_ffff_ffff_ffff ∷ []) (create (some tt))

read-run_example : read bytes_out (run miss_path nearly_full) ≡ 511
unfolding run read total create is_open
read-run_example = read-run bytes_out miss_path nearly_full refl (omega arith)
