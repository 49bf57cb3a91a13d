-- ===== src/Run/Released.antt =====
-- What the setup of src/proxy_server.c holds when it is over.
use concurrent_http_proxy_se.Base.{
  ℕ, ◌≡◌, refl, ap, ◌∙◌, mem, Bool, true, false, if◌then◌else◌, Option, none, some, [], ◌∷◌,
}
use concurrent_http_proxy_se.Cache.{Cache}
use concurrent_http_proxy_se.Config.{Config}
use concurrent_http_proxy_se.Metrics
use concurrent_http_proxy_se.Metrics.{Metrics}
use concurrent_http_proxy_se.Metrics.Counts.{is_open}
use concurrent_http_proxy_se.Run.{
  Resource, library, counters, objects, workers, acquires, releases, Host, Acts, destroy_metrics,
  Startup, start_failed, started, pooled, cached, listened, counted, setup, teardown,
}
use concurrent_http_proxy_se.Sockets.{Trace, close}
use concurrent_http_proxy_se.Sockets.Connect.{Connected}
use concurrent_http_proxy_se.Sockets.Listener.{create_listener-Connected}
use concurrent_http_proxy_se.Sockets.Open.{
  IsProper, open_sockets, Keeps, Keeps-refl, remove, mem-head, remove-head,
}
use concurrent_http_proxy_se.Threads.{Pool}

abbrev same_resource : Resource → Resource → Bool
same_resource library library = true
same_resource counters counters = true
same_resource objects objects = true
same_resource workers workers = true
same_resource _ _ = false

-- Whether a resource is held.
unfoldable pub holds : Resource → Acts → Bool
holds r [] = false
holds r (acquires q ∷ acts) = if same_resource r q then true else holds r acts
holds r (releases q ∷ acts) = if same_resource r q then false else holds r acts

-- Nothing is acquired twice, and nothing is released that is not held.
unfoldable pub IsPaired : Acts → Type 0
unfolding holds
IsPaired [] = Unit
IsPaired (acquires q ∷ acts) = (holds q acts ≡ false) × IsPaired acts
IsPaired (releases q ∷ acts) = (holds q acts ≡ true) × IsPaired acts

-- After a failure nothing is held and the sockets are those of before; otherwise everything is held,
-- and the listener is the only new socket.
abbrev pub IsSetUp : Trace → Startup → Type 0
IsSetUp t (start_failed u acts) =
    Keeps t u × IsPaired acts × ((r : Resource) → holds r acts ≡ false)
IsSetUp t (started listener m c p u acts) =
    (open_sockets u ≡ listener ∷ open_sockets t)
    × (IsProper t → IsProper u)
    × (is_open m ≡ true)
    × IsPaired acts
    × ((r : Resource) → holds r acts ≡ true)

every :
    (P : Resource → Type 0) → P library → P counters → P objects → P workers → (r : Resource) → P r
every P a b c d library = a
every P a b c d counters = b
every P a b c d objects = c
every P a b c d workers = d

abbrev with_library : Acts
with_library = acquires library ∷ []

abbrev with_counters : Acts
with_counters = acquires counters ∷ with_library

abbrev with_objects : Acts
with_objects = acquires objects ∷ with_counters

module _ (t : Trace) where
  close-Keeps :
      (s : ℕ) (u : Trace)
      → open_sockets u ≡ s ∷ open_sockets t
      → (IsProper t → IsProper u)
      → Keeps t (close u s)
  close-Keeps s u e proper = record {
    same_open = ap (remove s) e ∙ remove-head s (open_sockets t);
    proper = λ p. (ap (mem s) e ∙ mem-head s (open_sockets t), proper p);
  }

  module _ (m : Metrics.Counters) (s : ℕ) (u : Trace) (added : open_sockets u ≡ s ∷ open_sockets t)
      (proper : IsProper t → IsProper u) where
    pooled-IsSetUp :
        (c : Cache) (o : Option Pool) → IsSetUp t (pooled u with_objects s (some m) c o)
    unfolding holds IsPaired destroy_metrics is_open
    pooled-IsSetUp c none = (
      close-Keeps s u added proper,
      (refl, (refl, (refl, (refl, (refl, (refl, tt)))))),
      every _ refl refl refl refl,
    )
    pooled-IsSetUp c (some p) =
        (added, proper, refl, (refl, (refl, (refl, (refl, tt)))), every _ refl refl refl refl)

    cached-IsSetUp :
        (host : Host) (config : Config) (o : Option Cache)
        → IsSetUp t (cached host config u with_counters s (some m) o)
    unfolding holds IsPaired destroy_metrics
    cached-IsSetUp host config none = (
      close-Keeps s u added proper,
      (refl, (refl, (refl, (refl, tt)))),
      every _ refl refl refl refl,
    )
    cached-IsSetUp host config (some c) = pooled-IsSetUp c _

  listened-IsSetUp :
      (host : Host) (config : Config) (m : Metrics.Counters) (r : Option ℕ × Trace)
      → Connected host.os t r
      → IsSetUp t (listened host config with_counters (some m) r)
  unfolding holds IsPaired destroy_metrics
  listened-IsSetUp host config m (none, u) (keeps, silent) =
      (keeps, (refl, (refl, (refl, (refl, tt)))), every _ refl refl refl refl)
  listened-IsSetUp host config m (some s, u) (opens, silent) =
      cached-IsSetUp m s u opens.added opens.proper host config _

  counted-IsSetUp :
      (host : Host) (config : Config) (m : Metrics)
      → IsSetUp t (counted host config t with_library m)
  unfolding holds IsPaired
  counted-IsSetUp host config none = (Keeps-refl t, (refl, (refl, tt)), every _ refl refl refl refl)
  counted-IsSetUp host config (some m) =
      listened-IsSetUp host config m _ (create_listener-Connected host.os host.net config.port 16 t)

  -- proxy_server_run up to its accept loop, whatever the system answers: on every failure each
  -- resource that was acquired is released once and the sockets are those of before; otherwise the
  -- counters, the cache and the pool are there, and the listener is the only new socket.
  pub setup-IsSetUp : (host : Host) (config : Option Config) → IsSetUp t (setup host t config)
  unfolding setup holds IsPaired
  setup-IsSetUp host none = (Keeps-refl t, tt, every _ refl refl refl refl)
  setup-IsSetUp host (some config) =
      counted-IsSetUp host config (Metrics.create host.metrics_memory)

-- The teardown releases each of the resources once, and then none is held.
pub teardown-IsPaired :
    (m : Metrics) (acts : Acts)
    → is_open m ≡ true
    → IsPaired acts
    → ((r : Resource) → holds r acts ≡ true)
    → IsPaired (teardown m acts) × ((r : Resource) → holds r (teardown m acts) ≡ false)
unfolding teardown holds IsPaired destroy_metrics is_open
teardown-IsPaired none acts o paired all = absurd (cc o)
teardown-IsPaired (some m) acts o paired all = (
  (all library, (all objects, (all counters, (all workers, paired)))),
  every _ refl refl refl refl,
)
