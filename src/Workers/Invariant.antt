-- ===== src/Workers/Invariant.antt =====
-- What holds in every state that the workers reach, whatever their order.
use concurrent_http_proxy_se.Base.{
  ℕ, suc, ◌+◌, ◌<◌, ◌≤◌, ◌^◌, ◌≡◌, refl, sym, ap, subst, ◌∙◌, arith, length, length-mid, All,
  All-append, All-left, All-mid, All-right, Bool, true, false, if◌then◌else◌, some, none, List, [],
  ◌∷◌, ◌++◌,
}
use native.Mathlib.Nat.{mod-eq_of_lt}
use concurrent_http_proxy_se.Bytes.{Bytes}
use concurrent_http_proxy_se.Cache.{Cache, no_value}
use concurrent_http_proxy_se.Cache.Memory.{AllHold, put-AllHold, get-AllHold}
use concurrent_http_proxy_se.Metrics.{Metrics}
use concurrent_http_proxy_se.Metrics.Counts.{
  Event, connect, disconnect, apply, active, is_open, apply-is_open,
}
use concurrent_http_proxy_se.Metrics.Counts
use concurrent_http_proxy_se.Workers.{Start, Handler, over, counts}
use concurrent_http_proxy_se.Workers.Shared.{
  Shared, Step, begins, calls_metrics, calls_get, calls_put, ends, Reachable, start, next,
}
use concurrent_http_proxy_se.Workers.Sound.{is_connected, Fetched, IsSound, handle-IsSound}

abbrev one : Bool → ℕ
one b = if b then 1 else 0

-- The handlers between their connect and their disconnect.
unfoldable pub connected : List Handler → ℕ
connected [] = 0
connected (h ∷ hs) = one (is_connected h) + connected hs

connected-mid :
    (xs : List Handler) (h : Handler) (ys : List Handler)
    → connected (xs ++ (h ∷ ys)) ≡ one (is_connected h) + connected (xs ++ ys)
unfolding connected
connected-mid [] h ys = refl
connected-mid (x ∷ xs) h ys = omega (arith, connected-mid xs h ys)

connected-le-length : (hs : List Handler) → connected hs ≤ length hs
unfolding connected
connected-le-length [] = omega arith
connected-le-length (h ∷ hs) = ground (arith, connected-le-length hs)

-- One of the list.
abbrev pub Among : Start → List Start → Type 0
Among b begun = (xs ys : List Start) × (begun ≡ xs ++ (b ∷ ys))

-- Fetched by a handler of the list, under its key.
abbrev pub IsFetched : List Start → Bytes × Bytes → Type 0
IsFetched begun e = (b : Start) × Among b begun × Fetched b e.0 e.1

-- What a handler of the list keeps to.
abbrev IsHandler : List Start → Handler → Type 0
IsHandler begun h = (b : Start) × Among b begun × IsSound b h

All-map {ℓ κ μ} :
    {A : Type ℓ} (P : A → Type κ) (Q : A → Type μ) (l : List A)
    → ((x : A) → P x → Q x)
    → All P l
    → All Q l
All-map P Q [] f h = tt
All-map P Q (x ∷ l) f h = (f x h.0, All-map P Q l f h.1)

-- A later handler does not matter.
later-IsFetched :
    (a : Start) (begun : List Start) (e : Bytes × Bytes)
    → IsFetched begun e
    → IsFetched (a ∷ begun) e
later-IsFetched a begun e (b, (xs, ys, is), f) = (b, (a ∷ xs, ys, ap (λ l. a ∷ l) is), f)

later-IsHandler :
    (a : Start) (begun : List Start) (h : Handler) → IsHandler begun h → IsHandler (a ∷ begun) h
later-IsHandler a begun h (b, (xs, ys, is), so) = (b, (a ∷ xs, ys, ap (λ l. a ∷ l) is), so)

-- The gauge counts the connected handlers, and the cache holds only what was fetched under its key.
pub record IsShared (workers total object : ℕ) (s : Shared) : Type 0 where
  pub opened : is_open s.metrics ≡ true
  pub gauge : active s.metrics ≡ connected s.handlers
  pub few : length s.handlers ≤ workers
  pub sound : All (IsHandler s.begun) s.handlers
  pub cached : AllHold (IsFetched s.begun) total object s.cache

-- One call of src/metrics.c, by what its handler is before and after.
active-apply :
    (b : Start) (e : Event) (m : Metrics) (h : Handler) (n : ℕ)
    → is_open m ≡ true
    → IsSound b (counts e h)
    → n + 1 < 2 ^ 64
    → active m ≡ one (is_connected (counts e h)) + n
    → (active (apply e m) ≡ one (is_connected h) + n) × IsSound b h
unfolding Counts.run active is_open is_connected IsSound
active-apply b connect (some m) h n o s small e =
    (ground (arith, s.0, mod-eq_of_lt {n = m.active_connections + 1} {m = 2 ^ 64}), s.1)
active-apply b disconnect (some m) h n o s small e = (ground (arith, s.0), s.1)
active-apply b e none h n o s small g = absurd (cc o)
active-apply b e (some m) h n o s small g = (g, s)

module _ {workers total object : ℕ} (small : workers < 2 ^ 64) where
  -- A step of the handler between `xs` and `ys`, which is `h` before and `g` after.
  module _ {s : Shared} (i : IsShared workers total object s) (xs : List Handler) (h g : Handler)
      (ys : List Handler) (at : s.handlers ≡ xs ++ (h ∷ ys)) where
    here : IsHandler s.begun h × All (IsHandler s.begun) (xs ++ ys)
    here = All-mid (IsHandler s.begun) xs h ys (subst (All (IsHandler s.begun)) at i.sound)

    gauge_here : active s.metrics ≡ one (is_connected h) + connected (xs ++ ys)
    gauge_here = i.gauge ∙ ap connected at ∙ connected-mid xs h ys

    few_here : suc (length (xs ++ ys)) ≤ workers
    few_here = omega (arith, i.few, ap length at, length-mid xs h ys)

    stepped :
        (metrics : Metrics) (cache : Cache)
        → is_open metrics ≡ true
        → active metrics ≡ one (is_connected g) + connected (xs ++ ys)
        → IsHandler s.begun g
        → AllHold (IsFetched s.begun) total object cache
        → IsShared workers total object (record {
          metrics = metrics;
          cache = cache;
          handlers = xs ++ (g ∷ ys);
          begun = s.begun;
        })
    stepped metrics cache o e so held = record {
      opened = o;
      gauge = e ∙ sym (connected-mid xs g ys);
      few = omega (arith, few_here, length-mid xs g ys);
      sound =
          All-append (IsHandler s.begun) xs (g ∷ ys) (All-left (IsHandler s.begun) xs ys here.1)
            (so, All-right (IsHandler s.begun) xs ys here.1);
      cached = held;
    }

  Step-IsShared :
      {s t : Shared}
      → IsShared workers total object s
      → Step workers s t
      → IsShared workers total object t
  unfolding connected is_connected IsSound
  Step-IsShared {s} i (begins b room) =
      let (off, so) = handle-IsSound b.rounds b.network b.trace b.client in
      let (m, held, all) = i.cached in
      record {
        opened = i.opened;
        gauge = ground (arith, i.gauge, off);
        few = omega (arith, room);
        sound = (
          (b, ([], s.begun, refl), so),
          All-map (IsHandler s.begun) (IsHandler (b ∷ s.begun)) s.handlers
              (later-IsHandler b s.begun) i.sound,
        );
        cached = (
          m,
          held,
          All-map (IsFetched s.begun) (IsFetched (b ∷ s.begun)) m (later-IsFetched b s.begun) all,
        );
      }
  Step-IsShared {s} i (calls_metrics xs e h ys at) =
      let (b, among, keeps) = (here i xs _ h ys at).0 in
      let (gauge, so) =
        active-apply b e s.metrics h (connected (xs ++ ys)) i.opened keeps
          (omega (arith, small, few_here i xs _ h ys at, connected-le-length (xs ++ ys)))
          (gauge_here i xs _ h ys at) in
      stepped i xs _ h ys at (apply e s.metrics) s.cache (apply-is_open e s.metrics ∙ i.opened)
        gauge (b, among, so) i.cached
  Step-IsShared {s} i (calls_get xs t key f ys copied status value cache at is) =
      let (b, among, keeps) = (here i xs _ (f (status, value)) ys at).0 in
      let (same, so) = keeps (status, value) in
      let (m, held, all) = i.cached in
      stepped i xs _ (f (status, value)) ys at s.metrics cache i.opened
        (gauge_here i xs _ (f (status, value)) ys at
          ∙ ap (λ b. one b + connected (xs ++ ys)) (sym same))
        (b, among, so)
        (subst (AllHold (IsFetched s.begun) total object) (ap (λ r. r.2) is)
          (get-AllHold (IsFetched s.begun) key no_value copied held all))
  Step-IsShared {s} i (calls_put xs t key bytes f ys a status evicted cache at free is) =
      let (b, among, keeps) = (here i xs _ (f (status, evicted)) ys at).0 in
      let (fetched, answers) = keeps in
      let (same, so) = answers (status, evicted) in
      let (m, held, all) = i.cached in
      stepped i xs _ (f (status, evicted)) ys at s.metrics cache i.opened
        (gauge_here i xs _ (f (status, evicted)) ys at
          ∙ ap (λ b. one b + connected (xs ++ ys)) (sym same))
        (b, among, so)
        (subst (AllHold (IsFetched s.begun) total object) (ap (λ r. r.2) is)
          (put-AllHold (IsFetched s.begun) key bytes a false held all (b, among, fetched) free))
  Step-IsShared {s} i (ends xs t ys at) = record {
    opened = i.opened;
    gauge = omega (arith, gauge_here i xs (over t) (over t) ys at);
    few = omega (arith, few_here i xs (over t) (over t) ys at);
    sound = (here i xs (over t) (over t) ys at).1;
    cached = i.cached;
  }

  pub reachable-IsShared :
      {s t : Shared}
      → IsShared workers total object s
      → Reachable workers s t
      → IsShared workers total object t
  reachable-IsShared i start = i
  reachable-IsShared i (next r step) = Step-IsShared (reachable-IsShared i r) step
