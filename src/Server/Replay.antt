-- ===== src/Server/Replay.antt =====
-- An object that a worker of src/proxy_server.c fetched is served from the cache afterwards.
use concurrent_http_proxy_se.Base.{
  ℕ, ◌<◌, ◌≤◌, ◌≡◌, ◌≢◌, ◌⊎◌, inl, inr, refl, sym, ap, ◌∙◌, subst, arith, lt→ltb, length, Bool,
  true, false, some, [], ◌∷◌, ◌++◌, append-nil, Status, done, failed,
}
use concurrent_http_proxy_se.Bytes.{Bytes}
use concurrent_http_proxy_se.Cache
use concurrent_http_proxy_se.Cache.{Cache, Value, no_value}
use concurrent_http_proxy_se.Cache.Get.{answer, found, get-touch, take-length}
use concurrent_http_proxy_se.Cache.Put.{allocated}
use concurrent_http_proxy_se.Cache.Refinement.{put-room}
use concurrent_http_proxy_se.Cache.Spec.{Contents, Holds, lookup, touch, room}
use concurrent_http_proxy_se.Forwarder.{Forwarded}
use concurrent_http_proxy_se.Metrics.Counts.{hit, sent, disconnect, run}
use concurrent_http_proxy_se.Metrics.{increment_cache_hits, add_bytes_out}
use concurrent_http_proxy_se.Parser.{Request}
use concurrent_http_proxy_se.Parser.Shape.{IsRequest}
use concurrent_http_proxy_se.Server.{
  World, Allocator, key_text, finish, serve_cached, store, after_forward, looked_up, keyed,
  serve_request,
}
use concurrent_http_proxy_se.Server.Key.{build_cache_key_fits}
use concurrent_http_proxy_se.Server.Store.{stored-cache}
use concurrent_http_proxy_se.Sockets.{Os, Trace, closed, refused, write_all}
use concurrent_http_proxy_se.Sockets.Open.{
  IsOpen, IsProper, open_sockets, remove, output, input, Keeps, Keeps-IsOpen,
}
use concurrent_http_proxy_se.Sockets.Write.{
  Written, write_all-Written, write_all_keeps, write_all-Keeps, output-write_all, input-write_all,
}

-- What a hit on `b` does: one hit, the bytes and the end of the connection are counted, the client gets
-- `b` in order, all of it unless the system refused a `send`, its socket is closed, and nothing goes
-- over any other socket.
pub record Replayed (client : ℕ) (b : Bytes) (w v : World) : Type 0 where
  pub counted : v.metrics ≡ run (hit ∷ sent (length b) ∷ disconnect ∷ []) w.metrics
  pub part : Bytes
  pub left : Bytes
  pub whole : b ≡ part ++ left
  pub delivered : output client v.trace ≡ output client w.trace ++ part
  pub complete : (left ≡ []) ⊎ ((t : Trace) × (v.trace ≡ closed client ∷ (refused client ∷ t)))
  pub shut : open_sockets v.trace ≡ remove client (open_sockets w.trace)
  pub proper : IsOpen client w.trace → IsProper w.trace → IsProper v.trace
  pub others :
      (q : ℕ)
      → client ≢ q
      → (output q v.trace ≡ output q w.trace) × (input q v.trace ≡ input q w.trace)

-- The worker behind a write to the client.
abbrev after_write : World → ℕ → Cache → Bytes → Trace → World
after_write w client c b t =
    finish
      (record w {
        cache = c;
        trace = t;
        metrics = add_bytes_out (increment_cache_hits w.metrics) (length b);
      })
      client

after_write-Replayed :
    (os : Os) (w : World) (client : ℕ) (c : Cache) (b : Bytes)
    → Replayed client b w (after_write w client c b (write_all os w.trace client b).1)
unfolding run
after_write-Replayed os w client c b =
    by_status (write_all os w.trace client b) (write_all-Written os w.trace client b) (
      keeps_open,
      (λ o. write_all-Keeps os w.trace client b o),
      λ q ne. (output-write_all q os w.trace client b ne, input-write_all q os w.trace client b),
    )
  where
    keeps_open : open_sockets (write_all os w.trace client b).1 ≡ open_sockets w.trace
    keeps_open =
        write_all_keeps (λ u. open_sockets u ≡ open_sockets w.trace) os w.trace client b
          (λ u x e. e) (λ u e. e) refl

    Same : Trace → Type 0
    Same u =
        (open_sockets u ≡ open_sockets w.trace)
        × (IsOpen client w.trace → Keeps w.trace u)
        × ((q : ℕ) → client ≢ q → (output q u ≡ output q w.trace) × (input q u ≡ input q w.trace))

    by_status :
        (r : Status × Trace)
        → Written client b w.trace r
        → Same r.1
        → Replayed client b w (after_write w client c b r.1)
    by_status (done, u) out (same, keeps, silent) = record {
      counted = refl;
      part = b;
      left = [];
      whole = sym (append-nil b);
      delivered = out;
      complete = inl refl;
      shut = ap (remove client) same;
      proper = λ o p. (Keeps-IsOpen client (keeps o) o, (keeps o).proper p);
      others = silent;
    }
    by_status (failed, u) (part, rest, t, whole, ne, out, last) (same, keeps, silent) = record {
      counted = refl;
      part = part;
      left = rest;
      whole = whole;
      delivered = out;
      complete = inr (t, ap (λ x. closed client ∷ x) last);
      shut = ap (remove client) same;
      proper = λ o p. (Keeps-IsOpen client (keeps o) o, (keeps o).proper p);
      others = silent;
    }

module _ (fuel : ℕ) (os : Os) (alloc : Allocator) (w : World) (client : ℕ) {total object : ℕ}
    {m : Contents} (h : Holds total object w.cache m) where
  hit_at :
      (r : Request) (key b : Bytes) (l : Status × Value × Cache)
      → answer l ≡ found (some b)
      → looked_up fuel os alloc w client r key l
        ≡ some (after_write w client l.2 b (write_all os w.trace client b).1)
  unfolding serve_cached
  hit_at r key b l e =
      ap (λ x. looked_up fuel os alloc w client r key (x.0, x.1, l.2)) e
      ∙ ap (λ y. some (after_write w client l.2 b (write_all os w.trace client y).1))
          (take-length b)

  -- For an accepted request whose key the cache has, with memory for the copy, and whatever the network
  -- does: the worker gets through. It sends the client the bytes that are stored under the key, in
  -- order, all of them unless a `send` is refused, closes its socket, uses no other socket, so asks no
  -- origin, and counts one hit, the bytes and the end of the connection. The key is the most recently
  -- used one afterwards.
  pub serve_request_hit :
      (r : Request) (b : Bytes)
      → IsRequest r
      → lookup (key_text r) m ≡ some b
      → alloc.copy w ≡ true
      → (v : World) × (serve_request fuel os alloc w client r ≡ some v)
        × Replayed client b w v
        × Holds total object v.cache (touch (key_text r) m)
  unfolding serve_request
  serve_request_hit r b valid has copied =
      let c = (Cache.get w.cache (some (key_text r)) no_value true).2 in
      let (answers, kept) = get-touch (key_text r) no_value h in
      (
        after_write w client c b (write_all os w.trace client b).1,
        ap (keyed fuel os alloc w client r) (build_cache_key_fits r valid)
            ∙ ap
                (λ b.
                  looked_up fuel os alloc w client r (key_text r)
                    (Cache.get w.cache (some (key_text r)) no_value b))
                copied
            ∙ hit_at r (key_text r) b _ (answers ∙ ap found has),
        after_write-Replayed os w client c b,
        kept,
      )

  -- A response whose copy is complete is stored: when a worker is through with a fetched object that
  -- has at least one byte and no more than an object may have, and the allocations succeed, the
  -- cache has its bytes under the key, in front of the recent other keys that fit.
  pub after_forward_stores :
      (key bytes : Bytes) (f : Forwarded) (p : ℕ)
      → f.captured ≡ some bytes
      → 0 < length key
      → 0 < length bytes
      → length bytes ≤ object
      → alloc.blocks (record w { metrics = add_bytes_out w.metrics f.origin_response_bytes })
        ≡ allocated p
      → w.cache.alive p ≡ false
      → Holds total object
          (after_forward os alloc w client key f done).cache
          ((key, bytes) ∷ room total key (length bytes) m)
  unfolding after_forward store
  after_forward_stores key bytes f p is named filled fits a fresh =
      subst
        (λ c.
          Holds total object (store alloc counted key c).cache
            ((key, bytes) ∷ room total key (length bytes) m))
        (sym is)
        (rw (lt→ltb 0 (length key) named, lt→ltb 0 (length bytes) filled)
          (subst (λ c. Holds total object c ((key, bytes) ∷ room total key (length bytes) m))
            (sym (stored-cache counted put)) kept))
    where
      counted : World
      counted = record w { metrics = add_bytes_out w.metrics f.origin_response_bytes }

      put : Status × Bool × Cache
      put = Cache.put w.cache (some key) (some bytes) (length bytes) (alloc.blocks counted) false

      kept : Holds total object put.2 ((key, bytes) ∷ room total key (length bytes) m)
      kept = rw a (
          subst
            (λ b.
              Holds total object
                (Cache.put w.cache (some key) (some bytes) (length bytes) (allocated p) false).2
                ((key, b) ∷ room total key (length bytes) m))
            (take-length bytes)
            (put-room key bytes (length bytes) false h p fresh filled fits (omega arith)).leaves)
