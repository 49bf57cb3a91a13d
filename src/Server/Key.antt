-- ===== src/Server/Key.antt =====
-- The cache key of src/proxy_server.c: method, host, port and path with bars between them.
use concurrent_http_proxy_se.Base.{
  ℕ, ◌<◌, ◌≡◌, refl, sym, ap, ◌∙◌, arith, false, some, [], ◌∷◌, ◌++◌, length, length-append, mem,
  mem-append, append_assoc, first_split, last_split, append_cancel, cons_injective, if_some, lt→ltb,
}
use concurrent_http_proxy_se.Bytes.{Bytes}
use concurrent_http_proxy_se.Decimal.{decimal, decimal_injective, mem-decimal, length-decimal}
use concurrent_http_proxy_se.Parser.{Request}
use concurrent_http_proxy_se.Server.{key_text, build_cache_key}
use concurrent_http_proxy_se.Parser.Shape.{IsRequest}

length-key : (r : Request) → IsRequest r → length (key_text r) < 4096
length-key r v = omega (
  arith,
  ap length v.method,
  length-append r.method (124 ∷ (r.host ++ (124 ∷ (decimal r.port ++ (124 ∷ r.path))))),
  length-append r.host (124 ∷ (decimal r.port ++ (124 ∷ r.path))),
  length-append (decimal r.port) (124 ∷ r.path),
  length-decimal 4 r.port (omega (arith, v.target.port_to)),
  v.target.host_fits,
  v.target.path_fits,
)

-- For every request that the parser accepts, the key fits the buffer of PROXY_CACHE_KEY_SIZE bytes,
-- so every such request can be looked up and cached.
pub build_cache_key_fits : (r : Request) → IsRequest r → build_cache_key r 4096 ≡ some (key_text r)
unfolding build_cache_key
build_cache_key_fits r v = rw (lt→ltb (length (key_text r)) 4096 (length-key r v)) refl

-- The part of the key before the slash that begins the path.
front : Request → Bytes
front r = r.method ++ (124 ∷ (r.host ++ (124 ∷ (decimal r.port ++ (124 ∷ [])))))

no_slash-decimal : (n : ℕ) → mem 47 (decimal n) ≡ false
no_slash-decimal n = mem-decimal 47 n λ d h. ground arith

no_bar-decimal : (n : ℕ) → mem 124 (decimal n) ≡ false
no_bar-decimal n = mem-decimal 124 n λ d h. ground arith

mem-front : (r : Request) → IsRequest r → mem 47 (front r) ≡ false
unfolding front
mem-front r v = ground (
  arith,
  mem-append 47 r.method (124 ∷ (r.host ++ (124 ∷ (decimal r.port ++ (124 ∷ []))))),
  ap (mem 47) v.method,
  mem-append 47 r.host (124 ∷ (decimal r.port ++ (124 ∷ []))),
  mem-append 47 (decimal r.port) (124 ∷ []),
  no_slash-decimal r.port,
  v.target.no_slash,
)

key-front : (r : Request) (rest : Bytes) → r.path ≡ 47 ∷ rest → key_text r ≡ front r ++ (47 ∷ rest)
unfolding front
key-front r rest e = cc (
  e,
  append_assoc r.method (124 ∷ (r.host ++ (124 ∷ (decimal r.port ++ (124 ∷ []))))) (47 ∷ rest),
  append_assoc r.host (124 ∷ (decimal r.port ++ (124 ∷ []))) (47 ∷ rest),
  append_assoc (decimal r.port) (124 ∷ []) (47 ∷ rest),
)

-- The host and the port are read back from the right, where the digits end.
front_injective :
    (r s : Request)
    → r.method ≡ s.method
    → front r ≡ front s
    → (r.host ≡ s.host) × (r.port ≡ s.port)
unfolding front
front_injective r s m e =
    let inner =
      last_split 124 (r.host ++ (124 ∷ decimal r.port)) (s.host ++ (124 ∷ decimal s.port)) [] []
        refl refl (regroup r ∙ tails ∙ sym (regroup s)) in
    let outer =
      last_split 124 r.host s.host (decimal r.port) (decimal s.port) (no_bar-decimal r.port)
        (no_bar-decimal s.port) inner.0 in
    (outer.0, decimal_injective r.port s.port outer.1)
  where
    inside : Request → Bytes
    inside q = q.host ++ (124 ∷ (decimal q.port ++ (124 ∷ [])))

    tails : inside r ≡ inside s
    tails =
        (cons_injective (append_cancel r.method (e ∙ ap (λ w. w ++ (124 ∷ inside s)) (sym m)))).1

    regroup : (q : Request) → (q.host ++ (124 ∷ decimal q.port)) ++ (124 ∷ []) ≡ inside q
    regroup q = append_assoc q.host (124 ∷ decimal q.port) (124 ∷ [])

-- Two accepted requests with the same cache key ask for the same object: their method, host, port
-- and path agree. So an object is never served for another one.
pub build_cache_key_injective :
    (r s : Request) (key : Bytes)
    → IsRequest r
    → IsRequest s
    → build_cache_key r 4096 ≡ some key
    → build_cache_key s 4096 ≡ some key
    → (r.method ≡ s.method) × (r.host ≡ s.host) × (r.port ≡ s.port) × (r.path ≡ s.path)
unfolding build_cache_key
build_cache_key_injective r s key v w e f =
    let (rest, path) = v.target.rooted in
    let (rest', path') = w.target.rooted in
    let (_, same) = if_some _ e in
    let (_, same') = if_some _ f in
    let (fronts, rests) =
      first_split 47 (front r) (front s) rest rest' (mem-front r v) (mem-front s w)
        (sym (key-front r rest path) ∙ same ∙ sym same' ∙ key-front s rest' path') in
    let method = v.method ∙ sym w.method in
    let (host, port) = front_injective r s method fronts in
    (method, host, port, path ∙ ap (◌∷◌ 47) rests ∙ sym path')
