-- ===== src/Forwarder/Copy.antt =====
-- The copy of a response that src/response_forwarder.c takes for the cache.
use native.Mathlib.Nat.{mod-eq_of_lt}
use concurrent_http_proxy_se.Base.{
  ℕ, zero, suc, ◌+◌, ◌*◌, ◌%◌, ◌^◌, ◌≤◌, ◌<◌, ◌≡◌, refl, sym, ap, ◌∙◌, subst, arith, ltb, ltb→lt,
  ltb→ge, add_size, length, length-append, if◌then◌else◌, Bool, true, false, inl, inr, ◌⊎◌, Option,
  none, some, ◌>>=◌, [], ◌++◌,
}
use concurrent_http_proxy_se.Bytes.{Bytes}
use concurrent_http_proxy_se.Sockets.{Os, Trace}
use concurrent_http_proxy_se.Forwarder.{
  Capture, grow, given_up, make_room, copy_chunk, capture_chunk, start_capacity, kept_bytes,
  reallocated,
}

-- Doubling from a positive capacity reaches what is needed, and stays below its double.
pub grow_lem :
    (fuel needed capacity : ℕ)
    → 0 < capacity
    → needed < 2 ^ 62
    → needed ≤ capacity + fuel
    → (needed ≤ grow fuel needed capacity)
      × ((grow fuel needed capacity ≡ capacity) ⊎ (grow fuel needed capacity < 2 * needed))
unfolding grow
grow_lem zero needed capacity p w h = (omega (arith, h), inl refl)
grow_lem (suc fuel) needed capacity p w h = by_test (ltb capacity needed) refl λ lt.
    grow_lem fuel needed ((capacity * 2) % 2 ^ 64) (omega (arith, doubled lt)) w
      (omega (arith, h, doubled lt))
  where
    doubled : capacity < needed → (capacity * 2) % 2 ^ 64 ≡ capacity * 2
    doubled lt = mod-eq_of_lt {n = capacity * 2} {m = 2 ^ 64} (omega (arith, lt, w))

    twice : ℕ
    twice = (capacity * 2) % 2 ^ 64

    Reached : ℕ → Type 0
    Reached g = (needed ≤ g) × ((g ≡ capacity) ⊎ (g < 2 * needed))

    from_twice :
        capacity < needed
        → (needed ≤ grow fuel needed twice)
          × ((grow fuel needed twice ≡ twice) ⊎ (grow fuel needed twice < 2 * needed))
        → Reached (grow fuel needed twice)
    from_twice lt (a, inl e) = (a, inr (omega (arith, e, doubled lt, lt)))
    from_twice lt (a, inr b) = (a, inr b)

    by_test :
        (b : Bool)
        → ltb capacity needed ≡ b
        → (capacity < needed
            → (needed ≤ grow fuel needed twice)
              × ((grow fuel needed twice ≡ twice) ⊎ (grow fuel needed twice < 2 * needed)))
        → Reached (elim b [ true ↦ grow fuel needed twice | false ↦ capacity ])
    by_test true e ih = let lt = ltb→lt capacity needed e in from_twice lt (ih lt)
    by_test false e ih = (ltb→ge capacity needed e, inl refl)

-- Why there is no copy: none was asked for, the response is too long, or there was no memory.
abbrev pub NoCopy : Os → ℕ → Bytes → Type 0
NoCopy os max got =
    (max ≡ 0) ⊎ ((max < length got) ⊎ ((t : Trace) × (n : ℕ) × (os.memory t n ≡ false)))

-- The copy of `got`: given up, not begun, or all of `got` in a buffer that is large enough.
pub data IsCopy (os : Os) (max : ℕ) (got : Bytes) (c : Capture) : Type 0 where
  off :
      c.capture_enabled ≡ false → c.capture_buffer ≡ none → NoCopy os max got → IsCopy os max got c
  fresh :
      c.capture_enabled ≡ true
      → c.capture_buffer ≡ none
      → got ≡ []
      → c.capture_size ≡ 0
      → c.capture_capacity ≡ 0
      → IsCopy os max got c
  full :
      c.capture_enabled ≡ true
      → c.capture_buffer ≡ some got
      → 0 < length got
      → c.capture_size ≡ length got
      → length got ≤ c.capture_capacity
      → length got ≤ max
      → c.capture_capacity ≤ 2 * max
      → IsCopy os max got c

-- A buffer for `needed` bytes that holds `got`.
pub record Ready (max needed : ℕ) (got : Bytes) (c : Capture) : Type 0 where
  pub enabled : c.capture_enabled ≡ true
  pub buffer : c.capture_buffer ≡ some got
  pub size : c.capture_size ≡ length got
  pub capacity : needed ≤ c.capture_capacity
  pub bound : c.capture_capacity ≤ 2 * max

-- What the copy knows before it makes room.
pub record Begun (max : ℕ) (got : Bytes) (c : Capture) : Type 0 where
  pub enabled : c.capture_enabled ≡ true
  pub buffer :
      (c.capture_buffer ≡ some got)
      ⊎ ((c.capture_buffer ≡ none) × (got ≡ []) × (c.capture_capacity ≡ 0))
  pub size : c.capture_size ≡ length got
  pub bound : c.capture_capacity ≤ 2 * max

-- Without memory the copy is given up.
abbrev pub RoomMade : Os → ℕ → ℕ → Bytes → Capture → Type 0
RoomMade os max needed got c =
    ((c ≡ given_up) × ((t : Trace) × (n : ℕ) × (os.memory t n ≡ false))) ⊎ Ready max needed got c

start_lem :
    (c : Capture) (n needed : ℕ)
    → c.capture_capacity < needed
    → 0 < n
    → n ≤ needed
    → needed < 2 ^ 62
    → (0 < start_capacity c n) × (start_capacity c n ≤ 2 * needed)
start_lem c n needed lt p small w =
    ground (arith, mod-eq_of_lt {n = c.capture_capacity * 2} {m = 2 ^ 64})

next_lem :
    (c : Capture) (n needed : ℕ)
    → c.capture_capacity < needed
    → 0 < n
    → n ≤ needed
    → needed < 2 ^ 62
    → (needed ≤ grow needed needed (start_capacity c n))
      × (grow needed needed (start_capacity c n) ≤ 2 * needed)
next_lem c n needed lt p small w =
    let (above, below) = start_lem c n needed lt p small w in
    let (enough, bound) = grow_lem needed needed (start_capacity c n) above w (omega arith) in
    (enough, either bound below)
  where
    either : {g s m : ℕ} → (g ≡ s) ⊎ (g < m) → s ≤ m → g ≤ m
    either (inl e) b = omega (arith, e, b)
    either (inr h) b = omega (arith, h)

kept_lem :
    (got : Bytes) (o : Option Bytes) (k : ℕ)
    → (o ≡ some got) ⊎ ((o ≡ none) × (got ≡ []) × (k ≡ 0))
    → kept_bytes o ≡ some got
kept_lem got none k (inl e) = absurd (cc e)
kept_lem got none k (inr (e, nil, z)) = ap some (sym nil)
kept_lem got (some b) k (inl e) = e
kept_lem got (some b) k (inr (e, nil, z)) = absurd (cc e)

make_room_lem :
    (os : Os) (t : Trace) (max : ℕ) (got : Bytes) (c : Capture) (n needed : ℕ)
    → Begun max got c
    → 0 < n
    → n ≤ needed
    → needed ≤ max
    → max < 2 ^ 62
    → RoomMade os max needed got (make_room os t c n needed)
unfolding make_room
make_room_lem os t max got c n needed v p small fits w =
    by_room (ltb c.capture_capacity needed) refl
  where
    next_capacity : ℕ
    next_capacity = grow needed needed (start_capacity c n)

    by_memory :
        (b : Bool)
        → os.memory t next_capacity ≡ b
        → c.capture_capacity < needed
        → RoomMade os max needed got (reallocated c next_capacity b)
    by_memory true e lt =
        let (enough, bound) = next_lem c n needed lt p small (omega (arith, fits, w)) in
        inr (record {
          enabled = v.enabled;
          buffer = kept_lem got c.capture_buffer c.capture_capacity v.buffer;
          size = v.size;
          capacity = enough;
          bound = omega (arith, bound, fits);
        })
    by_memory false e lt = inl (refl, (t, next_capacity, e))

    old_buffer : needed ≤ c.capture_capacity → c.capture_buffer ≡ some got
    old_buffer h = holds v.buffer
      where
        holds :
            (c.capture_buffer ≡ some got)
              ⊎ ((c.capture_buffer ≡ none) × (got ≡ []) × (c.capture_capacity ≡ 0))
            → c.capture_buffer ≡ some got
        holds (inl e) = e
        holds (inr (e, nil, z)) = absurd (omega (arith, z, h, p, small))

    by_room :
        (b : Bool)
        → ltb c.capture_capacity needed ≡ b
        → RoomMade os max needed got
            (if b then reallocated c next_capacity (os.memory t next_capacity) else c)
    by_room true e = by_memory (os.memory t next_capacity) refl (ltb→lt c.capture_capacity needed e)
    by_room false e =
        let large = ltb→ge c.capture_capacity needed e in
        inr (record {
          enabled = v.enabled;
          buffer = old_buffer large;
          size = v.size;
          capacity = large;
          bound = v.bound;
        })

add_lem : (a b : ℕ) → a < 2 ^ 63 → b < 2 ^ 62 → add_size a b ≡ a + b
add_lem a b h k = mod-eq_of_lt {n = a + b} {m = 2 ^ 64} (omega (arith, h, k))

longer : (os : Os) (max : ℕ) (got chunk : Bytes) → NoCopy os max got → NoCopy os max (got ++ chunk)
longer os max got chunk (inl z) = inl z
longer os max got chunk (inr (inl b)) = inr (inl (omega (arith, b, length-append got chunk)))
longer os max got chunk (inr (inr m)) = inr (inr m)

round-IsCopy :
    (os : Os) (t : Trace) (max : ℕ) (got chunk : Bytes) (c : Capture)
    → Begun max got c
    → length got ≤ max
    → 0 < length chunk
    → length chunk < 2 ^ 62
    → max < 2 ^ 62
    → IsCopy os max (got ++ chunk) (capture_chunk os t max c chunk)
unfolding capture_chunk
round-IsCopy os t max got chunk c v short some_bytes small w =
    subst (λ b. IsCopy os max (got ++ chunk) (if b then round else c)) (sym v.enabled)
      (by_limit (ltb max needed) refl)
  where
    needed : ℕ
    needed = add_size c.capture_size (length chunk)

    needed_lem : needed ≡ length got + length chunk
    needed_lem =
        ap (λ n. add_size n (length chunk)) v.size
        ∙ add_lem (length got) (length chunk) (omega (arith, short, w)) small

    round : Capture
    round =
        if ltb max needed
        then given_up
        else copy_chunk (make_room os t c (length chunk) needed) chunk

    copied :
        (d : Capture)
        → needed ≤ max
        → RoomMade os max needed got d
        → IsCopy os max (got ++ chunk) (copy_chunk d chunk)
    copied d fit (inl (e, why)) =
        subst (λ x. IsCopy os max (got ++ chunk) (copy_chunk x chunk)) (sym e)
          (off refl refl (inr (inr why)))
    copied d fit (inr r) =
        subst (λ b. IsCopy os max (got ++ chunk) (if b then filled else d)) (sym r.enabled)
          (full r.enabled (ap (λ o. o >>= λ b. some (b ++ chunk)) r.buffer)
            (omega (arith, length-append got chunk, some_bytes))
            (ap (λ n. add_size n (length chunk)) r.size
              ∙ add_lem (length got) (length chunk) (omega (arith, short, w)) small
              ∙ sym (length-append got chunk))
            (omega (arith, length-append got chunk, r.capacity, needed_lem))
            (omega (arith, length-append got chunk, needed_lem, fit)) r.bound)
      where
        filled : Capture
        filled = record d {
          capture_buffer = d.capture_buffer >>= λ b. some (b ++ chunk);
          capture_size = add_size d.capture_size (length chunk);
        }

    by_limit :
        (b : Bool)
        → ltb max needed ≡ b
        → IsCopy os max
            (got ++ chunk)
            (if b then given_up else copy_chunk (make_room os t c (length chunk) needed) chunk)
    by_limit true e =
        off refl refl
          (inr (inl (omega (arith, ltb→lt max needed e, needed_lem, length-append got chunk))))
    by_limit false e = copied (make_room os t c (length chunk) needed) (ltb→ge max needed e) (
        make_room_lem os t max got c (length chunk) needed v some_bytes (omega (arith, needed_lem))
          (ltb→ge max needed e) w)

-- A round of the relay keeps the copy: it holds all that came in, or it is given up because the
-- response is longer than `max` or an allocation failed.
pub capture_chunk-IsCopy :
    (os : Os) (t : Trace) (max : ℕ) (got chunk : Bytes) (c : Capture)
    → IsCopy os max got c
    → 0 < length chunk
    → length chunk < 2 ^ 62
    → max < 2 ^ 62
    → IsCopy os max (got ++ chunk) (capture_chunk os t max c chunk)
unfolding capture_chunk
capture_chunk-IsCopy os t max got chunk c (off e b why) some_bytes small w =
    subst (λ k. IsCopy os max (got ++ chunk) (if k then round else c)) (sym e)
      (off e b (longer os max got chunk why))
  where
    needed : ℕ
    needed = add_size c.capture_size (length chunk)

    round : Capture
    round =
        if ltb max needed
        then given_up
        else copy_chunk (make_room os t c (length chunk) needed) chunk
capture_chunk-IsCopy os t max got chunk c (fresh e b nil z k) some_bytes small w =
    round-IsCopy os t max got chunk c
      (record {
        enabled = e;
        buffer = inr (b, nil, k);
        size = z ∙ sym (ap length nil);
        bound = omega (arith, k);
      })
      (omega (arith, ap length nil)) some_bytes small w
capture_chunk-IsCopy os t max got chunk c (full e b p z room short bound) some_bytes small w =
    round-IsCopy os t max got chunk c
      (record { enabled = e; buffer = inl b; size = z; bound = bound }) short some_bytes small w
