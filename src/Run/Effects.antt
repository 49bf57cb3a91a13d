-- ===== src/Run/Effects.antt =====
-- What a step of the pool of src/thread_pool.c does to the calls of `thread_pool_submit`, of which
-- there is one at most when the main thread alone submits.
use concurrent_http_proxy_se.Base.{
  ◌≤◌, ◌≡◌, refl, sym, ap, ◌∙◌, subst, arith, length, length-append, length-mid, append_assoc, true,
  List, [], ◌∷◌, ◌++◌,
}
use concurrent_http_proxy_se.Run.System.{Kind, own, stops, calls, returns, fails, kind}
use concurrent_http_proxy_se.Threads.{Job}
use concurrent_http_proxy_se.Threads.Facts.{SubmitFacts, submit_facts}
use concurrent_http_proxy_se.Threads.Invariant.{
  IsSound, given_facts, taken_facts, socket_of, stopped_pool,
}
use concurrent_http_proxy_se.Threads.System.{
  System, Step, WakeCall, no_call, one_call, call, submit_sleeps, submit_fails, submit_returns,
  worker_sleeps, worker_exits, worker_takes, worker_finishes, worker_wakes, call_wakes, shuts_down,
}

pub nil_of_length : (l : List Job) → length l ≤ 0 → l ≡ []
nil_of_length [] h = refl
nil_of_length (x ∷ l) h = absurd (omega (arith, h))

pub nil-append : (a b : List Job) → a ++ b ≡ [] → (a ≡ []) × (b ≡ [])
nil-append a b e = (
  nil_of_length a (omega (arith, length-append a b, ap length e)),
  nil_of_length b (omega (arith, length-append a b, ap length e)),
)

-- A list of one element at most that has this element.
sole :
    (a : List Job) (j : Job) (b p : List Job)
    → length p ≤ 1
    → a ++ (j ∷ b) ≡ p
    → (a ≡ []) × (b ≡ []) × (j ∷ [] ≡ p)
sole a j b p h e =
    let (na, nb) =
      nil-append a b (nil_of_length (a ++ b) (omega (arith, h, ap length e, length-mid a j b))) in
    (na, nb, cc (na, nb, e))

-- The calls of `thread_pool_submit` that have not returned.
abbrev pub open_calls : System → List Job
open_calls s = s.calling ++ s.blocked

-- A call that falls asleep, and one that wakes up.
sleeps :
    (s : System) (xs : List Job) (j : Job) (ys p : List Job)
    → length p ≤ 1
    → s.calling ≡ xs ++ (j ∷ ys)
    → open_calls s ≡ p
    → (xs ≡ []) × (ys ≡ []) × (s.blocked ≡ []) × (j ∷ [] ≡ p)
sleeps s xs j ys p h at e =
    let (a, b, same) =
      sole xs j (ys ++ s.blocked) p h
        (sym (append_assoc xs (j ∷ ys) s.blocked) ∙ ap (λ l. l ++ s.blocked) (sym at) ∙ e) in
    let (c, d) = nil-append ys s.blocked b in (a, c, d, same)

wakes :
    (s : System) (xs : List Job) (j : Job) (ys p : List Job)
    → length p ≤ 1
    → s.blocked ≡ xs ++ (j ∷ ys)
    → open_calls s ≡ p
    → (xs ≡ []) × (ys ≡ []) × (s.calling ≡ []) × (j ∷ [] ≡ p)
wakes s xs j ys p h at e =
    let (a, b, same) =
      sole (s.calling ++ xs) j ys p h
        (append_assoc s.calling xs (j ∷ ys) ∙ ap (◌++◌ s.calling) (sym at) ∙ e) in
    let (c, d) = nil-append s.calling xs a in (d, b, c, same)

-- By the kind of a step: what it does to the calls, to what was given to the queue, and to whether
-- the pool shuts down. A call fails only in a pool that shuts down.
abbrev pub Effect : Kind → System → System → Type 0
Effect own s t =
    (t.given ≡ s.given)
    × (t.pool.shutting_down ≡ s.pool.shutting_down)
    × ((p : List Job) → length p ≤ 1 → open_calls s ≡ p → open_calls t ≡ p)
Effect (calls j) s t =
    (t.given ≡ s.given)
    × (t.pool.shutting_down ≡ s.pool.shutting_down)
    × (open_calls t ≡ j ∷ open_calls s)
Effect (returns j) s t =
    (t.given ≡ s.given ++ (j ∷ []))
    × (t.pool.shutting_down ≡ s.pool.shutting_down)
    × ((p : List Job) → length p ≤ 1 → open_calls s ≡ p → open_calls t ≡ [])
Effect (fails j) s t = s.pool.shutting_down ≡ true
Effect stops s t =
    (t.given ≡ s.given) × (t.pool.shutting_down ≡ true) × (open_calls s ≡ [] → open_calls t ≡ [])

takes-Effect :
    (s : System) {b c : List Job}
    → WakeCall s.blocked s.calling b c
    → (p : List Job) → length p ≤ 1
    → open_calls s ≡ p
    → c ++ b ≡ p
takes-Effect s w p h e = by_wake w refl refl e
  where
    by_wake :
        {b0 c0 b1 c1 : List Job}
        → WakeCall b0 c0 b1 c1
        → s.blocked ≡ b0
        → s.calling ≡ c0
        → open_calls s ≡ p
        → c1 ++ b1 ≡ p
    by_wake no_call at at' e = cc (at, at', e)
    by_wake (one_call xs j ys) at at' e =
        let (a, b, c, same) = wakes s xs j ys p h at e in cc (a, b, c, same, at')

pub Step-Effect : {s t : System} (e : Step s t) → IsSound s → Effect (kind e) s t
unfolding kind
Step-Effect (call job h) i = (refl, refl, refl)
Step-Effect {s = s} (submit_sleeps xs job ys at e) i =
    (refl, refl, λ p h o. let (a, b, c, same) = sleeps s xs job ys p h at o in cc (a, b, c, same))
Step-Effect {s = s} (submit_fails xs job ys at e) i =
    subst (SubmitFacts s.pool job) e
      (submit_facts s.pool job i.valid (socket_of s xs job ys i at).0)
Step-Effect {s = s} (submit_returns xs job ys q asleep ready at e w) i = (
  refl,
  (given_facts s xs job ys q i at e).settings.stop,
  λ p h o. let (a, b, c, same) = sleeps s xs job ys p h at o in cc (a, b, c),
)
Step-Effect (worker_sleeps n at e) i = (refl, refl, λ p h o. o)
Step-Effect (worker_exits n at e) i = (refl, refl, λ p h o. o)
Step-Effect {s = s} (worker_takes n job q b c at e w) i =
    (refl, (taken_facts s job q i e).settings.stop, takes-Effect s w)
Step-Effect (worker_finishes xs job ys at) i = (refl, refl, λ p h o. o)
Step-Effect (worker_wakes n at) i = (refl, refl, λ p h o. o)
Step-Effect {s = s} (call_wakes xs job ys at) i =
    (refl, refl, λ p h o. let (a, b, c, same) = wakes s xs job ys p h at o in cc (a, b, c, same))
Step-Effect {s = s} shuts_down i = (
  refl,
  ap (λ p. p.shutting_down) (stopped_pool s i),
  λ o. let (a, b) = nil-append s.calling s.blocked o in cc (a, b),
)
