-- ===== src/Lru/Tests.antt =====
-- The list of tests/test_lru.c, and the theorems about the list at it.
use concurrent_http_proxy_se.Base.{◌≡◌, refl, none, some, [], ◌∷◌, arith}
use concurrent_http_proxy_se.Lru.{Lru, init, attach_front, detach, move_to_front, remove_tail}
use concurrent_http_proxy_se.Lru.Runs.{
  detaches, moves, removes_tail, run, run_meant, meant, answer_meant, but_last, without, AllAllowed,
  Allowed, run-IsOrder,
}
use concurrent_http_proxy_se.Lru.Ordering.{IsOrder, init-IsOrder, attach_front-IsOrder}

abbrev blank : Lru
blank = record { head = some 7; tail = none; entry_count = 3; prev = λ _. none; next = λ _. none }

abbrev two : Lru
two = attach_front (attach_front (init blank) (some 1)) (some 2)

two-IsOrder : IsOrder two (2 ∷ 1 ∷ [])
two-IsOrder =
    attach_front-IsOrder (attach_front (init blank) (some 1)) (1 ∷ []) 2
      (attach_front-IsOrder (init blank) [] 1 (init-IsOrder blank) tt (omega arith)) (omega arith)
      (omega arith)

abbrev three : Lru
three = attach_front two (some 3)

three-IsOrder : IsOrder three (3 ∷ 2 ∷ 1 ∷ [])
three-IsOrder = attach_front-IsOrder two (2 ∷ 1 ∷ []) 3 two-IsOrder (omega arith) (omega arith)

-- The order of tests/test_lru.c after an entry has moved to the front.
moved_order : (remove_tail (move_to_front three (some 1))).0 ≡ some 2
unfolding remove_tail move_to_front attach_front detach init
moved_order = refl

-- The entries of the list are used again, and the two oldest leave it.
run-IsOrder_example :
    ((run (moves 1 ∷ detaches 3 ∷ removes_tail ∷ removes_tail ∷ removes_tail ∷ []) three).0
      ≡ none ∷ none ∷ some 2 ∷ some 1 ∷ none ∷ [])
    × IsOrder
        (run (moves 1 ∷ detaches 3 ∷ removes_tail ∷ removes_tail ∷ removes_tail ∷ []) three).1
        []
unfolding run_meant meant answer_meant but_last without AllAllowed Allowed
run-IsOrder_example =
    run-IsOrder (moves 1 ∷ detaches 3 ∷ removes_tail ∷ removes_tail ∷ removes_tail ∷ []) three
      (3 ∷ 2 ∷ 1 ∷ []) three-IsOrder ((refl, omega arith), (refl, (tt, (tt, (tt, tt)))))
