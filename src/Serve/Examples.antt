-- ===== src/Serve/Examples.antt =====
-- Runs of `_listen` on small inputs.
use wire_rpc.Prelude.{
  nat_eq, ◌≡◌, refl, ◌++◌, String, string_eq, true, false, none, some, [], ◌∷◌, All, arith,
}
use wire_rpc.Prelude.Dict
use wire_rpc.Serve.{
  Task, Serve, new, acquired, received, finish, fine, Step, Reach, here, next, draining,
}
use wire_rpc.Serve.Locks.{IsServing, IsBehind, Reach-IsServing, Reach-IsAlone}

abbrev accept : String → Serve → Serve
accept client_id s = received (some client_id) (acquired true false s)

-- Two requests of one client and one of another, with room for three.
abbrev three : Serve
three = accept "bob" (accept "ann" (accept "ann" (new 3)))

abbrev bob : Task
bob = record { client_id = "bob"; lock = 2; busy = false; inside = false }

abbrev second : Task
second = record { client_id = "ann"; lock = 0; busy = true; inside = false }

abbrev first : Task
first = record { client_id = "ann"; lock = 0; busy = false; inside = false }

Reach-three : Reach (new 3) three
unfolding acquired received Dict.get Dict.put
Reach-three =
    next
      (next
        (next
          (next
            (next
              (next here (
                Step.acquires _ true false refl (λ _. omega arith)
                  (λ e. absurd (ground (arith, e)))))
              (Step.receives _ (some "ann") refl))
            (Step.acquires _ true false refl (λ _. omega arith) (λ e. absurd (ground (arith, e)))))
          (Step.receives _ (some "ann") refl))
        (Step.acquires _ true false refl (λ _. omega arith) (λ e. absurd (ground (arith, e)))))
      (Step.receives _ (some "bob") refl)

three_tasks : three.tasks ≡ (bob ∷ second ∷ []) ++ first ∷ []
unfolding acquired received Dict.get Dict.put
three_tasks = refl

Reach-IsServing_example : IsServing three
Reach-IsServing_example = Reach-IsServing 3 Reach-three

Reach-IsAlone_example :
    ((finish (bob ∷ second ∷ []) first [] three).0 ≡ fine)
    × All (IsBehind first.lock) ((bob ∷ second ∷ []) ++ [])
Reach-IsAlone_example = Reach-IsAlone 3 (bob ∷ second ∷ []) first [] Reach-three three_tasks refl

-- The first request of "ann" ends before the refused one, which then drops the entry.
runs :
    (three.free ≡ 0)
    × (Dict.get "ann" three.peer_locks ≡ some (0, 2))
    × (Dict.get "ann" (finish (bob ∷ second ∷ []) first [] three).1.peer_locks ≡ some (0, 1))
    × ((finish (bob ∷ []) second [] (finish (bob ∷ second ∷ []) first [] three).1).1.peer_locks
        ≡ ("bob", (2, 1)) ∷ [])
    × ((received none (acquired true false (new 3))).stage ≡ draining)
unfolding acquired received finish Dict.get Dict.put Dict.pop
runs = (refl, refl, refl, refl, refl)
