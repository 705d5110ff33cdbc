-- ===== src/Examples/Rings.antt =====
-- A ring of two elements with the iterator at the second (run/ring.go).
use go_asyncapi.Common.{ℕ, ◌≡◌, refl, some, [], ◌∷◌, arith}
use go_asyncapi.Common.GoMap.{delete}
use go_asyncapi.Run.Ring.{Ring, next, remove}
use go_asyncapi.Run.Ring.Invariant.{IsValid, next-IsValid}
use go_asyncapi.Run.Ring.Update.{remove-IsValid}
use go_asyncapi.Run.Ring.Cycle.{run_next, next_cycle}

abbrev two : Ring ℕ
two = record { iter = some 1; elements = (0, 7) ∷ (1, 8) ∷ []; fresh = 2 }

two-IsValid : IsValid two ((0, 7) ∷ []) ((1, 8) ∷ [])
two-IsValid = record {
  whole = refl;
  at_iter = refl;
  distinct = ((λ p. omega (arith, p), tt), (tt, tt));
  used = (omega arith, (omega arith, tt));
}

next-IsValid_example : ((next two).0 ≡ some 8) × IsValid (next two).1 [] ((0, 7) ∷ (1, 8) ∷ [])
next-IsValid_example = next-IsValid two ((0, 7) ∷ []) [] (1, 8) two-IsValid

remove-IsValid_example : IsValid (remove (some 1) two) [] ((0, 7) ∷ [])
unfolding delete
remove-IsValid_example = remove-IsValid two ((0, 7) ∷ []) ((1, 8) ∷ []) 1 two-IsValid

next_cycle_example :
    (run_next 1 two ≡ (some 8 ∷ [], record two { iter = some 0 }))
    × (run_next 1 (record two { iter = some 0 }) ≡ (some 7 ∷ [], two))
next_cycle_example = next_cycle two ((0, 7) ∷ []) [] (1, 8) two-IsValid
