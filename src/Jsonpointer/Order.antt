-- ===== src/Jsonpointer/Order.antt =====
-- JsonPointer.MatchPointer (internal/jsonpointer/url.go) compares by slices.Compare, which orders
-- two slices of strings lexicographically, and strings by their bytes.
use Prim.Native.Nat.{compare, Ordering}
use go_asyncapi.Common.{◌≡◌, ◌↔◌, refl, Bool, true, false, List, [], ◌∷◌, Bytes, arith}
use go_asyncapi.Jsonpointer.{JsonPointer}

abbrev pub then_by : Ordering → Ordering → Ordering
then_by Ordering.lt o = Ordering.lt
then_by Ordering.eq o = o
then_by Ordering.gt o = Ordering.gt

-- cmp.Compare on strings
unfoldable pub compare_bytes : Bytes → Bytes → Ordering
compare_bytes [] [] = Ordering.eq
compare_bytes [] (c ∷ s) = Ordering.lt
compare_bytes (c ∷ s) [] = Ordering.gt
compare_bytes (c ∷ s) (d ∷ t) = then_by (compare c d) (compare_bytes s t)

-- slices.Compare on slices of strings
unfoldable pub compare_parts : List Bytes → List Bytes → Ordering
compare_parts [] [] = Ordering.eq
compare_parts [] (p ∷ ps) = Ordering.lt
compare_parts (p ∷ ps) [] = Ordering.gt
compare_parts (p ∷ ps) (q ∷ qs) = then_by (compare_bytes p q) (compare_parts ps qs)

abbrev pub is_eq : Ordering → Bool
is_eq Ordering.eq = true
is_eq Ordering.lt = false
is_eq Ordering.gt = false

unfoldable pub match_pointer : JsonPointer → List Bytes → Bool
unfolding compare_parts compare_bytes
match_pointer r unescaped = is_eq (compare_parts r.pointer unescaped)

compare_bytes_iff : (s t : Bytes) → (is_eq (compare_bytes s t) ≡ true) ↔ (s ≡ t)
unfolding compare_bytes
compare_bytes_iff [] [] = (λ h. refl, λ h. refl)
compare_bytes_iff [] (c ∷ s) = (λ h. cc, λ h. cc)
compare_bytes_iff (c ∷ s) [] = (λ h. cc, λ h. cc)
compare_bytes_iff (c ∷ s) (d ∷ t) =
    (λ h. ground (arith, compare_bytes_iff s t), λ h. ground (arith, compare_bytes_iff s t))

compare_parts_iff : (ps qs : List Bytes) → (is_eq (compare_parts ps qs) ≡ true) ↔ (ps ≡ qs)
unfolding compare_parts
compare_parts_iff [] [] = (λ h. refl, λ h. refl)
compare_parts_iff [] (p ∷ ps) = (λ h. cc, λ h. cc)
compare_parts_iff (p ∷ ps) [] = (λ h. cc, λ h. cc)
compare_parts_iff (p ∷ ps) (q ∷ qs) = (
  λ h. ground (arith, compare_bytes_iff p q, compare_parts_iff ps qs),
  λ h. ground (arith, compare_bytes_iff p q, compare_parts_iff ps qs),
)

-- MatchPointer holds exactly of the pointer's own parts, whatever the location.
pub match_pointer_iff :
    (r : JsonPointer) (parts : List Bytes) → (match_pointer r parts ≡ true) ↔ (r.pointer ≡ parts)
unfolding match_pointer
match_pointer_iff r parts = compare_parts_iff r.pointer parts
