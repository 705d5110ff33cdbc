-- ===== src/Types/OrderedMap.antt =====
-- The insertion-ordered map of internal/types/orderedmap.go. `data` is the Go map (`none` while it is
-- nil) and `keys` the slice of the keys. `zero` is the zero value of the value type, which Go reads
-- at a missing key. The proofs are in the modules below.
pub mod Invariant
pub mod Refinement
pub mod Yaml
pub mod Filled
use go_asyncapi.Common.{
  ℕ, ◌≡◌, Bool, true, false, not, Option, none, some, List, [], ◌∷◌, ◌++◌, map, EqType, ◌==◌, keep,
  length, if◌then◌else◌, eqb,
}
use go_asyncapi.Common.GoMap
use go_asyncapi.Common.GoMap.{lookup, has, insert, delete}

pub record OrderedMap {ℓ κ} (K : Type ℓ) (V : Type κ) : Type (ℓ ⊔ κ) where
  pub data_map : Option (List (K × V))
  pub keys_list : List K

-- Reading a nil map is reading an empty one.
abbrev pub contents {ℓ} : {A : Type ℓ} → Option (List A) → List A
contents none = []
contents (some m) = m

abbrev pub value_or {ℓ} : {A : Type ℓ} → A → Option A → A
value_or z none = z
value_or z (some v) = v

module _ {ℓ κ} {K : Type ℓ} {V : Type κ} where
  -- var o OrderedMap[K, V]
  abbrev pub empty : OrderedMap K V
  empty = record { data_map = none; keys_list = [] }

  unfoldable pub is_zero : OrderedMap K V → Bool
  is_zero o = eqb (length (contents o.data_map)) 0

  unfoldable pub len : OrderedMap K V → ℕ
  len o = length (contents o.data_map)

  unfoldable pub keys : OrderedMap K V → List K
  keys o = o.keys_list

-- `lo.Filter(o.keys, item != key)`
abbrev pub without_key {ℓ} : {K : Type ℓ} ⦃e : EqType K⦄ → K → List K → List K
without_key k = keep (λ item. not (item == k))

module _ {ℓ κ} {K : Type ℓ} {V : Type κ} ⦃e : EqType K⦄ where
  unfoldable pub get : OrderedMap K V → K → Option V
  get o k = lookup k (contents o.data_map)

  -- `none` is the panic.
  unfoldable pub must_get : OrderedMap K V → K → Option V
  unfolding get
  must_get o k = get o k

  unfoldable pub has_key : OrderedMap K V → K → Bool
  has_key o k = has k (contents o.data_map)

  unfoldable pub set : OrderedMap K V → K → V → OrderedMap K V
  set o k v =
      let d = contents o.data_map in
      let ks = (if has k d then without_key k o.keys_list else o.keys_list) in
      record { data_map = some (insert k v d); keys_list = ks ++ k ∷ [] }

  abbrev pub delete_from : OrderedMap K V → K → Option (List (K × V)) → OrderedMap K V × Bool
  delete_from o k none = (o, false)
  delete_from o k (some d) =
      if has k d
      then (record { data_map = some (delete k d); keys_list = without_key k o.keys_list }, true)
      else (o, false)

  -- The new map, and whether the key was there.
  unfoldable pub delete_key : OrderedMap K V → K → OrderedMap K V × Bool
  delete_key o k = delete_from o k o.data_map

  -- The pairs that the iterator yields, in order.
  unfoldable pub entries : V → OrderedMap K V → List (K × V)
  entries zero o = map (λ k. (k, value_or zero (lookup k (contents o.data_map)))) o.keys_list

  -- A loop that calls Set.
  abbrev pub set_all : OrderedMap K V → List (K × V) → OrderedMap K V
  set_all o [] = o
  set_all o ((k, v) ∷ es) = set_all (set o k v) es
