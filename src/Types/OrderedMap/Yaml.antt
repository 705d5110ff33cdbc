-- ===== src/Types/OrderedMap/Yaml.antt =====
-- Reading a YAML mapping into an ordered map. A node is opaque: its kind test, its content and the
-- decoders of keys and values are gopkg.in/yaml.v3's, so they are parameters.
use go_asyncapi.Common.{
  ◌≡◌, refl, Bool, true, Option, none, some, List, [], ◌∷◌, ◌++◌, EqType, if◌then◌else◌,
  Option-cases, inl, inr, append_assoc, append-nil, sym, ap, ◌∙◌,
}
use go_asyncapi.Types.OrderedMap.{OrderedMap, empty, set, entries}
use go_asyncapi.Types.OrderedMap.Invariant.{IsValid, IsValid-empty, set-IsValid}
use go_asyncapi.Types.OrderedMap.Refinement.{drop_key, entries-set}

-- How UnmarshalYAML ends.
pub data Unmarshalled : Type 0 where
  finished : Unmarshalled
  not_a_mapping : Unmarshalled
  decode_failed : Unmarshalled
  out_of_range : Unmarshalled

module _ {ℓ κ ι} {K : Type ℓ} {V : Type κ} {Node : Type ι} ⦃e : EqType K⦄
    (decode_key : Node → Option K) (decode_value : Node → Option V) where
  -- One round for each two nodes; the value's node is read after the key is decoded, and reading it
  -- behind the end of the content panics. What was set before a failure stays set.
  unfoldable pub decode_pairs : List Node → OrderedMap K V → OrderedMap K V × Unmarshalled
  decode_pairs [] o = (o, finished)
  decode_pairs (n ∷ []) o = elim (decode_key n) [
    | none ↦ (o, decode_failed)
    | some k ↦ (o, out_of_range)
  ]
  decode_pairs (n ∷ m ∷ rest) o = elim (decode_key n) [
    | none ↦ (o, decode_failed)
    | some k ↦ elim (decode_value m) [
      | none ↦ (o, decode_failed)
      | some v ↦ decode_pairs rest (set o k v)
    ]
  ]

  unfoldable pub unmarshal_yaml : Bool → List Node → OrderedMap K V → OrderedMap K V × Unmarshalled
  unfolding decode_pairs
  unmarshal_yaml is_mapping content o =
      if is_mapping then decode_pairs content o else (o, not_a_mapping)

  -- Whatever the document and wherever the reading stops, a valid map stays valid.
  pub decode_pairs-IsValid :
      (ns : List Node) (o : OrderedMap K V) → IsValid o → IsValid (decode_pairs ns o).0
  unfolding decode_pairs
  decode_pairs-IsValid [] o h = h
  decode_pairs-IsValid (n ∷ []) o h = elim (Option-cases (decode_key n)) [
    | inl p ↦ rw (p, decode_pairs) h
    | inr (k, p) ↦ rw (p, decode_pairs) h
  ]
  decode_pairs-IsValid (n ∷ m ∷ rest) o h = elim (Option-cases (decode_key n)) [
    | inl p ↦ rw (p, decode_pairs) h
    | inr (k, p) ↦ elim (Option-cases (decode_value m)) [
      | inl q ↦ rw (p, q, decode_pairs) h
      | inr (v, q) ↦
          rw (p, q, decode_pairs) (decode_pairs-IsValid rest (set o k v) (set-IsValid o k v h))
    ]
  ]

  -- The nodes of a mapping that lists these pairs.
  abbrev pub nodes : (K → Node) → (V → Node) → List (K × V) → List Node
  nodes key_node value_node [] = []
  nodes key_node value_node ((k, v) ∷ kvs) =
      key_node k ∷ value_node v ∷ nodes key_node value_node kvs

  -- Keys that occur neither later in the list nor in the map read so far.
  abbrev pub Fresh : List (K × V) → List (K × V) → Type (ℓ ⊔ κ)
  Fresh seen [] = Unit
  Fresh seen ((k, v) ∷ kvs) = (drop_key k seen ≡ seen) × Fresh (seen ++ (k, v) ∷ []) kvs

  module _ (key_node : K → Node) (value_node : V → Node)
      (decode_key_node : (k : K) → decode_key (key_node k) ≡ some k)
      (decode_value_node : (v : V) → decode_value (value_node v) ≡ some v) where
    decode_pairs-nodes :
        (zero : V) (kvs : List (K × V)) (o : OrderedMap K V)
        → IsValid o
        → Fresh (entries zero o) kvs
        → (entries zero (decode_pairs (nodes key_node value_node kvs) o).0 ≡ entries zero o ++ kvs)
          × ((decode_pairs (nodes key_node value_node kvs) o).1 ≡ finished)
    unfolding decode_pairs
    decode_pairs-nodes zero [] o h f = (sym (append-nil _), refl)
    decode_pairs-nodes zero ((k, v) ∷ kvs) o h f =
        let step : entries zero (set o k v) ≡ entries zero o ++ (k, v) ∷ [] =
          entries-set zero o k v h ∙ ap (λ es. es ++ (k, v) ∷ []) f.0 in
        let (later, done) =
          decode_pairs-nodes zero kvs (set o k v) (set-IsValid o k v h) (rw step f.1) in
        rw (decode_key_node k, decode_value_node v)
          (later ∙ ap (λ es. es ++ kvs) step ∙ append_assoc _ ((k, v) ∷ []) kvs, done)

    -- A mapping whose keys differ is read into a map with the same entries in the same order.
    pub unmarshal_yaml-nodes :
        (zero : V) (kvs : List (K × V))
        → Fresh [] kvs
        → (entries zero (unmarshal_yaml true (nodes key_node value_node kvs) empty).0 ≡ kvs)
          × ((unmarshal_yaml true (nodes key_node value_node kvs) empty).1 ≡ finished)
    unfolding unmarshal_yaml entries
    unmarshal_yaml-nodes zero kvs f = decode_pairs-nodes zero kvs empty IsValid-empty f
