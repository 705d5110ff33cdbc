-- ===== src/Objects/Fitting.antt =====
-- What building any of the objects of internal/asyncapi adds to the compile context, and when it
-- fails.
use go_asyncapi.Common.{
  ℕ, ◌≡◌, ◌∙◌, refl, true, false, Option, none, some, List, [], ◌∷◌, Bytes, codes, All, ◌⊎◌, inl,
  inr, Bool-cases, bytes_eq, eqb,
}
use go_asyncapi.Compilation.{CompilationOpts}
use go_asyncapi.Jsonpointer.{UrlPackage}
use go_asyncapi.Jsonpointer.Escape.{AreBytes, AreVisible}
use go_asyncapi.Names.{CasePackage}
use go_asyncapi.Context.{ObjectPromise, Flags}
use go_asyncapi.Types.Union.{Union2}
use go_asyncapi.Types.OrderedMap.{entries, set_all, empty}
use go_asyncapi.Schema.Location.{LocationError, refused, parse_runtime_expression}
use go_asyncapi.Schema.Parts.{zero_schema}
use go_asyncapi.Objects
use go_asyncapi.Objects.{StandaloneRef}
use go_asyncapi.Objects.Entities.{operation_with}
use go_asyncapi.Objects.Compile.{
  Decoders, AnyObject, schema_object, server_object, channel_object, operation_object, reply_object,
  reply_address_object, message_object, security_object, correlation_id_object, parameter_object,
  variable_object, bindings_object, async_api_object, no_value, decode_value, decoded, new_bindings,
}
use go_asyncapi.Objects.Effects.{Yields, bind-Yields, pure-Yields, fail-Yields, weakened}
use go_asyncapi.Objects.Steps.{Parses, of_option, concat_map, for_each-Yields}
use go_asyncapi.Objects.Registered.{Adds, KeysReady}
use go_asyncapi.Objects.Adds.{new_operation-Adds}
use go_asyncapi.Render.{bindings_artifact}

abbrev pub AllParse : UrlPackage → List StandaloneRef → Type 0
AllParse net = All (λ r. Parses net r.ref)

module _ (net : UrlPackage) where
  -- The references of an object can be parsed, its own and those that it holds; its names are byte
  -- strings that differ, and its bindings are JSON or YAML.
  abbrev pub Fits : AnyObject → Type 0
  Fits (schema_object o) =
      Parses net o.ref × All (λ e. AreBytes e.0) (entries zero_schema o.properties)
  Fits (server_object o) = Parses net o.ref × KeysReady o.variables
  Fits (channel_object o) =
      Parses net o.ref × AllParse net o.servers × KeysReady o.parameters × KeysReady o.messages
  Fits (operation_object o) =
      Parses net o.ref
      × AllParse net (of_option o.channel)
      × All (AllParse net) (of_option o.messages)
  Fits (reply_object o) =
      Parses net o.ref
      × AllParse net (of_option o.channel)
      × All (AllParse net) (of_option o.messages)
  Fits (reply_address_object o) = Parses net o.ref
  Fits (message_object o) = Parses net o.ref × Parses net []
  Fits (security_object o) = Parses net o.ref
  Fits (correlation_id_object o) = Parses net o.ref
  Fits (parameter_object o) = Parses net o.ref
  Fits (variable_object o) = Parses net o.ref
  Fits (bindings_object o) =
      Parses net o.ref
      × All (λ e. (eqb e.1.selector 0 ≡ true) ⊎ (eqb e.1.selector 1 ≡ true))
          (entries no_value o.protocol_values)
  Fits (async_api_object o) = Unit

module _ (decoders : Decoders) where
  -- A value that cannot be decoded.
  abbrev pub Undecodable : Bytes × Union2 Bytes ℕ → Type 0
  Undecodable (k, v) =
      ((eqb v.selector 0 ≡ true) × (decoders.json_unmarshal v.v0 ≡ none))
      ⊎ ((eqb v.selector 1 ≡ true) × (decoders.node_decode v.v1 ≡ none))

  abbrev pub HasUndecodable : List (Bytes × Union2 Bytes ℕ) → Type 0
  HasUndecodable [] = ⊥
  HasUndecodable (e ∷ es) = Undecodable e ⊎ HasUndecodable es

  -- Why building an object may fail; a schema's reasons are left open.
  abbrev pub Faulty : AnyObject → Type 0
  Faulty (schema_object o) = Unit
  Faulty (server_object o) = ⊥
  Faulty (channel_object o) = ⊥
  Faulty (operation_object o) = o.channel ≡ none
  Faulty (reply_object o) = ⊥
  Faulty (reply_address_object o) =
      (e : LocationError) × (parse_runtime_expression o.location ≡ refused e)
  Faulty (message_object o) = ⊥
  Faulty (security_object o) = o.scheme_type ≡ []
  Faulty (correlation_id_object o) =
      (e : LocationError) × (parse_runtime_expression o.location ≡ refused e)
  Faulty (parameter_object o) = ⊥
  Faulty (variable_object o) = ⊥
  Faulty (bindings_object o) = HasUndecodable (entries no_value o.protocol_values)
  Faulty (async_api_object o) =
      (o.version ≡ []) ⊎ (decoders.version_valid (118 ∷ o.version) ≡ false)

  module _ (conv : CasePackage) (net : UrlPackage)
      (trim_visible : (s : Bytes) → AreVisible s → net.trim_space s ≡ s) where
    abbrev pub Fine : Type 0 → Bytes × Union2 Bytes ℕ → Type 0
    Fine Err e = ((eqb e.1.selector 0 ≡ true) ⊎ (eqb e.1.selector 1 ≡ true)) × (Undecodable e → Err)

    decoded-Yields :
        (Err : Type 0) (message k : Bytes) (contents : Option ℕ)
        → (contents ≡ none → Err)
        → Yields net Err (λ y ps ls. (ps ≡ []) × (ls ≡ []) × Unit {0}) (decoded message k contents)
    decoded-Yields Err message k none h = fail-Yields net Err _ message (h refl)
    decoded-Yields Err message k (some n) h = pure-Yields net Err _ (k, n) (refl, refl, tt)

    decode_value-Yields :
        (Err : Type 0) (e : Bytes × Union2 Bytes ℕ)
        → Fine Err e
        → Yields net Err (λ y ps ls. (ps ≡ []) × (ls ≡ []) × Unit {0}) (decode_value decoders e)
    decode_value-Yields Err (k, v) (inl h, bad) =
        rw h (decoded-Yields Err _ k (decoders.json_unmarshal v.v0) (λ f. bad (inl (h, f))))
    decode_value-Yields Err (k, v) (inr h, bad) = elim (Bool-cases (eqb v.selector 0)) [
      | inl g ↦ rw g (decoded-Yields Err _ k (decoders.json_unmarshal v.v0) (λ f. bad (inl (g, f))))
      | inr g ↦
          rw (g, h) (decoded-Yields Err _ k (decoders.node_decode v.v1) (λ f. bad (inr (h, f))))
    ]

    pub all-Fine :
        (Err : Type 0) (es : List (Bytes × Union2 Bytes ℕ))
        → All (λ e. (eqb e.1.selector 0 ≡ true) ⊎ (eqb e.1.selector 1 ≡ true)) es
        → (HasUndecodable es → Err)
        → All (Fine Err) es
    all-Fine Err [] h bad = tt
    all-Fine Err (e ∷ es) (he, hs) bad =
        ((he, λ b. bad (inl b)), all-Fine Err es hs (λ b. bad (inr b)))

    concat_none : {B : Type 0} (ys : List B) → concat_map {B = ObjectPromise} (λ y. []) ys ≡ []
    concat_none [] = refl
    concat_none (y ∷ ys) = concat_none ys

    pub new_bindings-Adds :
        (Err : Type 0) (o : Objects.Bindings) (name : Bytes)
        → All (Fine Err) (entries no_value o.protocol_values)
        → Adds net Err (new_bindings decoders o name)
    new_bindings-Adds Err o name h =
        bind-Yields net Err (λ ys ps ls. (ps ≡ []) × (ls ≡ [])) _ _ _
          (weakened net Err (λ ys ps ls p. (p.0 ∙ concat_none ys, p.1))
            (for_each-Yields net Err (λ x y. Unit {0}) (Fine Err) (λ y. []) (decode_value decoders)
              (decode_value-Yields Err) (entries no_value o.protocol_values) h))
          (λ values ps ls p.
            pure-Yields net Err _
              (bindings_artifact (record { original_name = name; values = set_all empty values }))
              (rw p.0 refl, rw p.1 refl))

    pub operation_with-Adds :
        (Err : Type 0) (opts : CompilationOpts) (o : Objects.Operation) (name : Bytes)
        (flags : Flags) (channel : Option StandaloneRef)
        → AllParse net (of_option channel)
        → All (AllParse net) (of_option o.messages)
        → (channel ≡ none → Err)
        → Adds net Err (operation_with conv net opts o name flags channel)
    operation_with-Adds Err opts o name flags none hc hm bad =
        fail-Yields net Err _ (codes "channel field is empty") (bad refl)
    operation_with-Adds Err opts o name flags (some r) (hr, _) hm bad =
        new_operation-Adds net Err conv trim_visible opts o r name flags hr hm
