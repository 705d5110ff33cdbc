-- ===== src/Objects/Outcomes.antt =====
-- Building any object of internal/asyncapi at a position of the document.
use mathlib.Core.List.{cons-ne-nil}
use mathlib.Core.Option.{none-ne-some}
use mathlib.Core.Path.{subst}
use go_asyncapi.Common.{
  ◌≡◌, ◌≢◌, refl, ap, sym, Bool, true, false, not, ◌||◌, ◌&&◌, none, some, List, [], ◌∷◌, Bytes,
  codes, inl, inr, Bool-cases, ◌==◌, bytes_eq, if◌then◌else◌, if_keeps, map,
}
use go_asyncapi.Compilation.{CompilationOpts}
use go_asyncapi.Jsonpointer.{UrlPackage}
use go_asyncapi.Jsonpointer.Escape.{AreVisible}
use go_asyncapi.Names.{CasePackage}
use go_asyncapi.Context.{Result, Flags, DocumentTreeItem, path_stack}
use go_asyncapi.Types.OrderedMap.{empty, entries}
use go_asyncapi.Types.Stack.{top, items, last}
use go_asyncapi.Schema.Location.{parse_runtime_expression}
use go_asyncapi.Schema.Parts.{Ctx, coalesce_names}
use go_asyncapi.Schema.Promises.{Ready}
use go_asyncapi.Objects
use go_asyncapi.Objects.Monad.{Build, ◌>>=◌, pure, fail}
use go_asyncapi.Objects.Build.{
  Compiled, build_message, message_ref_name, selectable_flag, or_crash, register_ref,
}
use go_asyncapi.Objects.Entities.{
  build_channel, build_server, build_operation, build_reply, build_reply_address,
  build_correlation_id, build_security_scheme, build_parameter, build_server_variable,
  new_security_scheme,
}
use go_asyncapi.Objects.Compile.{
  Decoders, AnyObject, schema_object, server_object, channel_object, operation_object, reply_object,
  reply_address_object, message_object, security_object, correlation_id_object, parameter_object,
  variable_object, bindings_object, async_api_object, no_value, build_bindings, build_async_api,
  build_any,
}
use go_asyncapi.Objects.Effects.{Outcome, pure-Yields, fail-Yields, extended-nil}
use go_asyncapi.Objects.Steps.{Parses}
use go_asyncapi.Objects.Registered.{
  Adds, promise_values, register_ref-Adds, or_ref-Adds, new_channel-Adds, promises_of, lists_of,
}
use go_asyncapi.Objects.Adds.{
  new_server-Adds, new_reply-Adds, new_security_scheme-Adds, new_parameter-Adds, new_message-Adds,
  at_location-Adds,
}
use go_asyncapi.Objects.Fitting.{Fits, Faulty, all-Fine, new_bindings-Adds, operation_with-Adds}
use go_asyncapi.Render.{
  server_artifact, channel_artifact, operation_artifact, reply_artifact, message_artifact,
  dummy_server, dummy_channel, dummy_operation, dummy_reply, dummy_message, dummy_holder,
  reply_address_artifact, correlation_id_artifact, variable_artifact, async_api_artifact,
}

-- A message that is a reference stands below the components, if at all, not in their place.
abbrev pub Placed : AnyObject → List Bytes → Type 0
Placed (message_object o) path = path ≢ codes "components" ∷ []
Placed (schema_object o) path = Unit
Placed (server_object o) path = Unit
Placed (channel_object o) path = Unit
Placed (operation_object o) path = Unit
Placed (reply_object o) path = Unit
Placed (reply_address_object o) path = Unit
Placed (security_object o) path = Unit
Placed (correlation_id_object o) path = Unit
Placed (parameter_object o) path = Unit
Placed (variable_object o) path = Unit
Placed (bindings_object o) path = Unit
Placed (async_api_object o) path = Unit

abbrev pub NoSchema : AnyObject → Type 0
NoSchema (schema_object o) = ⊥
NoSchema (message_object o) = Unit
NoSchema (server_object o) = Unit
NoSchema (channel_object o) = Unit
NoSchema (operation_object o) = Unit
NoSchema (reply_object o) = Unit
NoSchema (reply_address_object o) = Unit
NoSchema (security_object o) = Unit
NoSchema (correlation_id_object o) = Unit
NoSchema (parameter_object o) = Unit
NoSchema (variable_object o) = Unit
NoSchema (bindings_object o) = Unit
NoSchema (async_api_object o) = Unit

-- The name is found on every other path.
message_ref_name-some :
    (path : List Bytes) (key : Bytes)
    → path ≢ []
    → path ≢ codes "components" ∷ []
    → (name : Bytes) × (message_ref_name path key ≡ some name)
message_ref_name-some [] key h g = absurd (h refl)
message_ref_name-some (a ∷ []) key h g = elim (Bool-cases (a == codes "components")) [
  | inl e ↦ absurd (g (ap (λ x. x ∷ []) ((bytes_eq.same_iff a (codes "components")).0 e)))
  | inr e ↦ rw e ([], refl)
]
message_ref_name-some (a ∷ b ∷ path) key h g = (_, refl)

promise_values-empty : promise_values empty ≡ []
unfolding promise_values entries
promise_values-empty = refl

last-map :
    (xs : List DocumentTreeItem) (item : DocumentTreeItem)
    → last xs ≡ some item
    → map (λ x. x.key) xs ≢ []
last-map [] item e h = absurd (none-ne-some item e)
last-map (x ∷ xs) item e h = cons-ne-nil x.key (map (λ y. y.key) xs) h

path-ne-nil : (c : Ctx) → Ready c → path_stack c ≢ []
unfolding path_stack top items
path-ne-nil c ((item, e), _) = last-map c.stack.stack item e

module _ (decoders : Decoders) (conv : CasePackage) (net : UrlPackage) (opts : CompilationOpts)
    (trim_visible : (s : Bytes) → AreVisible s → net.trim_space s ≡ s) where
  -- A result with what its artifact promises.
  abbrev Good : Type 0 → Ctx → Result (Compiled × Ctx) → Type 0
  Good Err = Outcome net Err (λ a ps ls. (ps ≡ promises_of a) × (ls ≡ lists_of a))

  message-Outcome :
      (o : Objects.Message) (key : Bytes) (flags : Flags) (c : Ctx)
      → Ready c
      → Parses net o.ref
      → Parses net []
      → path_stack c ≢ codes "components" ∷ []
      → Good ⊥ c (build_message conv net opts o key flags c)
  unfolding build_message
  message-Outcome o key flags c ready h root g =
      let (name, n) = message_ref_name-some (path_stack c) key (path-ne-nil c ready) g in
      let ignored : Adds net ⊥ (pure (message_artifact dummy_message)) =
        pure-Yields net ⊥ _ (message_artifact dummy_message) (refl, refl) in
      if_keeps (λ (m : Build Compiled). Good ⊥ c (m c)) o.x_ignore (ignored.run c ready)
        (if_keeps (λ (m : Build Compiled). Good ⊥ c (m c)) (not (o.ref == []))
          (subst
            (λ x.
              Good ⊥ c
                ((or_crash x >>= λ k. register_ref conv net o.ref k (selectable_flag flags)) c))
            (sym n)
            ((register_ref-Adds net ⊥ conv trim_visible o.ref name (selectable_flag flags) h).run c
              ready))
          ((new_message-Adds net ⊥ conv trim_visible opts o (coalesce_names o.x_go_name key) flags
              root).run
            c ready))

  scheme-Adds :
      (o : Objects.SecurityScheme) (key : Bytes)
      → Adds net (o.scheme_type ≡ []) (
          if o.scheme_type == []
          then fail (codes "security scheme type is empty")
          else new_security_scheme conv net o (coalesce_names o.x_go_name key))
  scheme-Adds o key = elim (Bool-cases (o.scheme_type == [])) [
    | inl e ↦ rw e (fail-Yields net _ _ _ ((bytes_eq.same_iff o.scheme_type []).0 e))
    | inr e ↦ rw e (new_security_scheme-Adds net _ conv trim_visible o _)
  ]

  version_checked :
      (o : Objects.AsyncApi) (c : Ctx) (missing valid : Bool)
      → (missing ≡ true → o.version ≡ [])
      → (valid ≡ false → decoders.version_valid (118 ∷ o.version) ≡ false)
      → Good (Faulty decoders (async_api_object o)) c (
          (if missing || not valid
              then fail (codes "bad asyncapi version")
              else pure (async_api_artifact o.default_content_type))
            c)
  version_checked o c true valid h k = inl (h refl)
  version_checked o c false false h k = inr (k refl)
  version_checked o c false true h k = ([], [], extended-nil net c, (refl, refl))

  -- The root object does not read the stack.
  pub async_api-Outcome :
      (o : Objects.AsyncApi) (c : Ctx)
      → Good (Faulty decoders (async_api_object o)) c (build_async_api decoders o c)
  unfolding build_async_api
  async_api-Outcome o c =
      version_checked o c (o.version == []) (decoders.version_valid (118 ∷ o.version))
        (λ e. (bytes_eq.same_iff o.version []).0 e) (λ e. e)

  -- If there is a current item, the keys of its path are bytes, and what the object refers to can be
  -- parsed, then building an object that is no schema returns an artifact and adds to the context
  -- exactly the promises and the list promises that stand in the artifact, in order, and the
  -- documents that these promises refer to, or fails because of the object: an operation without a
  -- channel, a security scheme without a type, a location or a binding that cannot be read, or a
  -- bad version. (A reference in place of a message must not stand at the top of `components`.)
  pub build_any-Outcome :
      (o : AnyObject) (item : DocumentTreeItem) (c : Ctx)
      → Ready c
      → Fits net o
      → Placed o (path_stack c)
      → NoSchema o
      → Outcome net
          (Faulty decoders o)
          (λ a ps ls. (ps ≡ promises_of a) × (ls ≡ lists_of a))
          c
          (build_any decoders conv net opts o item c)
  unfolding build_any build_server build_channel build_operation build_reply build_reply_address
      build_correlation_id build_security_scheme build_parameter build_server_variable
      build_bindings build_async_api
  build_any-Outcome (schema_object o) item c ready f p n = absurd n
  build_any-Outcome (server_object o) item c ready (h, hv) p n =
      (if_keeps (Adds net ⊥) o.x_ignore
          (pure-Yields net ⊥ _ (server_artifact dummy_server) (rw promise_values-empty refl, refl))
          (or_ref-Adds net ⊥ conv trim_visible o.ref item.key (selectable_flag item.flags) _ h
            (new_server-Adds net ⊥ conv trim_visible opts o _ item.flags hv))).run
        c ready
  build_any-Outcome (channel_object o) item c ready (h, hs, hp, hm) p n =
      (if_keeps (Adds net ⊥)
          (o.x_ignore || (not opts.generate_publishers && not opts.generate_subscribers))
          (pure-Yields net ⊥ _ (channel_artifact dummy_channel)
            (rw promise_values-empty refl, refl))
          (or_ref-Adds net ⊥ conv trim_visible o.ref item.key (selectable_flag item.flags) _ h
            (new_channel-Adds net ⊥ conv trim_visible opts o _ item.flags hs hp hm))).run
        c ready
  build_any-Outcome (operation_object o) item c ready (h, hc, hm) p n =
      (if_keeps (Adds net (o.channel ≡ none)) o.x_ignore
          (pure-Yields net _ _ (operation_artifact dummy_operation) (refl, refl))
          (or_ref-Adds net _ conv trim_visible o.ref item.key (selectable_flag item.flags) _ h (
            operation_with-Adds decoders conv net trim_visible _ opts o item.key item.flags
              o.channel hc hm (λ e. e)))).run
        c ready
  build_any-Outcome (reply_object o) item c ready (h, hc, hm) p n =
      (if_keeps (Adds net ⊥) o.x_ignore
          (pure-Yields net ⊥ _ (reply_artifact dummy_reply) (refl, refl))
          (or_ref-Adds net ⊥ conv trim_visible o.ref item.key none _ h
            (new_reply-Adds net ⊥ conv trim_visible o item.key hc hm))).run
        c ready
  build_any-Outcome (reply_address_object o) item c ready h p n =
      (if_keeps (Adds net _) o.x_ignore
          (pure-Yields net _ _ (reply_address_artifact dummy_holder) (refl, refl))
          (or_ref-Adds net _ conv trim_visible o.ref item.key none _ h (
            at_location-Adds net _ conv trim_visible reply_address_artifact (λ a. (refl, refl))
              item.key o.description o.location (parse_runtime_expression o.location)
              (λ e q. (e, q))))).run
        c ready
  build_any-Outcome (correlation_id_object o) item c ready h p n =
      (if_keeps (Adds net _) o.x_ignore
          (pure-Yields net _ _ (correlation_id_artifact dummy_holder) (refl, refl))
          (or_ref-Adds net _ conv trim_visible o.ref item.key none _ h (
            at_location-Adds net _ conv trim_visible correlation_id_artifact (λ a. (refl, refl))
              item.key o.description o.location (parse_runtime_expression o.location)
              (λ e q. (e, q))))).run
        c ready
  build_any-Outcome (message_object o) item c ready (h, root) p n =
      message-Outcome o item.key item.flags c ready h root p
  build_any-Outcome (security_object o) item c ready h p n =
      (or_ref-Adds net (o.scheme_type ≡ []) conv trim_visible o.ref item.key none _ h
          (scheme-Adds o item.key)).run
        c ready
  build_any-Outcome (parameter_object o) item c ready h p n =
      (or_ref-Adds net ⊥ conv trim_visible o.ref item.key none _ h
          (new_parameter-Adds net ⊥ conv trim_visible o _)).run
        c ready
  build_any-Outcome (variable_object o) item c ready h p n =
      (or_ref-Adds net ⊥ conv trim_visible o.ref item.key none _ h
          (pure-Yields net ⊥ _ (variable_artifact _) (refl, refl))).run
        c ready
  build_any-Outcome (bindings_object o) item c ready (h, hs) p n =
      (or_ref-Adds net _ conv trim_visible o.ref item.key none _ h (
          new_bindings-Adds decoders conv net trim_visible _ o item.key (
            all-Fine decoders conv net trim_visible _ (entries no_value o.protocol_values) hs
              (λ b. b)))).run
        c ready
  build_any-Outcome (async_api_object o) item c ready h p n = async_api-Outcome o c
