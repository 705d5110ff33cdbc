-- ===== src/Objects/Registered.antt =====
-- The promises in the artifacts of internal/asyncapi, and that building an object registers them.
use go_asyncapi.Common.{
  ℕ, suc, ◌≡◌, ◌≤◌, refl, ap, Bool, not, Option, List, [], ◌∷◌, ◌++◌, Bytes, codes, All, map,
  append-nil, ◌==◌, bytes_eq, if_keeps, arith,
}
use go_asyncapi.Compilation.{CompilationOpts}
use go_asyncapi.Jsonpointer.{UrlPackage}
use go_asyncapi.Jsonpointer.Escape.{AreBytes, AreVisible}
use go_asyncapi.Linker.{origin_internal, origin_ref}
use go_asyncapi.Names.{CasePackage}
use go_asyncapi.Context.{ObjectPromise, Flags}
use go_asyncapi.Types.OrderedMap.{OrderedMap, empty, keys, set_all, entries}
use go_asyncapi.Types.OrderedMap.Invariant.{map_keys, count, IsValid}
use go_asyncapi.Types.OrderedMap.Filled.{entries-set_all-empty}
use go_asyncapi.Schema.{ListPromise, promises_in, active_servers, active_operations}
use go_asyncapi.Schema.Parts.{itoa}
use go_asyncapi.Schema.Promises.{digits-AreBytes}
use go_asyncapi.Objects
use go_asyncapi.Objects.{StandaloneRef}
use go_asyncapi.Objects.Monad.{Build, promise_of, promise_at, is_some}
use go_asyncapi.Objects.Build.{
  Compiled, register_ref, bindings_promise, security_promises, ref_promises, indexes,
}
use go_asyncapi.Objects.Entities.{made_channel, or_ref, new_channel}
use go_asyncapi.Objects.Effects.{Yields, Exactly, bind-Exactly, bind-Yields, pure-Yields}
use go_asyncapi.Objects.Steps.{
  Parses, of_option, registered-Exactly, list_promise-Exactly, when-Exactly, for_each-promises,
  promise_of-Exactly, promise_at-Exactly, named_promises-Yields,
}
use go_asyncapi.Render.{
  schema_artifact, server_artifact, channel_artifact, operation_artifact, reply_artifact,
  reply_address_artifact, message_artifact, security_artifact, correlation_id_artifact,
  parameter_artifact, variable_artifact, bindings_artifact, async_api_artifact, ref_artifact,
}

-- The value at a key that is missing, which is never read.
abbrev pub no_promise : ObjectPromise
no_promise = record { ref = []; origin = origin_internal }

-- The promises in a map, in order.
unfoldable pub promise_values : OrderedMap Bytes ObjectPromise → List ObjectPromise
promise_values m = map (λ e. e.1) (entries no_promise m)

-- The promises that stand in an artifact, in the order in which the build methods make them.
abbrev pub promises_of : Compiled → List ObjectPromise
promises_of (schema_artifact t) = promises_in t
promises_of (server_artifact s) =
    of_option s.bindings_promise
    ++ (s.security_scheme_promises ++ promise_values s.variables_promises)
promises_of (channel_artifact h) =
    h.servers_promises
    ++ (promise_values h.parameter_promises
        ++ (h.messages_promises ++ of_option h.bindings_promise))
promises_of (operation_artifact o) =
    of_option o.channel_promise
    ++ (of_option o.bindings_promise
        ++ (o.security_scheme_promises
            ++ (o.messages_promises ++ of_option o.operation_reply_promise)))
promises_of (reply_artifact r) =
    of_option r.operation_reply_address_promise
    ++ (of_option r.channel_promise ++ r.messages_promises)
promises_of (reply_address_artifact h) = []
promises_of (message_artifact m) =
    of_option m.async_api_promise
    ++ (of_option m.headers_type_promise
        ++ (of_option m.payload_type_promise
            ++ (of_option m.bindings_promise ++ of_option m.correlation_id_promise)))
promises_of (security_artifact s) = []
promises_of (correlation_id_artifact h) = []
promises_of (parameter_artifact name) = []
promises_of (variable_artifact v) = []
promises_of (bindings_artifact b) = []
promises_of (async_api_artifact content_type) = []
promises_of (ref_artifact p name selectable) = p ∷ []

-- The list promises; those of schemas are left out, since its fields share them.
abbrev pub lists_of : Compiled → List ListPromise
lists_of (schema_artifact t) = []
lists_of (server_artifact s) = of_option s.all_active_channels_promise
lists_of (channel_artifact h) =
    of_option h.all_active_servers_promise ++ of_option h.all_active_operations_promise
lists_of (operation_artifact o) = []
lists_of (reply_artifact r) = []
lists_of (reply_address_artifact h) = []
lists_of (message_artifact m) =
    of_option m.all_active_channels_promise ++ of_option m.all_active_operations_promise
lists_of (security_artifact s) =
    of_option s.all_secured_servers_promise ++ of_option s.all_secured_operations_promise
lists_of (correlation_id_artifact h) = []
lists_of (parameter_artifact name) = []
lists_of (variable_artifact v) = []
lists_of (bindings_artifact b) = []
lists_of (async_api_artifact content_type) = []
lists_of (ref_artifact p name selectable) = []

pub promise_values-set_all :
    (ys : List (Bytes × ObjectPromise)) (ks : List Bytes)
    → map_keys ys ≡ ks
    → ((k : Bytes) → count k ks ≤ 1)
    → promise_values (set_all empty ys) ≡ map (λ y. y.1) ys
unfolding promise_values
promise_values-set_all ys ks e h =
    ap (map (λ y. y.1)) (entries-set_all-empty no_promise ys (λ j. rw e (h j)))

abbrev pub KeysReady : {V : Type 0} → OrderedMap Bytes V → Type 0
KeysReady m = IsValid m × All AreBytes (keys m)

pub keys_once :
    {V : Type 0} (m : OrderedMap Bytes V) → IsValid m → (k : Bytes) → count k (keys m) ≤ 1
unfolding keys
keys_once m h = h.once

All-trivial : (xs : List ℕ) → All (λ i. Unit {0}) xs
All-trivial [] = tt
All-trivial (x ∷ xs) = (tt, All-trivial xs)

module _ (net : UrlPackage) (Err : Type 0) where
  -- Building an artifact adds its promises and list promises to the context, and nothing else.
  abbrev pub Adds : Build Compiled → Type 0
  Adds = Yields net Err (λ a ps ls. (ps ≡ promises_of a) × (ls ≡ lists_of a))

  module _ (conv : CasePackage)
      (trim_visible : (s : Bytes) → AreVisible s → net.trim_space s ≡ s) where
    pub bindings_promise-Exactly :
        (b : Option Objects.Bindings)
        → Exactly net Err of_option (λ o. []) (bindings_promise conv net b)
    bindings_promise-Exactly b =
        when-Exactly net Err (is_some b) (promise_at net (codes "bindings" ∷ []))
          (promise_at-Exactly net Err conv trim_visible (codes "bindings") [] (ground arith, tt))

    pub register_ref-Adds :
        (ref name : Bytes) (selectable : Option Bool)
        → Parses net ref
        → Adds (register_ref conv net ref name selectable)
    register_ref-Adds ref name selectable h =
        bind-Exactly net Err _ _
          (registered-Exactly net Err (record { ref = ref; origin = origin_ref }) h)
          (λ p. pure-Yields net Err _ (ref_artifact p name selectable) (refl, refl))

    pub or_ref-Adds :
        (ref name : Bytes) (selectable : Option Bool) (m : Build Compiled)
        → Parses net ref
        → Adds m
        → Adds (or_ref conv net ref name selectable m)
    or_ref-Adds ref name selectable m h k =
        if_keeps Adds (not (ref == [])) (register_ref-Adds ref name selectable h) k

    pub security_promises-Exactly :
        (security : List Objects.SecurityScheme)
        → Exactly net Err (λ qs. qs) (λ qs. []) (security_promises conv net security)
    security_promises-Exactly security =
        for_each-promises net Err (λ i. Unit {0})
          (λ i. promise_at net (codes "security" ∷ itoa i ∷ []))
          (λ i h.
            promise_at-Exactly net Err conv trim_visible (codes "security") (itoa i ∷ [])
              (ground arith, (digits-AreBytes (suc i) i, tt)))
          (indexes 0 security) (All-trivial (indexes 0 security))

    pub ref_promises-Exactly :
        (refs : List StandaloneRef)
        → All (λ r. Parses net r.ref) refs
        → Exactly net Err (λ qs. qs) (λ qs. []) (ref_promises conv net refs)
    ref_promises-Exactly refs h =
        for_each-promises net Err (λ r. Parses net r.ref) (λ r. promise_of net r.ref)
          (λ r g. promise_of-Exactly net Err r.ref g) refs h

    pub new_channel-Adds :
        (opts : CompilationOpts) (o : Objects.Channel) (name : Bytes) (flags : Flags)
        → All (λ r. Parses net r.ref) o.servers
        → KeysReady o.parameters
        → KeysReady o.messages
        → Adds (new_channel conv net opts o name flags)
    unfolding new_channel
    new_channel-Adds opts o name flags hs (vp, kp) (vm, km) =
        bind-Exactly net Err _ _ (ref_promises-Exactly o.servers hs) (λ servers.
          bind-Exactly net Err _ _ (list_promise-Exactly net Err active_servers) (λ all_servers.
            bind-Yields net Err _ _ _ _
              (named_promises-Yields net Err conv trim_visible (codes "parameters") (ground arith)
                (keys o.parameters) kp)
              (λ parameters ps ls p.
                bind-Exactly net Err _ _
                  (for_each-promises net Err AreBytes
                    (λ k. promise_at net (codes "messages" ∷ k ∷ []))
                    (λ k hk.
                      promise_at-Exactly net Err conv trim_visible (codes "messages") (k ∷ [])
                        (ground arith, (hk, tt)))
                    (keys o.messages) km)
                  (λ messages.
                    bind-Exactly net Err _ _ (list_promise-Exactly net Err active_operations)
                      (λ operations.
                        bind-Exactly net Err _ _ (bindings_promise-Exactly o.bindings) (λ bindings.
                          pure-Yields net Err _
                            (made_channel opts o name flags servers parameters messages all_servers
                              operations bindings)
                            (
                              rw
                                  (
                                    p.0,
                                    append-nil,
                                    promise_values-set_all parameters (keys o.parameters) p.2
                                        (keys_once o.parameters vp),
                                  )
                                  refl,
                              rw p.1 refl,
                            )))))))
