-- ===== src/Objects/Adds.antt =====
-- That building each of the objects of internal/asyncapi adds its promises to the compile context.
use go_asyncapi.Common.{
  ◌≡◌, refl, Bool, true, false, Option, none, some, List, [], ◌∷◌, Bytes, codes, All, append-nil,
  bytes_eq, arith,
}
use go_asyncapi.Compilation.{CompilationOpts}
use go_asyncapi.Jsonpointer.{UrlPackage}
use go_asyncapi.Jsonpointer.Escape.{AreBytes, AreVisible}
use go_asyncapi.Names.{CasePackage}
use go_asyncapi.Context.{Flags}
use go_asyncapi.Types.OrderedMap.{keys}
use go_asyncapi.Schema.{
  active_channels, active_operations, secured_servers, secured_operations, GoType,
}
use go_asyncapi.Schema.Location.{Location, LocationError, located, refused}
use go_asyncapi.Objects
use go_asyncapi.Objects.{StandaloneRef}
use go_asyncapi.Objects.Monad.{when, promise_at, is_some}
use go_asyncapi.Objects.Build.{
  Compiled, build_in_out_struct, in_out_struct, messages_of, channel_of, new_message, made_message,
  promised_type, default_payload, default_headers,
}
use go_asyncapi.Objects.Entities.{
  new_server, made_server, new_operation, made_operation, new_reply, made_reply,
  new_security_scheme, made_security_scheme, new_parameter, at_location,
}
use go_asyncapi.Objects.Effects.{Exactly, bind-Exactly, bind-Yields, pure-Yields, fail-Yields}
use go_asyncapi.Objects.Steps.{
  Parses, of_option, list_promise-Exactly, when-Exactly, promise_of-Exactly, promise_at-Exactly,
  obj_name-Exactly, named_promises-Yields,
}
use go_asyncapi.Objects.Registered.{
  promises_of, lists_of, Adds, KeysReady, keys_once, promise_values-set_all,
  bindings_promise-Exactly, security_promises-Exactly, ref_promises-Exactly,
}
use go_asyncapi.Render.{ExpressionHolder, parameter_artifact}

module _ (net : UrlPackage) (Err : Type 0) (conv : CasePackage)
    (trim_visible : (s : Bytes) → AreVisible s → net.trim_space s ≡ s) where
  part_promise-Exactly :
      (b : Bool) (part : Bytes)
      → AreBytes part
      → Exactly net Err of_option (λ o. []) (when b (promise_at net (part ∷ [])))
  part_promise-Exactly b part h =
      when-Exactly net Err b (promise_at net (part ∷ []))
        (promise_at-Exactly net Err conv trim_visible part [] (h, tt))

  pub new_server-Adds :
      (opts : CompilationOpts) (o : Objects.Server) (name : Bytes) (flags : Flags)
      → KeysReady o.variables
      → Adds net Err (new_server conv net opts o name flags)
  unfolding new_server
  new_server-Adds opts o name flags (vv, kv) =
      bind-Exactly net Err _ _ (list_promise-Exactly net Err active_channels) (λ channels.
        bind-Exactly net Err _ _ (bindings_promise-Exactly net Err conv trim_visible o.bindings)
          (λ bindings.
            bind-Exactly net Err _ _
              (security_promises-Exactly net Err conv trim_visible o.security)
              (λ security.
                bind-Yields net Err _ _ _ _
                  (named_promises-Yields net Err conv trim_visible (codes "variables")
                    (ground arith) (keys o.variables) kv)
                  (λ variables ps ls p.
                    pure-Yields net Err _
                      (made_server opts o name flags channels bindings security variables)
                      (
                        rw
                            (
                              p.0,
                              append-nil,
                              promise_values-set_all variables (keys o.variables) p.2
                                  (keys_once o.variables vv),
                            )
                            refl,
                        rw p.1 refl,
                      )))))

  messages_of-Exactly :
      (messages : Option (List StandaloneRef))
      → All (λ rs. All (λ r. Parses net r.ref) rs) (of_option messages)
      → Exactly net Err (λ qs. qs) (λ qs. []) (messages_of conv net messages)
  messages_of-Exactly none h = record { exact = pure-Yields net Err _ [] (refl, refl) }
  messages_of-Exactly (some refs) (h, _) = ref_promises-Exactly net Err conv trim_visible refs h

  pub new_operation-Adds :
      (opts : CompilationOpts) (o : Objects.Operation) (r : StandaloneRef) (name : Bytes)
      (flags : Flags)
      → Parses net r.ref
      → All (λ rs. All (λ r. Parses net r.ref) rs) (of_option o.messages)
      → Adds net Err (new_operation conv net opts o r name flags)
  unfolding new_operation
  new_operation-Adds opts o r name flags hr hm =
      bind-Exactly net Err _ _ (promise_of-Exactly net Err r.ref hr) (λ channel.
        bind-Exactly net Err _ _ (bindings_promise-Exactly net Err conv trim_visible o.bindings)
          (λ bindings.
            bind-Exactly net Err _ _
              (security_promises-Exactly net Err conv trim_visible o.security)
              (λ security. bind-Exactly net Err _ _ (messages_of-Exactly o.messages hm) (λ messages.
                bind-Exactly net Err _ _
                  (part_promise-Exactly (is_some o.reply) (codes "reply") (ground arith))
                  (λ reply.
                    pure-Yields net Err _
                      (made_operation opts o name flags channel bindings security messages reply)
                      (rw append-nil refl, refl))))))

  channel_of-Exactly :
      (channel : Option StandaloneRef)
      → All (λ r. Parses net r.ref) (of_option channel)
      → Exactly net Err of_option (λ o. []) (channel_of conv net channel)
  channel_of-Exactly none h = record { exact = pure-Yields net Err _ none (refl, refl) }
  channel_of-Exactly (some r) (h, _) = record {
    exact =
        bind-Exactly net Err _ _ (promise_of-Exactly net Err r.ref h)
          (λ p. pure-Yields net Err _ (some p) (refl, refl));
  }

  pub new_reply-Adds :
      (o : Objects.OperationReply) (name : Bytes)
      → All (λ r. Parses net r.ref) (of_option o.channel)
      → All (λ rs. All (λ r. Parses net r.ref) rs) (of_option o.messages)
      → Adds net Err (new_reply conv net o name)
  unfolding new_reply
  new_reply-Adds o name hc hm =
      bind-Exactly net Err _ _
        (part_promise-Exactly (is_some o.address) (codes "address") (ground arith))
        (λ address. bind-Exactly net Err _ _ (channel_of-Exactly o.channel hc) (λ channel.
          bind-Exactly net Err _ _ (messages_of-Exactly o.messages hm) (λ messages.
            pure-Yields net Err _ (made_reply o name address channel messages)
              (rw append-nil refl, refl))))

  pub new_security_scheme-Adds :
      (o : Objects.SecurityScheme) (name : Bytes)
      → Adds net Err (new_security_scheme conv net o name)
  unfolding new_security_scheme
  new_security_scheme-Adds o name =
      bind-Exactly net Err _ _ (obj_name-Exactly net Err conv trim_visible name []) (λ made.
        bind-Exactly net Err _ _ (list_promise-Exactly net Err secured_servers) (λ servers.
          bind-Exactly net Err _ _ (list_promise-Exactly net Err secured_operations) (λ operations.
            pure-Yields net Err _ (made_security_scheme o made servers operations) (refl, refl))))

  pub new_parameter-Adds :
      (o : Objects.Parameter) (name : Bytes) → Adds net Err (new_parameter conv net o name)
  unfolding new_parameter
  new_parameter-Adds o name =
      bind-Exactly net Err _ _ (obj_name-Exactly net Err conv trim_visible name [])
        (λ made. pure-Yields net Err _ (parameter_artifact made) (refl, refl))

  in_out_struct-Exactly :
      (o : Objects.Message) (name suffix note : Bytes) (exported : Bool) (payload headers : GoType)
      → Exactly net Err
          (λ t. [])
          (λ t. [])
          (build_in_out_struct conv net o name suffix note exported payload headers)
  unfolding build_in_out_struct
  in_out_struct-Exactly o name suffix note exported payload headers = record {
    exact =
        bind-Exactly net Err _ _ (obj_name-Exactly net Err conv trim_visible name suffix) (λ made.
          pure-Yields net Err _ (in_out_struct conv net o made note exported payload headers)
            (refl, refl));
  }

  pub new_message-Adds :
      (opts : CompilationOpts) (o : Objects.Message) (name : Bytes) (flags : Flags)
      → Parses net []
      → Adds net Err (new_message conv net opts o name flags)
  unfolding new_message
  new_message-Adds opts o name flags root =
      bind-Exactly net Err _ _ (list_promise-Exactly net Err active_channels) (λ channels.
        bind-Exactly net Err _ _ (list_promise-Exactly net Err active_operations) (λ operations.
          bind-Exactly net Err _ _ (promise_of-Exactly net Err [] root) (λ async_api.
            bind-Exactly net Err _ _
              (part_promise-Exactly (is_some o.headers) (codes "headers") (ground arith))
              (λ headers.
                bind-Exactly net Err _ _
                  (part_promise-Exactly (is_some o.payload) (codes "payload") (ground arith))
                  (λ payload.
                    bind-Exactly net Err _ _
                      (in_out_struct-Exactly o name (codes "Out") (codes " (Outbound Message)") true
                        (promised_type payload default_payload)
                        (promised_type headers default_headers))
                      (λ out.
                        bind-Exactly net Err _ _
                          (in_out_struct-Exactly o name (codes "In") (codes " (Inbound Message)")
                            false (promised_type payload default_payload)
                            (promised_type headers default_headers))
                          (λ in_struct.
                            bind-Exactly net Err _ _
                              (bindings_promise-Exactly net Err conv trim_visible o.bindings)
                              (λ bindings.
                                bind-Exactly net Err _ _
                                  (part_promise-Exactly (is_some o.correlation_id)
                                    (codes "correlationId") (ground arith))
                                  (λ correlation.
                                    pure-Yields net Err _
                                      (made_message opts o name flags channels operations async_api
                                        headers payload out in_struct bindings correlation)
                                      (rw append-nil refl, refl))))))))))

  pub at_location-Adds :
      (make : ExpressionHolder → Compiled)
      → ((h : ExpressionHolder) → ([] ≡ promises_of (make h)) × ([] ≡ lists_of (make h)))
      → (name description text : Bytes) (l : Location) → ((e : LocationError) → l ≡ refused e → Err)
      → Adds net Err (at_location conv net make name description text l)
  at_location-Adds make nothing name description text (refused e) h =
      fail-Yields net Err _ (codes "parse runtime expression") (h e refl)
  at_location-Adds make nothing name description text (located kind path) h =
      pure-Yields net Err _ (make _) (nothing _)
