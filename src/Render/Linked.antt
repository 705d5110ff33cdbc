-- ===== src/Render/Linked.antt =====
-- The methods of the artifacts of internal/render after linking, when every promise has its target.
-- An artifact is a number; `none` is a panic: a promise that is not set, a failed type assertion, or
-- references that lead back to themselves.
use go_asyncapi.Common.{
  ℕ, Bool, true, false, not, ◌&&◌, ◌||◌, Option, none, some, List, [], ◌∷◌, ◌++◌, Bytes, ◌>>=◌,
  ◌==◌, bytes_eq, if◌then◌else◌, eqb,
}
use go_asyncapi.Promise.{deref_artifact, check_same_artifacts}
use go_asyncapi.Render.{
  Artifact, Server, Channel, Operation, OperationReply, server_artifact, channel_artifact,
  operation_artifact, reply_artifact, ref_artifact,
}

abbrev pub Linked : Type 0
Linked = Artifact ℕ (List ℕ)

abbrev pub wrapped : Linked → Option ℕ
wrapped (ref_artifact target name selectable) = some target
wrapped a = none

abbrev pub as_server : Linked → Option (Server ℕ (List ℕ))
as_server (server_artifact s) = some s
as_server a = none

abbrev pub as_channel : Linked → Option (Channel ℕ (List ℕ))
as_channel (channel_artifact c) = some c
as_channel a = none

abbrev pub as_operation : Linked → Option (Operation ℕ)
as_operation (operation_artifact o) = some o
as_operation a = none

abbrev pub as_reply : Linked → Option (OperationReply ℕ)
as_reply (reply_artifact r) = some r
as_reply a = none

-- The name by which artifacts are sorted.
abbrev pub name_of : Linked → Bytes
name_of (server_artifact s) = s.original_name
name_of (channel_artifact c) = c.original_name
name_of (operation_artifact o) = o.original_name
name_of a = []

-- lo.FilterMap, with what its function may panic on.
abbrev pub filter_all : {A B : Type 0} → (A → Option (B × Bool)) → List A → Option (List B)
filter_all f [] = some []
filter_all f (x ∷ xs) = do r ← f x; rest ← filter_all f xs; some (if r.1 then r.0 ∷ rest else rest)

abbrev pub concat_all : {A B : Type 0} → (A → Option (List B)) → List A → Option (List B)
concat_all f [] = some []
concat_all f (x ∷ xs) = do r ← f x; rest ← concat_all f xs; some (r ++ rest)

-- lo.Contains
abbrev pub contains : ℕ → List ℕ → Bool
contains n [] = false
contains n (x ∷ xs) = eqb x n || contains n xs

abbrev pub is_empty : {A : Type 0} → List A → Bool
is_empty [] = true
is_empty (x ∷ xs) = false

-- lo.Uniq; `seen` are the texts before.
abbrev pub is_member : Bytes → List Bytes → Bool
is_member s [] = false
is_member s (x ∷ xs) = (x == s) || is_member s xs

abbrev pub lo_uniq_from : List Bytes → List Bytes → List Bytes
lo_uniq_from seen [] = []
lo_uniq_from seen (x ∷ xs) =
    let rest = lo_uniq_from (x ∷ seen) xs in
    if is_member x seen then lo_uniq_from seen xs else x ∷ rest

abbrev pub lo_uniq : List Bytes → List Bytes
lo_uniq xs = lo_uniq_from [] xs

abbrev pub server_visible : Server ℕ (List ℕ) → Bool
server_visible s = not s.dummy

abbrev pub server_selectable : Server ℕ (List ℕ) → Bool
server_selectable s = not s.dummy && s.is_selectable

abbrev pub channel_visible : Channel ℕ (List ℕ) → Bool
channel_visible c = not c.dummy

abbrev pub channel_selectable : Channel ℕ (List ℕ) → Bool
channel_selectable c = not c.dummy && c.is_selectable

abbrev pub has_publishing_code : Operation ℕ → Bool
has_publishing_code o = o.is_publisher || o.is_reply_publisher

abbrev pub has_subscribing_code : Operation ℕ → Bool
has_subscribing_code o = o.is_subscriber || o.is_reply_subscriber

-- `sort` is slices.SortFunc with the comparison of names.
module _ (sort : (ℕ → Bytes) → List ℕ → List ℕ) (objects : ℕ → Linked) (fuel : ℕ) where
  abbrev pub wraps : ℕ → Option ℕ
  wraps n = wrapped (objects n)

  abbrev pub by_name : List ℕ → List ℕ
  by_name = sort (λ n. name_of (objects n))

  abbrev pub deref : ℕ → Option ℕ
  deref = deref_artifact wraps fuel

  -- lo.ContainsBy with CheckSameArtifacts
  abbrev pub contains_same : ℕ → List ℕ → Option Bool
  contains_same n [] = some false
  contains_same n (x ∷ xs) = do
    b ← check_same_artifacts wraps fuel x n
    elim b [ true ↦ some true | false ↦ contains_same n xs ]

  -- Channel.Messages and BoundMessages
  abbrev pub channel_messages : Channel ℕ (List ℕ) → List ℕ
  channel_messages c = c.messages_promises

  -- The object behind an artifact, and whether it passes the test.
  abbrev pub found : (ℕ → Option Bool) → ℕ → Option (ℕ × Bool)
  found test a = do k ← deref a; b ← test k; some (k, b)

  abbrev pub is_server : ℕ → Option Bool
  is_server k = do s ← as_server (objects k); some true

  unfoldable pub bound_servers : Channel ℕ (List ℕ) → Option (List ℕ)
  bound_servers c = elim c.dummy [
    | true ↦ some []
    | false ↦ elim (is_empty c.servers_promises) [
      | true ↦ do
        all ← c.all_active_servers_promise
        servers ← filter_all (found is_server) all
        some (by_name servers)
      | false ↦ some c.servers_promises
    ]
  ]

  abbrev pub on_channel : ℕ → ℕ → Option Bool
  on_channel n k = do o ← as_operation (objects k); c ← o.channel_promise; some (eqb c n)

  unfoldable pub channel_bound_operations : ℕ → Channel ℕ (List ℕ) → Option (List ℕ)
  channel_bound_operations n c = elim c.dummy [
    | true ↦ some []
    | false ↦ do
      all ← c.all_active_operations_promise
      operations ← filter_all (found (on_channel n)) all
      some (by_name operations)
  ]

  abbrev pub active_protocol : ℕ → Option (Bytes × Bool)
  active_protocol n = do
    s ← as_server (objects n)
    some (s.protocol, server_selectable s && server_visible s)

  unfoldable pub channel_active_protocols : Channel ℕ (List ℕ) → Option (List Bytes)
  unfolding bound_servers
  channel_active_protocols c = do
    servers ← bound_servers c
    protocols ← filter_all active_protocol servers
    some (lo_uniq protocols)

  -- Operation.Channel
  abbrev pub operation_channel : Operation ℕ → Option (Channel ℕ (List ℕ))
  operation_channel o = do n ← o.channel_promise; as_channel (objects n)

  unfoldable pub operation_bound_messages : Operation ℕ → Option (List ℕ)
  operation_bound_messages o = elim o.use_all_channel_messages [
    | true ↦ do c ← operation_channel o; some (channel_messages c)
    | false ↦ some o.messages_promises
  ]

  unfoldable pub reply_bound_messages : OperationReply ℕ → Option (List ℕ)
  reply_bound_messages r = elim r.use_all_channel_messages [
    | false ↦ some r.messages_promises
    | true ↦ elim r.channel_promise [
      | none ↦ some r.messages_promises
      | some n ↦ do c ← as_channel (objects n); some (channel_messages c)
    ]
  ]

  unfoldable pub bound_reply_messages : Operation ℕ → Option (List ℕ)
  unfolding reply_bound_messages operation_bound_messages
  bound_reply_messages o = elim o.operation_reply_promise [
    | none ↦ some []
    | some n ↦ do
      r ← as_reply (objects n)
      messages ← reply_bound_messages r
      elim (is_empty messages) [ true ↦ operation_bound_messages o | false ↦ some messages ]
  ]

  -- BoundOperationReplyChannel; the number is `none` if there is no reply.
  unfoldable pub bound_reply_channel : Operation ℕ → Option (Option ℕ)
  bound_reply_channel o = elim o.operation_reply_promise [
    | none ↦ some none
    | some n ↦ do
      r ← as_reply (objects n)
      elim r.channel_promise [ none ↦ some o.channel_promise | some c ↦ some (some c) ]
  ]

  abbrev pub reply_protocols : Option ℕ → Option (List Bytes)
  unfolding channel_active_protocols
  reply_protocols none = some []
  reply_protocols (some n) = do
    c ← as_channel (objects n)
    elim (channel_selectable c && channel_visible c) [
      | true ↦ channel_active_protocols c
      | false ↦ some []
    ]

  unfoldable pub operation_active_protocols : Operation ℕ → Option (List Bytes)
  unfolding channel_active_protocols
  operation_active_protocols o = do
    c ← operation_channel o
    protocols ← channel_active_protocols c
    elim o.operation_reply_promise [
      | none ↦ some (lo_uniq protocols)
      | some n ↦ do
        r ← as_reply (objects n)
        more ← reply_protocols r.channel_promise
        some (lo_uniq (protocols ++ more))
    ]

  unfoldable pub operation_selectable : Operation ℕ → Option Bool
  operation_selectable o = elim o.dummy [
    | true ↦ some false
    | false ↦ do
      c ← operation_channel o
      some (
          channel_selectable c
          && (o.is_selectable && (has_publishing_code o || has_subscribing_code o)))
  ]

  unfoldable pub operation_visible : Operation ℕ → Option Bool
  operation_visible o = elim o.dummy [
    | true ↦ some false
    | false ↦ do
      c ← operation_channel o
      some (channel_visible c && (has_publishing_code o || has_subscribing_code o))
  ]
