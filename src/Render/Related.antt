-- ===== src/Render/Related.antt =====
-- Which objects messages, servers and security schemes of internal/render are bound to, after
-- linking.
use go_asyncapi.Common.{ℕ, Bool, true, false, ◌&&◌, Option, some, List, ◌++◌, Bytes, ◌>>=◌}
use go_asyncapi.Render.{Server, Operation, Message, SecurityScheme}
use go_asyncapi.Render.Linked.{
  Linked, as_server, as_channel, as_operation, filter_all, concat_all, contains, lo_uniq,
  channel_visible, channel_selectable, found, by_name, contains_same, channel_messages,
  bound_servers, channel_bound_operations, channel_active_protocols, operation_channel,
  operation_bound_messages, bound_reply_messages, operation_selectable, operation_visible,
}

module _ (sort : (ℕ → Bytes) → List ℕ → List ℕ) (objects : ℕ → Linked) (fuel : ℕ) where
  -- Whether message `n` is bound to a channel.
  abbrev pub channel_with : ℕ → ℕ → Option Bool
  channel_with n k = do
    c ← as_channel (objects k)
    contains_same sort objects fuel n (channel_messages sort objects fuel c)

  unfoldable pub message_bound_channels : ℕ → Message ℕ (List ℕ) → Option (List ℕ)
  message_bound_channels n m = do
    all ← m.all_active_channels_promise
    channels ← filter_all (found sort objects fuel (channel_with n)) all
    some (by_name sort objects fuel channels)

  abbrev pub operation_with_message : ℕ → ℕ → Option Bool
  operation_with_message n k = do
    o ← as_operation (objects k)
    messages ← operation_bound_messages sort objects fuel o
    contains_same sort objects fuel n messages

  unfoldable pub message_bound_operations : ℕ → Message ℕ (List ℕ) → Option (List ℕ)
  message_bound_operations n m = do
    all ← m.all_active_operations_promise
    operations ← filter_all (found sort objects fuel (operation_with_message n)) all
    some (by_name sort objects fuel operations)

  -- Whether `n` is among the messages, which are computed only if `b` holds.
  abbrev pub contained_if : Bool → ℕ → Option (List ℕ) → Option Bool
  contained_if false n messages = some false
  contained_if true n messages = do ms ← messages; some (contains n ms)

  -- The tests are joined by || of Go, which does not compute the second if the first holds.
  abbrev pub bound_as : Bool → Bool → ℕ → Operation ℕ → Option Bool
  bound_as direct reply n o = do
    b ← contained_if direct n (operation_bound_messages sort objects fuel o)
    elim b [
      | true ↦ some true
      | false ↦ contained_if reply n (bound_reply_messages sort objects fuel o)
    ]

  -- The operations that are bound in one of these ways, in the order of the list promise.
  abbrev pub operations_bound :
      (Operation ℕ → Bool) → (Operation ℕ → Bool) → ℕ → Message ℕ (List ℕ) → Option (List ℕ)
  operations_bound direct reply n m = do
    all ← m.all_active_operations_promise
    filter_all
        (found sort objects fuel
          (λ k. do o ← as_operation (objects k); bound_as (direct o) (reply o) n o))
        all

  unfoldable pub bound_all_pub_operations : ℕ → Message ℕ (List ℕ) → Option (List ℕ)
  bound_all_pub_operations = operations_bound (λ o. o.is_publisher) (λ o. o.is_reply_publisher)

  unfoldable pub bound_all_sub_operations : ℕ → Message ℕ (List ℕ) → Option (List ℕ)
  bound_all_sub_operations = operations_bound (λ o. o.is_subscriber) (λ o. o.is_reply_subscriber)

  unfoldable pub bound_pub_reply_operations : ℕ → Message ℕ (List ℕ) → Option (List ℕ)
  bound_pub_reply_operations = operations_bound (λ o. false) (λ o. o.is_subscriber)

  unfoldable pub bound_sub_reply_operations : ℕ → Message ℕ (List ℕ) → Option (List ℕ)
  bound_sub_reply_operations = operations_bound (λ o. false) (λ o. o.is_publisher)

  -- The protocols of the channels, and of the operations, that are selectable and visible.
  abbrev pub channel_protocols : ℕ → Option (List Bytes × Bool)
  unfolding channel_active_protocols
  channel_protocols k = do
    c ← as_channel (objects k)
    protocols ← channel_active_protocols sort objects fuel c
    some (protocols, channel_selectable c && channel_visible c)

  abbrev pub operation_protocols : ℕ → Option (List Bytes × Bool)
  unfolding channel_active_protocols operation_selectable operation_visible
  operation_protocols k = do
    o ← as_operation (objects k)
    c ← operation_channel sort objects fuel o
    protocols ← channel_active_protocols sort objects fuel c
    selectable ← operation_selectable sort objects fuel o
    visible ← operation_visible sort objects fuel o
    some (protocols, selectable && visible)

  unfoldable pub message_active_protocols : ℕ → Message ℕ (List ℕ) → Option (List Bytes)
  unfolding message_bound_channels message_bound_operations
  message_active_protocols n m = do
    channels ← message_bound_channels n m
    ps ← filter_all channel_protocols channels
    operations ← message_bound_operations n m
    qs ← filter_all operation_protocols operations
    protocols ← concat_all (λ p. some p) (ps ++ qs)
    some (lo_uniq protocols)

  -- Whether server `n` is bound to a channel.
  abbrev pub channel_on : ℕ → ℕ → Option Bool
  channel_on n k = do
    c ← as_channel (objects k)
    servers ← bound_servers sort objects fuel c
    contains_same sort objects fuel n servers

  unfoldable pub server_bound_channels : ℕ → Server ℕ (List ℕ) → Option (List ℕ)
  server_bound_channels n s = do
    all ← s.all_active_channels_promise
    filter_all (found sort objects fuel (channel_on n)) all

  unfoldable pub server_bound_operations : ℕ → Server ℕ (List ℕ) → Option (List ℕ)
  unfolding server_bound_channels channel_bound_operations
  server_bound_operations n s = do
    channels ← server_bound_channels n s
    concat_all (λ k. do c ← as_channel (objects k); channel_bound_operations sort objects fuel k c)
        channels

  unfoldable pub scheme_bound_servers : ℕ → SecurityScheme (List ℕ) → Option (List ℕ)
  scheme_bound_servers n s = do
    all ← s.all_secured_servers_promise
    filter_all
        (found sort objects fuel (λ k. do
          server ← as_server (objects k)
          contains_same sort objects fuel n server.security_scheme_promises))
        all

  unfoldable pub scheme_bound_operations : ℕ → SecurityScheme (List ℕ) → Option (List ℕ)
  scheme_bound_operations n s = do
    all ← s.all_secured_operations_promise
    filter_all
        (found sort objects fuel (λ k. do
          o ← as_operation (objects k)
          contains_same sort objects fuel n o.security_scheme_promises))
        all
