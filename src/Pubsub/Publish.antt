-- ===== src/Pubsub/Publish.antt =====
-- `pubsubPublishMessage` and the commands of pubsub.c. `matches` is the answer of `stringmatchlen`
-- for a pattern and a channel.
use redis_allocators.Prelude.{
  ℕ, ◌+◌, Bool, true, false, List, [], ◌∷◌, ◌==◌, if◌then◌else◌, length, map,
}
use redis_allocators.Listeners.{list_or_nil}
use redis_allocators.Pubsub.{
  Text, Server, message, pmessage, integer, numbers, put_client, add_reply,
  client_subscriptions_count, subscribe_channel, unsubscribe_channel, subscribe_pattern,
  unsubscribe_pattern, unsubscribe_all_channels, unsubscribe_all_patterns,
}

-- The clients of the channel.
unfoldable pub send_to_clients : Server → List ℕ → Text → Text → ℕ → Server × ℕ
send_to_clients s [] channel text receivers = (s, receivers)
send_to_clients s (c ∷ rest) channel text receivers =
    send_to_clients (add_reply s c (message channel text)) rest channel text (receivers + 1)

-- The subscribers of patterns.
unfoldable pub send_to_patterns :
    (Text → Text → Bool) → Server → List (ℕ × Text) → Text → Text → ℕ → Server × ℕ
send_to_patterns matches s [] channel text receivers = (s, receivers)
send_to_patterns matches s ((c, pattern) ∷ rest) channel text receivers =
    let hit = matches pattern channel in
    send_to_patterns matches (if hit then add_reply s c (pmessage pattern channel text) else s) rest
      channel text (receivers + (if hit then 1 else 0))

unfoldable pub publish_message : (Text → Text → Bool) → Server → Text → Text → Server × ℕ
publish_message matches s channel text =
    let (s', n) = send_to_clients s (list_or_nil (s.pubsub_channels channel)) channel text 0 in
    send_to_patterns matches s' s'.pubsub_patterns channel text n

unfoldable pub subscribe_each : Server → ℕ → List Text → Server
subscribe_each s c [] = s
subscribe_each s c (channel ∷ rest) = subscribe_each (subscribe_channel s c channel).0 c rest

abbrev pub set_pubsub : Server → ℕ → Bool → Server
set_pubsub s c b = put_client s c (record (s.client c) { pubsub = b })

-- The flag goes with the last subscription.
abbrev pub clear_pubsub : Server → ℕ → Server
clear_pubsub s c = if client_subscriptions_count (s.client c) == 0 then set_pubsub s c false else s

unfoldable pub subscribe_command : Server → ℕ → List Text → Server
subscribe_command s c args = set_pubsub (subscribe_each s c args) c true

unfoldable pub unsubscribe_each : Server → ℕ → List Text → Server
unsubscribe_each s c [] = s
unsubscribe_each s c (channel ∷ rest) =
    unsubscribe_each (unsubscribe_channel s c channel true).0 c rest

unfoldable pub unsubscribe_command : Server → ℕ → List Text → Server
unsubscribe_command s c [] = clear_pubsub (unsubscribe_all_channels s c true).0 c
unsubscribe_command s c (channel ∷ rest) = clear_pubsub (unsubscribe_each s c (channel ∷ rest)) c

unfoldable pub psubscribe_each : Server → ℕ → List Text → Server
psubscribe_each s c [] = s
psubscribe_each s c (pattern ∷ rest) = psubscribe_each (subscribe_pattern s c pattern).0 c rest

unfoldable pub psubscribe_command : Server → ℕ → List Text → Server
psubscribe_command s c args = set_pubsub (psubscribe_each s c args) c true

unfoldable pub punsubscribe_each : Server → ℕ → List Text → Server
punsubscribe_each s c [] = s
punsubscribe_each s c (pattern ∷ rest) =
    punsubscribe_each (unsubscribe_pattern s c pattern true).0 c rest

unfoldable pub punsubscribe_command : Server → ℕ → List Text → Server
punsubscribe_command s c [] = clear_pubsub (unsubscribe_all_patterns s c true).0 c
punsubscribe_command s c (pattern ∷ rest) = clear_pubsub (punsubscribe_each s c (pattern ∷ rest)) c

unfoldable pub publish_command : (Text → Text → Bool) → Server → ℕ → Text → Text → Server
publish_command matches s c channel text =
    let (s', receivers) = publish_message matches s channel text in
    add_reply s' c (integer receivers)

-- PUBSUB NUMSUB and PUBSUB NUMPAT.
unfoldable pub numsub : Server → ℕ → List Text → Server
numsub s c args =
    add_reply s c (numbers (map (λ t. (t, length (list_or_nil (s.pubsub_channels t)))) args))

unfoldable pub numpat : Server → ℕ → Server
numpat s c = add_reply s c (integer (length s.pubsub_patterns))
