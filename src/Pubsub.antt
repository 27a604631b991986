-- ===== src/Pubsub.antt =====
-- pubsub.c: channels and patterns, their subscribers, and the messages that are sent to them.
pub mod Valid
pub mod Publish
pub mod Commands
pub mod Deliver
use redis_allocators.Prelude.{
  ℕ, zero, suc, ◌+◌, ◌≤◌, ◌≡◌, Bool, true, false, not, ◌&&◌, Option, none, some, List, [], ◌∷◌,
  ◌++◌, ◌==◌, if◌then◌else◌, length,
}
use redis_allocators.Prelude.Eq.{Eq, nat_eq, list_eq, pair_eq, count, remove_first}
use redis_allocators.Listeners.{Table, join, leave, list_or_nil}

-- The bytes of a string object, which `equalStringObjects` compares.
abbrev pub Text : Type 0
Text = List ℕ

-- The part of `redisClient` that pubsub.c uses. The keys of the dictionary `pubsub_channels` stand
-- in a list, in the order of its iterator; `pubsub` is the flag `REDIS_PUBSUB`.
pub record Client : Type 0 where
  pub pubsub_channels : List Text
  pub pubsub_patterns : List Text
  pub pubsub : Bool

pub data Reply : Type 0 where
  subscribed psubscribed : Text → ℕ → Reply
  unsubscribed punsubscribed : Option Text → ℕ → Reply
  message : Text → Text → Reply
  pmessage : Text → Text → Text → Reply
  integer : ℕ → Reply
  numbers : List (Text × ℕ) → Reply

-- The clients by number, the two tables of `redisServer`, and what has been added to the clients'
-- replies, the oldest first.
pub record Server : Type 0 where
  pub client : ℕ → Client
  pub pubsub_channels : Table Text
  pub pubsub_patterns : List (ℕ × Text)
  pub sent : List (ℕ × Reply)

abbrev pub put_client : Server → ℕ → Client → Server
put_client s c x = record s { client = λ d. if d == c then x else s.client d }

abbrev pub add_reply : Server → ℕ → Reply → Server
add_reply s c r = record s { sent = s.sent ++ ((c, r) ∷ []) }

-- `clientSubscriptionsCount`
abbrev pub client_subscriptions_count : Client → ℕ
client_subscriptions_count x = length x.pubsub_channels + length x.pubsub_patterns

abbrev pub has : Text → List Text → Bool
has t l = not (count t l == 0)

-- `pubsubSubscribeChannel`, without and with its reply.
unfoldable pub enter_channel : Server → ℕ → Text → Server
enter_channel s c channel =
    let x = s.client c in
    if has channel x.pubsub_channels
    then s
    else record (put_client s c (record x { pubsub_channels = channel ∷ x.pubsub_channels })) {
      pubsub_channels = join s.pubsub_channels channel c;
    }

unfoldable pub subscribe_channel : Server → ℕ → Text → Server × Bool
subscribe_channel s c channel =
    let s' = enter_channel s c channel in
    (
      add_reply s' c (subscribed channel (client_subscriptions_count (s'.client c))),
      not (has channel (s.client c).pubsub_channels),
    )

-- `pubsubUnsubscribeChannel`, without and with its reply.
unfoldable pub leave_channel : Server → ℕ → Text → Server
leave_channel s c channel =
    let x = s.client c in
    if has channel x.pubsub_channels
    then record (put_client s c
        (record x { pubsub_channels = remove_first channel x.pubsub_channels })) {
          pubsub_channels = leave s.pubsub_channels channel c;
        }
    else s

unfoldable pub unsubscribe_channel : Server → ℕ → Text → Bool → Server × Bool
unsubscribe_channel s c channel notify =
    let s' = leave_channel s c channel in
    let reply = unsubscribed (some channel) (client_subscriptions_count (s'.client c)) in
    (if notify then add_reply s' c reply else s', has channel (s.client c).pubsub_channels)

-- `pubsubSubscribePattern`, without and with its reply.
unfoldable pub enter_pattern : Server → ℕ → Text → Server
enter_pattern s c pattern =
    let x = s.client c in
    if has pattern x.pubsub_patterns
    then s
    else record (put_client s c
        (record x { pubsub_patterns = x.pubsub_patterns ++ (pattern ∷ []) })) {
          pubsub_patterns = s.pubsub_patterns ++ ((c, pattern) ∷ []);
        }

unfoldable pub subscribe_pattern : Server → ℕ → Text → Server × Bool
subscribe_pattern s c pattern =
    let s' = enter_pattern s c pattern in
    (
      add_reply s' c (psubscribed pattern (client_subscriptions_count (s'.client c))),
      not (has pattern (s.client c).pubsub_patterns),
    )

-- `pubsubUnsubscribePattern`, without and with its reply.
unfoldable pub leave_pattern : Server → ℕ → Text → Server
leave_pattern s c pattern =
    let x = s.client c in
    if has pattern x.pubsub_patterns
    then record (put_client s c
        (record x { pubsub_patterns = remove_first pattern x.pubsub_patterns })) {
          pubsub_patterns = remove_first (c, pattern) s.pubsub_patterns;
        }
    else s

unfoldable pub unsubscribe_pattern : Server → ℕ → Text → Bool → Server × Bool
unsubscribe_pattern s c pattern notify =
    let s' = leave_pattern s c pattern in
    let reply = punsubscribed (some pattern) (client_subscriptions_count (s'.client c)) in
    (if notify then add_reply s' c reply else s', has pattern (s.client c).pubsub_patterns)

-- The loops of `pubsubUnsubscribeAllChannels` and `pubsubUnsubscribeAllPatterns`, over the names
-- that the client has at the start, with the count.
unfoldable pub unsubscribe_channels : Server → ℕ → List Text → Bool → ℕ → Server × ℕ
unsubscribe_channels s c [] notify n = (s, n)
unsubscribe_channels s c (channel ∷ rest) notify n =
    let (s', gone) = unsubscribe_channel s c channel notify in
    unsubscribe_channels s' c rest notify (n + (if gone then 1 else 0))

unfoldable pub unsubscribe_all_channels : Server → ℕ → Bool → Server × ℕ
unsubscribe_all_channels s c notify =
    let (s', n) = unsubscribe_channels s c (s.client c).pubsub_channels notify 0 in
    (
      if notify && n == 0
          then add_reply s' c (unsubscribed none (client_subscriptions_count (s'.client c)))
          else s',
      n,
    )

unfoldable pub unsubscribe_patterns : Server → ℕ → List Text → Bool → ℕ → Server × ℕ
unsubscribe_patterns s c [] notify n = (s, n)
unsubscribe_patterns s c (pattern ∷ rest) notify n =
    let (s', gone) = unsubscribe_pattern s c pattern notify in
    unsubscribe_patterns s' c rest notify (n + (if gone then 1 else 0))

unfoldable pub unsubscribe_all_patterns : Server → ℕ → Bool → Server × ℕ
unsubscribe_all_patterns s c notify =
    let (s', n) = unsubscribe_patterns s c (s.client c).pubsub_patterns notify 0 in
    (
      if notify && n == 0
          then add_reply s' c (punsubscribed none (client_subscriptions_count (s'.client c)))
          else s',
      n,
    )
