-- ===== src/Tests/Pubsub.antt =====
-- pubsub.c: two clients, a channel and a pattern, and the theorems at them.
use redis_allocators.Prelude.{◌≡◌, refl, Bool, ◌||◌, false, none, [], ◌∷◌, map, arith}
use redis_allocators.Prelude.Eq.{nat_eq, list_eq, count, remove_first, list_beq}
use redis_allocators.Listeners.{join, leave}
use redis_allocators.Pubsub.{
  Text, Server, subscribed, psubscribed, enter_channel, subscribe_channel, leave_channel,
  unsubscribe_channel, enter_pattern, subscribe_pattern, unsubscribe_channels,
  unsubscribe_all_channels,
}
use redis_allocators.Pubsub.Publish.{
  send_to_clients, send_to_patterns, publish_message, subscribe_each, subscribe_command,
  psubscribe_each, psubscribe_command, unsubscribe_command,
}
use redis_allocators.Pubsub.Valid.{IsValid}
use redis_allocators.Pubsub.Commands.{subscribes, psubscribes, here, next, reachable-IsValid}
use redis_allocators.Pubsub.Deliver.{Delivers, publish_message-Delivers}

abbrev pub quiet : Server
quiet = record {
  client = λ c. record { pubsub_channels = []; pubsub_patterns = []; pubsub = false };
  pubsub_channels = λ t. none;
  pubsub_patterns = [];
  sent = [];
}

abbrev pub news : Text
news = b'n' ∷ []

abbrev pub star : Text
star = b'*' ∷ []

-- The pattern `*`, and names that are equal to the pattern.
abbrev pub glob : Text → Text → Bool
glob p t = list_beq p star || list_beq p t

abbrev pub one : Server
one = subscribe_command quiet 1 (news ∷ news ∷ [])

abbrev pub two : Server
two = psubscribe_command one 2 (star ∷ [])

replies_sent :
    two.sent ≡ (1, subscribed news 1) ∷ (1, subscribed news 1) ∷ (2, psubscribed star 1) ∷ []
unfolding subscribe_command subscribe_each subscribe_channel enter_channel psubscribe_command
    psubscribe_each subscribe_pattern enter_pattern count join
replies_sent = refl

published :
    map (λ x. x.0) (publish_message glob two news (b'!' ∷ [])).0.sent ≡ 1 ∷ 1 ∷ 2 ∷ 1 ∷ 2 ∷ []
unfolding subscribe_command subscribe_each subscribe_channel enter_channel psubscribe_command
    psubscribe_each subscribe_pattern enter_pattern count join publish_message send_to_clients
    send_to_patterns
published = refl

left : (unsubscribe_command two 1 []).pubsub_channels news ≡ none
unfolding subscribe_command subscribe_each subscribe_channel enter_channel psubscribe_command
    psubscribe_each subscribe_pattern enter_pattern count join unsubscribe_command
    unsubscribe_all_channels unsubscribe_channels unsubscribe_channel leave_channel leave
    remove_first
left = refl

quiet-IsValid : IsValid quiet
unfolding count
quiet-IsValid = record {
  agree = λ c t. refl;
  once = λ c t. omega arith;
  trim = λ t h. cc;
  patterns_agree = λ c t. refl;
  patterns_once = λ c t. omega arith;
}

pub two-IsValid : IsValid two
two-IsValid =
    reachable-IsValid glob quiet quiet-IsValid
      (next (next here (subscribes quiet 1 (news ∷ news ∷ []))) (psubscribes one 2 (star ∷ [])))

reachable-IsValid_example : IsValid two
reachable-IsValid_example =
    reachable-IsValid glob quiet quiet-IsValid
      (next (next here (subscribes quiet 1 (news ∷ news ∷ []))) (psubscribes one 2 (star ∷ [])))

publish_message-Delivers_example :
    Delivers glob two news (b'!' ∷ []) (publish_message glob two news (b'!' ∷ []))
publish_message-Delivers_example = publish_message-Delivers glob two news (b'!' ∷ []) two-IsValid
