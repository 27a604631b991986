-- ===== src/Tests/Notify.antt =====
-- notify.c: the letters of some classes, and an event that a client with a pattern gets.
use redis_allocators.Prelude.{◌≡◌, refl, none, [], ◌∷◌, map}
use redis_allocators.Prelude.Int.{pos}
use redis_allocators.Prelude.Memory.{Memory, read}
use redis_allocators.Prelude.Eq.{count}
use redis_allocators.Listeners.{join}
use redis_allocators.Util.{
  codes, ll2string, digits10, digits10_fuel, print_pairs, print_last, digit, magnitude,
}
use redis_allocators.Pubsub.{
  Server, subscribed, psubscribed, pmessage, enter_channel, subscribe_channel, enter_pattern,
  subscribe_pattern,
}
use redis_allocators.Pubsub.Publish.{
  send_to_clients, send_to_patterns, publish_message, subscribe_each, subscribe_command,
  psubscribe_each, psubscribe_command,
}
use redis_allocators.Notify.Events.{notify_keyspace_event}
use redis_allocators.Tests.Pubsub.{glob, two, star, news}
use redis_allocators.Notify.{
  class_flags, string_to_flags, keyspace_events_string_to_flags, keyspace_events_flags_to_string,
}

expired_keyspace : keyspace_events_flags_to_string 257 ≡ codes "xK"
unfolding keyspace_events_flags_to_string
expired_keyspace = refl

unknown_class : keyspace_events_string_to_flags (codes "gq") ≡ none
unfolding keyspace_events_string_to_flags string_to_flags class_flags
unknown_class = refl

abbrev garbage : Memory
garbage = λ _. 9

-- `KEx`, for a key that has expired in database 12.
abbrev told : Server
told = notify_keyspace_event glob garbage 259 256 (codes "expired") (codes "key") (pos 12) two

told_replies :
    map (λ x. x.1) told.sent
    ≡ subscribed news 1
      ∷ subscribed news 1
      ∷ psubscribed star 1
      ∷ pmessage star (codes "__keyspace@12__:key") (codes "expired")
      ∷ pmessage star (codes "__keyevent@12__:expired") (codes "key")
      ∷ []
unfolding subscribe_command subscribe_each subscribe_channel enter_channel psubscribe_command
    psubscribe_each subscribe_pattern enter_pattern count join publish_message send_to_clients
    send_to_patterns notify_keyspace_event ll2string digits10 digits10_fuel print_pairs print_last
    digit magnitude read
told_replies = refl
