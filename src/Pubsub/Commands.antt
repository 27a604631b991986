-- ===== src/Pubsub/Commands.antt =====
-- Every command of pubsub.c keeps the invariant, in any order and from any clients.
use redis_allocators.Prelude.{
  ℕ, Bool, true, false, ◌&&◌, List, [], ◌∷◌, ◌==◌, if◌then◌else◌, arith, Bool-cases, inl, inr,
}
use redis_allocators.Pubsub.{
  Text, Server, Reply, message, pmessage, add_reply, subscribe_channel, unsubscribe_channel,
  subscribe_pattern, unsubscribe_pattern, client_subscriptions_count, unsubscribe_channels,
  unsubscribe_all_channels, unsubscribe_patterns, unsubscribe_all_patterns,
}
use redis_allocators.Pubsub.Publish.{
  send_to_clients, send_to_patterns, publish_message, subscribe_each, set_pubsub, clear_pubsub,
  subscribe_command, unsubscribe_each, unsubscribe_command, psubscribe_each, psubscribe_command,
  punsubscribe_each, punsubscribe_command, publish_command,
}
use redis_allocators.Pubsub.Valid.{
  IsValid, enter_channel-IsValid, leave_channel-IsValid, enter_pattern-IsValid,
  leave_pattern-IsValid,
}

add_reply-IsValid : (s : Server) (c : ℕ) (r : Reply) → IsValid s → IsValid (add_reply s c r)
add_reply-IsValid s c r valid = record {
  agree = valid.agree;
  once = valid.once;
  trim = valid.trim;
  patterns_agree = valid.patterns_agree;
  patterns_once = valid.patterns_once;
}

set_pubsub-IsValid : (s : Server) (c : ℕ) (b : Bool) → IsValid s → IsValid (set_pubsub s c b)
set_pubsub-IsValid s c b valid = record {
  agree = λ d t. ground (arith, valid.agree d t);
  once = λ d t. ground (arith, valid.once d t);
  trim = valid.trim;
  patterns_agree = λ d t. ground (arith, valid.patterns_agree d t);
  patterns_once = λ d t. ground (arith, valid.patterns_once d t);
}

clear_pubsub-IsValid : (s : Server) (c : ℕ) → IsValid s → IsValid (clear_pubsub s c)
clear_pubsub-IsValid s c valid = elim (Bool-cases (client_subscriptions_count (s.client c) == 0)) [
  | inl e ↦ rw e (set_pubsub-IsValid s c false valid)
  | inr e ↦ rw e valid
]

notify-IsValid :
    (s : Server) (c : ℕ) (r : Reply) (notify : Bool)
    → IsValid s
    → IsValid (if notify then add_reply s c r else s)
notify-IsValid s c r true valid = add_reply-IsValid s c r valid
notify-IsValid s c r false valid = valid

unsubscribe_channel-IsValid :
    (s : Server) (c : ℕ) (t : Text) (notify : Bool)
    → IsValid s
    → IsValid (unsubscribe_channel s c t notify).0
unfolding unsubscribe_channel
unsubscribe_channel-IsValid s c t notify valid =
    notify-IsValid _ c _ notify (leave_channel-IsValid s c t valid)

unsubscribe_pattern-IsValid :
    (s : Server) (c : ℕ) (t : Text) (notify : Bool)
    → IsValid s
    → IsValid (unsubscribe_pattern s c t notify).0
unfolding unsubscribe_pattern
unsubscribe_pattern-IsValid s c t notify valid =
    notify-IsValid _ c _ notify (leave_pattern-IsValid s c t valid)

unsubscribe_channels-IsValid :
    (s : Server) (c : ℕ) (ts : List Text) (notify : Bool) (n : ℕ)
    → IsValid s
    → IsValid (unsubscribe_channels s c ts notify n).0
unfolding unsubscribe_channels
unsubscribe_channels-IsValid s c [] notify n valid = valid
unsubscribe_channels-IsValid s c (t ∷ ts) notify n valid =
    unsubscribe_channels-IsValid (unsubscribe_channel s c t notify).0 c ts notify _
      (unsubscribe_channel-IsValid s c t notify valid)

unsubscribe_patterns-IsValid :
    (s : Server) (c : ℕ) (ts : List Text) (notify : Bool) (n : ℕ)
    → IsValid s
    → IsValid (unsubscribe_patterns s c ts notify n).0
unfolding unsubscribe_patterns
unsubscribe_patterns-IsValid s c [] notify n valid = valid
unsubscribe_patterns-IsValid s c (t ∷ ts) notify n valid =
    unsubscribe_patterns-IsValid (unsubscribe_pattern s c t notify).0 c ts notify _
      (unsubscribe_pattern-IsValid s c t notify valid)

unsubscribe_all_channels-IsValid :
    (s : Server) (c : ℕ) (notify : Bool)
    → IsValid s
    → IsValid (unsubscribe_all_channels s c notify).0
unfolding unsubscribe_all_channels
unsubscribe_all_channels-IsValid s c notify valid =
    notify-IsValid _ c _ (notify && _) (unsubscribe_channels-IsValid s c _ notify 0 valid)

unsubscribe_all_patterns-IsValid :
    (s : Server) (c : ℕ) (notify : Bool)
    → IsValid s
    → IsValid (unsubscribe_all_patterns s c notify).0
unfolding unsubscribe_all_patterns
unsubscribe_all_patterns-IsValid s c notify valid =
    notify-IsValid _ c _ (notify && _) (unsubscribe_patterns-IsValid s c _ notify 0 valid)

subscribe_each-IsValid :
    (s : Server) (c : ℕ) (ts : List Text) → IsValid s → IsValid (subscribe_each s c ts)
unfolding subscribe_each subscribe_channel
subscribe_each-IsValid s c [] valid = valid
subscribe_each-IsValid s c (t ∷ ts) valid =
    subscribe_each-IsValid (subscribe_channel s c t).0 c ts
      (add_reply-IsValid _ c _ (enter_channel-IsValid s c t valid))

psubscribe_each-IsValid :
    (s : Server) (c : ℕ) (ts : List Text) → IsValid s → IsValid (psubscribe_each s c ts)
unfolding psubscribe_each subscribe_pattern
psubscribe_each-IsValid s c [] valid = valid
psubscribe_each-IsValid s c (t ∷ ts) valid =
    psubscribe_each-IsValid (subscribe_pattern s c t).0 c ts
      (add_reply-IsValid _ c _ (enter_pattern-IsValid s c t valid))

unsubscribe_each-IsValid :
    (s : Server) (c : ℕ) (ts : List Text) → IsValid s → IsValid (unsubscribe_each s c ts)
unfolding unsubscribe_each
unsubscribe_each-IsValid s c [] valid = valid
unsubscribe_each-IsValid s c (t ∷ ts) valid =
    unsubscribe_each-IsValid (unsubscribe_channel s c t true).0 c ts
      (unsubscribe_channel-IsValid s c t true valid)

punsubscribe_each-IsValid :
    (s : Server) (c : ℕ) (ts : List Text) → IsValid s → IsValid (punsubscribe_each s c ts)
unfolding punsubscribe_each
punsubscribe_each-IsValid s c [] valid = valid
punsubscribe_each-IsValid s c (t ∷ ts) valid =
    punsubscribe_each-IsValid (unsubscribe_pattern s c t true).0 c ts
      (unsubscribe_pattern-IsValid s c t true valid)

send_to_clients-IsValid :
    (s : Server) (cs : List ℕ) (t text : Text) (n : ℕ)
    → IsValid s
    → IsValid (send_to_clients s cs t text n).0
unfolding send_to_clients
send_to_clients-IsValid s [] t text n valid = valid
send_to_clients-IsValid s (c ∷ cs) t text n valid =
    send_to_clients-IsValid (add_reply s c (message t text)) cs t text _
      (add_reply-IsValid s c _ valid)

send_to_patterns-IsValid :
    (matches : Text → Text → Bool) (s : Server) (ps : List (ℕ × Text)) (t text : Text) (n : ℕ)
    → IsValid s
    → IsValid (send_to_patterns matches s ps t text n).0
unfolding send_to_patterns
send_to_patterns-IsValid matches s [] t text n valid = valid
send_to_patterns-IsValid matches s ((c, p) ∷ ps) t text n valid =
    send_to_patterns-IsValid matches (if matches p t then add_reply s c (pmessage p t text) else s)
      ps t text _ (notify-IsValid s c _ (matches p t) valid)

-- What the clients may do.
pub data Step (matches : Text → Text → Bool) : Server → Server → Type 0 where
  subscribes : (s : Server) (c : ℕ) (ts : List Text) → Step matches s (subscribe_command s c ts)
  unsubscribes : (s : Server) (c : ℕ) (ts : List Text) → Step matches s (unsubscribe_command s c ts)
  psubscribes : (s : Server) (c : ℕ) (ts : List Text) → Step matches s (psubscribe_command s c ts)
  punsubscribes :
      (s : Server) (c : ℕ) (ts : List Text) → Step matches s (punsubscribe_command s c ts)
  publishes :
      (s : Server) (c : ℕ) (t text : Text) → Step matches s (publish_command matches s c t text)

pub data IsReachable (matches : Text → Text → Bool) (start : Server) : Server → Type 0 where
  here : IsReachable matches start start
  next :
      {s t : Server} → IsReachable matches start s → Step matches s t → IsReachable matches start t

pub publish_message-IsValid :
    (matches : Text → Text → Bool) (s : Server) (t text : Text)
    → IsValid s
    → IsValid (publish_message matches s t text).0
unfolding publish_message
publish_message-IsValid matches s t text valid =
    send_to_patterns-IsValid matches _ _ t text _ (send_to_clients-IsValid s _ t text 0 valid)

Step-IsValid :
    (matches : Text → Text → Bool) {s t : Server} → Step matches s t → IsValid s → IsValid t
unfolding subscribe_command unsubscribe_command psubscribe_command punsubscribe_command
    publish_command
Step-IsValid matches (subscribes s c ts) valid =
    set_pubsub-IsValid _ c true (subscribe_each-IsValid s c ts valid)
Step-IsValid matches (unsubscribes s c []) valid =
    clear_pubsub-IsValid _ c (unsubscribe_all_channels-IsValid s c true valid)
Step-IsValid matches (unsubscribes s c (t ∷ ts)) valid =
    clear_pubsub-IsValid _ c (unsubscribe_each-IsValid s c (t ∷ ts) valid)
Step-IsValid matches (psubscribes s c ts) valid =
    set_pubsub-IsValid _ c true (psubscribe_each-IsValid s c ts valid)
Step-IsValid matches (punsubscribes s c []) valid =
    clear_pubsub-IsValid _ c (unsubscribe_all_patterns-IsValid s c true valid)
Step-IsValid matches (punsubscribes s c (t ∷ ts)) valid =
    clear_pubsub-IsValid _ c (punsubscribe_each-IsValid s c (t ∷ ts) valid)
Step-IsValid matches (publishes s c t text) valid =
    add_reply-IsValid _ c _ (publish_message-IsValid matches s t text valid)

-- Whatever commands the clients send, their own lists of channels and patterns and the server's
-- tables name the same subscriptions, each once, and no channel is kept without a subscriber.
pub reachable-IsValid :
    (matches : Text → Text → Bool) (start : Server) {s : Server}
    → IsValid start
    → IsReachable matches start s
    → IsValid s
reachable-IsValid matches start valid here = valid
reachable-IsValid matches start valid (next before step) =
    Step-IsValid matches step (reachable-IsValid matches start valid before)
