-- ===== src/Pubsub/Deliver.antt =====
-- What `pubsubPublishMessage` sends, and to whom.
use redis_allocators.Prelude.{
  ℕ, ◌+◌, ◌≡◌, refl, ap, ap₂, sym, ◌∙◌, Bool, true, false, ◌&&◌, List, [], ◌∷◌, ◌++◌, ◌==◌,
  if◌then◌else◌, arith, length, length-append, length-map, append_assoc, append-nil, map,
  Bool-cases, inl, inr,
}
use redis_allocators.Prelude.Eq.{nat_eq, list_eq, pair_eq, list_beq, list_beq_iff, count}
use redis_allocators.Listeners.{list_or_nil}
use redis_allocators.Pubsub.{Text, Server, Reply, message, pmessage, add_reply}
use redis_allocators.Pubsub.Publish.{send_to_clients, send_to_patterns, publish_message}
use redis_allocators.Pubsub.Valid.{IsValid}

abbrev pub Sent : Type 0
Sent = List (ℕ × Reply)

unfoldable pub tally : (ℕ × Reply → Bool) → Sent → ℕ
tally f [] = 0
tally f (x ∷ l) = (if f x then 1 else 0) + tally f l

tally-append : (f : ℕ × Reply → Bool) (k l : Sent) → tally f (k ++ l) ≡ tally f k + tally f l
unfolding tally
tally-append f [] l = omega arith
tally-append f (x ∷ k) l = omega (arith, tally-append f k l)

-- This client gets this message of the channel; it gets it for this pattern.
abbrev pub is_message : ℕ → Text → Text → ℕ × Reply → Bool
is_message c t text (d, message u m) = c == d && (list_beq t u && list_beq text m)
is_message c t text (d, _) = false

abbrev pub is_pmessage : ℕ → Text → Text → Text → ℕ × Reply → Bool
is_pmessage c p t text (d, pmessage q u m) =
    c == d && (list_beq p q && (list_beq t u && list_beq text m))
is_pmessage c p t text (d, _) = false

text_refl : (t : Text) → list_beq t t ≡ true
text_refl t = (list_beq_iff t t).1 refl

module _ (t text : Text) where
  to_clients : List ℕ → Sent
  to_clients = map (λ c. (c, message t text))

  to_patterns : (Text → Text → Bool) → List (ℕ × Text) → Sent
  to_patterns matches [] = []
  to_patterns matches ((c, p) ∷ ps) =
      if matches p t
      then (c, pmessage p t text) ∷ to_patterns matches ps
      else to_patterns matches ps

  length-to_clients : (cs : List ℕ) → length (to_clients cs) ≡ length cs
  unfolding to_clients
  length-to_clients cs = length-map cs (λ c. (c, message t text))

  tally-to_clients :
      (c : ℕ) (cs : List ℕ) → tally (is_message c t text) (to_clients cs) ≡ count c cs
  unfolding tally to_clients count
  tally-to_clients c [] = refl
  tally-to_clients c (d ∷ cs) = ground (arith, tally-to_clients c cs, text_refl t, text_refl text)

  pmessages-to_clients :
      (c : ℕ) (p : Text) (cs : List ℕ) → tally (is_pmessage c p t text) (to_clients cs) ≡ 0
  unfolding tally to_clients
  pmessages-to_clients c p [] = refl
  pmessages-to_clients c p (d ∷ cs) = omega (arith, pmessages-to_clients c p cs)

  tally-to_patterns :
      (matches : Text → Text → Bool) (c : ℕ) (p : Text) (ps : List (ℕ × Text))
      → tally (is_pmessage c p t text) (to_patterns matches ps)
        ≡ (if matches p t then count (c, p) ps else 0)
  unfolding tally to_patterns count
  tally-to_patterns matches c p [] = ground arith
  tally-to_patterns matches c p ((d, q) ∷ ps) =
      ground
        (arith, tally-to_patterns matches c p ps, text_refl t, text_refl text, list_beq_iff p q)

  messages-to_patterns :
      (matches : Text → Text → Bool) (c : ℕ) (ps : List (ℕ × Text))
      → tally (is_message c t text) (to_patterns matches ps) ≡ 0
  unfolding tally to_patterns
  messages-to_patterns matches c [] = refl
  messages-to_patterns matches c ((d, q) ∷ ps) = ground (arith, messages-to_patterns matches c ps)

  send_to_clients_lem :
      (s : Server) (cs : List ℕ) (n : ℕ)
      → let (s', m) = send_to_clients s cs t text n in
        (s'.sent ≡ s.sent ++ to_clients cs)
        × (m ≡ n + length cs)
        × (s'.pubsub_patterns ≡ s.pubsub_patterns)
  unfolding send_to_clients to_clients
  send_to_clients_lem s [] n = (sym (append-nil s.sent), omega arith, refl)
  send_to_clients_lem s (c ∷ cs) n =
      let (sent, m, kept) = send_to_clients_lem (add_reply s c (message t text)) cs (n + 1) in
      (sent ∙ append_assoc s.sent _ _, omega arith, kept)

  send_to_patterns_lem :
      (matches : Text → Text → Bool) (s : Server) (ps : List (ℕ × Text)) (n : ℕ)
      → let (s', m) = send_to_patterns matches s ps t text n in
        (s'.sent ≡ s.sent ++ to_patterns matches ps) × (m ≡ n + length (to_patterns matches ps))
  unfolding send_to_patterns to_patterns
  send_to_patterns_lem matches s [] n = (sym (append-nil s.sent), omega arith)
  send_to_patterns_lem matches s ((c, p) ∷ ps) n = elim (Bool-cases (matches p t)) [
    | inl e ↦
        let (sent, m) =
          send_to_patterns_lem matches (add_reply s c (pmessage p t text)) ps (n + 1) in
        rw (e, send_to_patterns) (sent ∙ append_assoc s.sent _ _, omega arith)
    | inr e ↦
        let (sent, m) = send_to_patterns_lem matches s ps (n + 0) in
        rw (e, send_to_patterns) (sent, omega arith)
  ]

-- What a publication promises.
abbrev pub Delivers : (Text → Text → Bool) → Server → Text → Text → Server × ℕ → Type 0
Delivers matches s t text (s', receivers) =
    (new : Sent) × (s'.sent ≡ s.sent ++ new)
    × (receivers ≡ length new)
    × ((c : ℕ) → tally (is_message c t text) new ≡ count t (s.client c).pubsub_channels)
    × ((c : ℕ) (p : Text)
        → tally (is_pmessage c p t text) new
          ≡ (if matches p t then count p (s.client c).pubsub_patterns else 0))

-- On valid tables PUBLISH sends each client the message as often as it subscribes to the channel,
-- and once more for each of its patterns that matches; it returns how many messages it has sent.
pub publish_message-Delivers :
    (matches : Text → Text → Bool) (s : Server) (t text : Text)
    → IsValid s
    → Delivers matches s t text (publish_message matches s t text)
unfolding publish_message
publish_message-Delivers matches s t text valid =
    let cs = list_or_nil (s.pubsub_channels t) in
    let (sent, n, kept) = send_to_clients_lem t text s cs 0 in
    let s₁ = (send_to_clients s cs t text 0).0 in
    let (sent', n') =
      send_to_patterns_lem t text matches s₁ s₁.pubsub_patterns (send_to_clients s cs t text 0).1 in
    let same = ap (to_patterns t text matches) kept in
    let ps = s.pubsub_patterns in
    let first = to_clients t text cs in
    let second = to_patterns t text matches ps in
    (
      first ++ second,
      sent' ∙ ap₂ ◌++◌ sent same ∙ append_assoc s.sent first second,
      omega (arith, n', ap length same, length-append first second, length-to_clients t text cs),
      λ c. omega (
        arith,
        tally-append (is_message c t text) first second,
        tally-to_clients t text c cs,
        messages-to_patterns t text matches c ps,
        valid.agree c t,
      ),
      λ c p.
          let own = ap (λ k. if matches p t then k else 0) (valid.patterns_agree c p) in
          omega (
            arith,
            tally-append (is_pmessage c p t text) first second,
            pmessages-to_clients t text c p cs,
            tally-to_patterns t text matches c p ps,
          ),
    )
