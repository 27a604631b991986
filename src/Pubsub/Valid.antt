-- ===== src/Pubsub/Valid.antt =====
-- The invariant of the subscriptions: the clients' own lists and the server's tables agree.
use redis_allocators.Prelude.{ℕ, ◌≤◌, ◌≡◌, true, [], ◌∷◌, arith, Bool-cases, inl, inr, ◌↔◌}
use redis_allocators.Prelude.Eq.{
  nat_eq, list_eq, pair_eq, count, count-append, count-remove_first, count_cons,
}
use redis_allocators.Listeners.{
  entries, IsTrim, entries-join, entries-leave, join-IsTrim, leave-IsTrim,
}
use redis_allocators.Pubsub.{
  Text, Server, has, enter_channel, leave_channel, enter_pattern, leave_pattern,
}

text_iff : (t u : Text) → ((list_eq {A = ℕ}).beq t u ≡ true) ↔ (t ≡ u)
text_iff t u = (list_eq {A = ℕ}).beq_iff t u

pub record IsValid (s : Server) : Type 0 where
  pub agree :
      (c : ℕ) (t : Text) → entries s.pubsub_channels t c ≡ count t (s.client c).pubsub_channels
  pub once : (c : ℕ) (t : Text) → count t (s.client c).pubsub_channels ≤ 1
  pub trim : IsTrim s.pubsub_channels
  pub patterns_agree :
      (c : ℕ) (t : Text) → count (c, t) s.pubsub_patterns ≡ count t (s.client c).pubsub_patterns
  pub patterns_once : (c : ℕ) (t : Text) → count t (s.client c).pubsub_patterns ≤ 1

pub enter_channel-IsValid :
    (s : Server) (c : ℕ) (t : Text) → IsValid s → IsValid (enter_channel s c t)
unfolding enter_channel
enter_channel-IsValid s c t valid = elim (Bool-cases (has t (s.client c).pubsub_channels)) [
  | inl e ↦ rw e valid
  | inr e ↦ rw e (record {
    agree = λ d u. ground (
      arith,
      entries-join s.pubsub_channels t u c d,
      count_cons u t (s.client c).pubsub_channels,
      valid.agree d u,
      text_iff t u,
      text_iff u t,
    );
    once = λ d u.
        ground (arith, valid.once d u, count_cons u t (s.client c).pubsub_channels, text_iff u t);
    trim = join-IsTrim s.pubsub_channels t c valid.trim;
    patterns_agree = λ d u. ground (arith, valid.patterns_agree d u);
    patterns_once = λ d u. ground (arith, valid.patterns_once d u);
  })
]

pub leave_channel-IsValid :
    (s : Server) (c : ℕ) (t : Text) → IsValid s → IsValid (leave_channel s c t)
unfolding leave_channel
leave_channel-IsValid s c t valid = elim (Bool-cases (has t (s.client c).pubsub_channels)) [
  | inr e ↦ rw e valid
  | inl e ↦ rw e (record {
    agree = λ d u. ground (
      arith,
      entries-leave s.pubsub_channels t u c d,
      count-remove_first u t (s.client c).pubsub_channels,
      valid.agree d u,
      text_iff t u,
      text_iff u t,
    );
    once =
        λ d u. ground (arith, valid.once d u, count-remove_first u t (s.client c).pubsub_channels);
    trim = leave-IsTrim s.pubsub_channels t c valid.trim;
    patterns_agree = λ d u. ground (arith, valid.patterns_agree d u);
    patterns_once = λ d u. ground (arith, valid.patterns_once d u);
  })
]

pub enter_pattern-IsValid :
    (s : Server) (c : ℕ) (t : Text) → IsValid s → IsValid (enter_pattern s c t)
unfolding enter_pattern
enter_pattern-IsValid s c t valid = elim (Bool-cases (has t (s.client c).pubsub_patterns)) [
  | inl e ↦ rw e valid
  | inr e ↦ rw e (record {
    agree = λ d u. ground (arith, valid.agree d u);
    once = λ d u. ground (arith, valid.once d u);
    trim = valid.trim;
    patterns_agree = λ d u.
        unfold count in
        ground (
          arith,
          count-append (d, u) s.pubsub_patterns ((c, t) ∷ []),
          count-append u (s.client c).pubsub_patterns (t ∷ []),
          valid.patterns_agree d u,
        );
    patterns_once = λ d u.
        unfold count in
        ground (
          arith,
          count-append u (s.client c).pubsub_patterns (t ∷ []),
          valid.patterns_once d u,
          text_iff u t,
        );
  })
]

pub leave_pattern-IsValid :
    (s : Server) (c : ℕ) (t : Text) → IsValid s → IsValid (leave_pattern s c t)
unfolding leave_pattern
leave_pattern-IsValid s c t valid = elim (Bool-cases (has t (s.client c).pubsub_patterns)) [
  | inr e ↦ rw e valid
  | inl e ↦ rw e (record {
    agree = λ d u. ground (arith, valid.agree d u);
    once = λ d u. ground (arith, valid.once d u);
    trim = valid.trim;
    patterns_agree = λ d u. ground (
      arith,
      count-remove_first (d, u) (c, t) s.pubsub_patterns,
      count-remove_first u t (s.client c).pubsub_patterns,
      valid.patterns_agree d u,
    );
    patterns_once = λ d u.
        ground
          (arith, valid.patterns_once d u, count-remove_first u t (s.client c).pubsub_patterns);
  })
]
