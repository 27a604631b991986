-- ===== src/Keyspace/Times.antt =====
-- EXPIRE, TTL and PERSIST do what their descriptions say.
use redis_allocators.Prelude.{
  ℕ, ◌≡◌, refl, Bool, true, not, ◌&&◌, Option, none, some, if◌then◌else◌,
}
use redis_allocators.Prelude.Int.{ℤ, pos, ltb_ℤ, eqb_ℤ, ◌+ℤ◌, ◌*ℤ◌}
use redis_allocators.Dict.Update.{is_none}
use redis_allocators.Keyspace.Interface.{Text, Dictionary}
use redis_allocators.Keyspace.Spec.{Contents, value_of, deadline_of, read}
use redis_allocators.Keyspace.Yields.{
  Yields, Yields-bind, Yields-then, Yields-choose, Yields-cast, find_key-Yields,
}
use redis_allocators.Keyspace.Shows.{Shows}
use redis_allocators.Keyspace.Signals.{tell-Yields, pure-Yields, make_dirty-Yields, mstime-Yields}
use redis_allocators.Keyspace.Deadlines.{db_delete-Yields, get_expire-Yields, or_minus_one}
use redis_allocators.Keyspace.Refine.{
  lookup_key_read-Yields, remove_expire-Yields, set_expire-Yields,
}
use redis_allocators.Keyspace.Timed.{
  expire_key, expire_found, expire_generic, expire_command, ttl_found, ttl_generic, persist_found,
  persist_command,
}
use redis_allocators.Keyspace.Commands.{to_int64}
use redis_allocators.Keyspace.Described.{
  expire_key as expire_key_to, timed, deadline_set, expire_from, ttl_from, ttl, persist_from,
  persist,
}
use redis_allocators.Keyspace.State.{Robj, minus_one, Setting, Server}

module _ {D E : Type 0} {keys : Dictionary D Robj} {deadlines : Dictionary E ℤ} {c : Setting} where
  module _ {s : Server D E} {x : Contents} (shows : Shows keys deadlines s x) (d : ℕ)
      (k : Text) where
    expire_key-Yields :
        (v : Robj) (when now : ℤ)
        → value_of (x.keys d k) ≡ some v
        → Yields keys deadlines c
            (expire_key keys deadlines c d k when now)
            s
            tt
            (deadline_set c x d k v when now)
    expire_key-Yields v when now there =
        let found : not (is_none (value_of (x.keys d k))) ≡ true = rw there refl in
        Yields-choose (not (ltb_ℤ now when) && not c.loading && not c.masterhost)
          (Yields-bind _ _ (Yields-cast found refl (db_delete-Yields shows d k)) (λ s₁ shows₁.
            Yields-then _ _ (pure-Yields shows₁ tt) (λ s₂ shows₂.
              Yields-then _ _ (make_dirty-Yields shows₂) (λ s₃ shows₃.
                Yields-then _ _ (tell-Yields shows₃ _) (λ s₄ shows₄.
                  Yields-then _ _ (tell-Yields shows₄ _) (λ s₅ shows₅.
                    Yields-then _ _ (tell-Yields shows₅ _) (λ s₆ shows₆. tell-Yields shows₆ _)))))))
          (Yields-then _ _ (set_expire-Yields shows d k v when there) (λ s₁ shows₁.
            Yields-then _ _ (tell-Yields shows₁ _) (λ s₂ shows₂.
              Yields-then _ _ (tell-Yields shows₂ _) (λ s₃ shows₃.
                Yields-then _ _ (tell-Yields shows₃ _) (λ s₄ shows₄. make_dirty-Yields shows₄)))))

    ttl_found-Yields :
        (output_ms : Bool) (o : Option Robj)
        → Yields keys deadlines c
            (ttl_found keys deadlines c d k output_ms o)
            s
            tt
            (ttl_from c x d k output_ms o)
    ttl_found-Yields output_ms none = tell-Yields shows _
    ttl_found-Yields output_ms (some v) =
        Yields-bind _ _ (get_expire-Yields shows d k) (λ s₁ shows₁.
          Yields-choose (eqb_ℤ (or_minus_one (deadline_of (x.keys d k))) minus_one)
            (tell-Yields shows₁ _)
            (Yields-bind _ _ (mstime-Yields shows₁) (λ s₂ shows₂. tell-Yields shows₂ _)))

    persist_found-Yields :
        (o : Option Robj)
        → value_of (x.keys d k) ≡ o
        → Yields keys deadlines c
            (persist_found keys deadlines c d k o)
            s
            tt
            (persist_from c x d k o)
    persist_found-Yields none gone = tell-Yields shows _
    persist_found-Yields (some v) there =
        Yields-bind _ _ (remove_expire-Yields shows d k v there) (λ s₁ shows₁.
          Yields-choose (not (is_none (deadline_of (x.keys d k))))
            (Yields-then _ _ (tell-Yields shows₁ _) (λ s₂ shows₂. make_dirty-Yields shows₂))
            (tell-Yields shows₁ _))

  module _ {s : Server D E} {x : Contents} (shows : Shows keys deadlines s x) (d : ℕ)
      (k : Text) where
    expire_found-Yields :
        (when : ℤ) (o : Option Robj)
        → value_of (x.keys d k) ≡ o
        → Yields keys deadlines c
            (expire_found keys deadlines c d k when o)
            s
            tt
            (expire_from c x d k when o)
    expire_found-Yields when none gone = tell-Yields shows _
    expire_found-Yields when (some v) there =
        Yields-bind _ (expire_key keys deadlines c d k when) (mstime-Yields shows)
          (λ s₁ shows₁. expire_key-Yields shows₁ d k v when (c.mstime x.readings) there)

    -- TTL and PTTL run without an abort, and reply the time that is left.
    pub ttl_generic-Yields :
        (output_ms : Bool)
        → Yields keys deadlines c
            (ttl_generic keys deadlines c d k output_ms)
            s
            tt
            (ttl c x d k output_ms)
    unfolding ttl_generic
    ttl_generic-Yields output_ms =
        Yields-bind _ (ttl_found keys deadlines c d k output_ms) (lookup_key_read-Yields shows d k)
          (λ s₁ shows₁. ttl_found-Yields shows₁ d k output_ms (read c x d k).0)

    pub persist_command-Yields :
        Yields keys deadlines c (persist_command keys deadlines c d k) s tt (persist c x d k)
    unfolding persist_command
    persist_command-Yields =
        Yields-bind _ (persist_found keys deadlines c d k) (find_key-Yields shows d k)
          (λ s₁ shows₁. persist_found-Yields shows₁ d k (value_of (x.keys d k)) refl)

  module _ {s : Server D E} {x : Contents} (shows : Shows keys deadlines s x) (d : ℕ)
      (k : Text) where
    -- EXPIRE, PEXPIRE, EXPIREAT and PEXPIREAT behind their base time run without an abort, and do what
    -- they promise.
    pub expire_generic-Yields :
        (n : Option ℤ) (basetime : ℤ) (seconds : Bool)
        → Yields keys deadlines c
            (expire_generic keys deadlines c d k n basetime seconds)
            s
            tt
            (expire_key_to c x d k n basetime seconds)
    unfolding expire_generic
    expire_generic-Yields none basetime seconds = tell-Yields shows _
    expire_generic-Yields (some n) basetime seconds =
        let when = to_int64 ((if seconds then to_int64 (n *ℤ pos 1000) else n) +ℤ basetime) in
        Yields-bind _ (expire_found keys deadlines c d k when) (lookup_key_read-Yields shows d k)
          (λ s₁ shows₁. expire_found-Yields shows₁ d k when (read c x d k).0 refl)

  module _ {s : Server D E} {x : Contents} (shows : Shows keys deadlines s x) (d : ℕ)
      (k : Text) where
    pub expire_command-Yields :
        (n : Option ℤ) (seconds : Bool)
        → Yields keys deadlines c
            (expire_command keys deadlines c d k n seconds)
            s
            tt
            (expire_key_to c (timed x) d k n (c.mstime x.readings) seconds)
    unfolding expire_command
    expire_command-Yields n seconds =
        Yields-bind _ (λ basetime. expire_generic keys deadlines c d k n basetime seconds)
          (mstime-Yields shows)
          (λ s₁ shows₁. expire_generic-Yields shows₁ d k n (c.mstime x.readings) seconds)
