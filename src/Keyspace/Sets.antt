-- ===== src/Keyspace/Sets.antt =====
-- SET does what its description says.
use redis_allocators.Prelude.{ℕ, ◌≡◌, ap, Bool, true, false, not, Option, none, some, if◌then◌else◌}
use redis_allocators.Prelude.Int.{ℤ, pos, ltb_ℤ, ◌*ℤ◌}
use redis_allocators.Dict.Update.{is_none}
use redis_allocators.Keyspace.Interface.{Text, Dictionary}
use redis_allocators.Keyspace.Steps.{pure}
use redis_allocators.Keyspace.Spec.{Contents, value_of, say_if, read}
use redis_allocators.Keyspace.Yields.{Yields, Yields-bind, Yields-then, Yields-if, Yields-choose}
use redis_allocators.Keyspace.Shows.{Shows}
use redis_allocators.Keyspace.Signals.{tell-Yields, pure-Yields, make_dirty-Yields, mstime-Yields}
use redis_allocators.Keyspace.Deadlines.{keys-write}
use redis_allocators.Keyspace.Refine.{lookup_key_write-Yields, set_expire-Yields, set_key-Yields}
use redis_allocators.Keyspace.Timed.{
  nx_refuses, xx_refuses, refuses, set_timeout, set_value, set_checked, set_generic,
}
use redis_allocators.Keyspace.Commands.{to_int64, add_reply}
use redis_allocators.Keyspace.Described.{
  refused_nx, refused_xx, refused, timeout_set, set_told, set_unless, set_key_to,
}
use redis_allocators.Keyspace.State.{Robj, Reply, Event, Setting, Server}
use redis_allocators.Keyspace.{tell}

module _ {D E : Type 0} {keys : Dictionary D Robj} {deadlines : Dictionary E ℤ} {c : Setting} where
  module _ {s : Server D E} {x : Contents} (shows : Shows keys deadlines s x) (d : ℕ)
      (k : Text) where
    nx_refuses-Yields :
        (nx : Bool)
        → Yields keys deadlines c
            (nx_refuses keys deadlines c d k nx)
            s
            (refused_nx c x d k nx).0
            (refused_nx c x d k nx).1
    nx_refuses-Yields nx =
        Yields-if nx {r = (not (is_none (read c x d k).0), (read c x d k).1)} {r' = (false, x)}
          (λ _.
            Yields-bind _ (λ o. pure (not (is_none o))) (lookup_key_write-Yields shows d k)
              (λ s₁ shows₁. pure-Yields shows₁ _))
          (λ _. pure-Yields shows false)

    xx_refuses-Yields :
        (xx : Bool)
        → Yields keys deadlines c
            (xx_refuses keys deadlines c d k xx)
            s
            (refused_xx c x d k xx).0
            (refused_xx c x d k xx).1
    xx_refuses-Yields xx =
        Yields-if xx {r = (is_none (read c x d k).0, (read c x d k).1)} {r' = (false, x)}
          (λ _.
            Yields-bind _ (λ o. pure (is_none o)) (lookup_key_write-Yields shows d k)
              (λ s₁ shows₁. pure-Yields shows₁ _))
          (λ _. pure-Yields shows false)

    tell_timeout :
        (timeout : Option ℤ) (e : Event)
        → Yields keys deadlines c
            (if is_none timeout then pure tt else tell keys deadlines c e)
            s
            tt
            (say_if (not (is_none timeout)) x e)
    tell_timeout none e = pure-Yields shows tt
    tell_timeout (some t) e = tell-Yields shows e

    set_timeout-Yields :
        (v : Robj) (timeout : Option ℤ)
        → value_of (x.keys d k) ≡ some v
        → Yields keys deadlines c
            (set_timeout keys deadlines c d k timeout)
            s
            tt
            (timeout_set c x d k v timeout)
    set_timeout-Yields v none there = pure-Yields shows tt
    set_timeout-Yields v (some t) there =
        Yields-bind _ _ (mstime-Yields shows) (λ s₁ shows₁. set_expire-Yields shows₁ d k v _ there)

  module _ {s : Server D E} {x : Contents} (shows : Shows keys deadlines s x) (d : ℕ)
      (k : Text) where
    refused-Yields :
        (nx xx : Bool)
        → Yields keys deadlines c
            (refuses keys deadlines c d k nx xx)
            s
            (refused c x d k nx xx).0
            (refused c x d k nx xx).1
    refused-Yields nx xx =
        let there = (refused_nx c x d k nx).0 in
        let x₁ = (refused_nx c x d k nx).1 in
        Yields-bind _ (λ there. if there then pure true else xx_refuses keys deadlines c d k xx)
          (nx_refuses-Yields shows d k nx)
          (λ s₁ shows₁.
            Yields-if there {r = (true, x₁)} {r' = refused_xx c x₁ d k xx}
              (λ _. pure-Yields shows₁ true) (λ _. xx_refuses-Yields shows₁ d k xx))

    set_value-Yields :
        (v : Robj) (timeout : Option ℤ) (ok_reply : Reply)
        → Yields keys deadlines c
            (set_value keys deadlines c d k v timeout ok_reply)
            s
            tt
            (set_told c x d k v timeout ok_reply)
    set_value-Yields v timeout ok_reply = Yields-then _ _ (set_key-Yields shows d k v) (λ s₁ shows₁.
        Yields-then _ _ (make_dirty-Yields shows₁) (λ s₂ shows₂.
          Yields-then _ _
            (set_timeout-Yields shows₂ d k v timeout
              (ap value_of (keys-write (read c x d k).1 d k (some (v, none)))))
            (λ s₃ shows₃. Yields-then _ _ (tell-Yields shows₃ _) (λ s₄ shows₄.
              Yields-then _ _ (tell_timeout shows₄ d k timeout _)
                (λ s₅ shows₅. tell-Yields shows₅ _)))))

  module _ {s : Server D E} {x : Contents} (shows : Shows keys deadlines s x) (d : ℕ)
      (k : Text) where
    set_checked-Yields :
        (v : Robj) (timeout : Option ℤ) (nx xx : Bool) (ok_reply abort_reply : Reply)
        → Yields keys deadlines c
            (set_checked keys deadlines c d k v timeout nx xx ok_reply abort_reply)
            s
            tt
            (set_unless c x d k v timeout nx xx ok_reply abort_reply)
    set_checked-Yields v timeout nx xx ok_reply abort_reply =
        let refusal = (refused c x d k nx xx).0 in
        Yields-bind _
          (λ b.
            if b
            then add_reply keys deadlines c abort_reply
            else set_value keys deadlines c d k v timeout ok_reply)
          (refused-Yields shows d k nx xx)
          (λ s₁ shows₁.
            Yields-choose refusal (tell-Yields shows₁ _)
              (set_value-Yields shows₁ d k v timeout ok_reply))

  module _ {s : Server D E} {x : Contents} (shows : Shows keys deadlines s x) (d : ℕ)
      (k : Text) where
    -- SET, SETNX, SETEX and PSETEX run without an abort, and do what they promise.
    pub set_generic-Yields :
        (v : Robj) (expire : Option (Option ℤ)) (seconds nx xx : Bool)
        (ok_reply abort_reply : Reply)
        → Yields keys deadlines c
            (set_generic keys deadlines c d k v expire seconds nx xx ok_reply abort_reply)
            s
            tt
            (set_key_to c x d k v expire seconds nx xx ok_reply abort_reply)
    unfolding set_generic
    set_generic-Yields v none seconds nx xx ok_reply abort_reply =
        set_checked-Yields shows d k v none nx xx ok_reply abort_reply
    set_generic-Yields v (some none) seconds nx xx ok_reply abort_reply = tell-Yields shows _
    set_generic-Yields v (some (some n)) seconds nx xx ok_reply abort_reply =
        Yields-choose (not (ltb_ℤ (pos 0) n)) (tell-Yields shows _) (
          set_checked-Yields shows d k v (some (if seconds then to_int64 (n *ℤ pos 1000) else n)) nx
            xx ok_reply abort_reply)
