-- ===== src/Keyspace/Expiry.antt =====
-- `getExpire`, `dbDelete` and `expireIfNeeded` over the contents.
use redis_allocators.Prelude.{
  ℕ, ◌+◌, ◌≡◌, refl, Bool, true, false, not, ◌&&◌, ◌||◌, Option, none, some, if◌then◌else◌,
}
use redis_allocators.Prelude.Int.{ℤ, pos, ltb_ℤ}
use redis_allocators.Util.{codes}
use redis_allocators.Keyspace.Interface.{Text, Dictionary}
use redis_allocators.Keyspace.Steps.{pure, modify}
use redis_allocators.Keyspace.Spec.{
  Contents, deadline_of, say, say_if, clock, expel, expire_at, expire,
}
use redis_allocators.Keyspace.Yields.{Yields, Yields-bind, Yields-if, Yields-cast, Yields-then}
use redis_allocators.Keyspace.Shows.{Shows}
use redis_allocators.Keyspace.Signals.{
  tell-Yields, tell_if-Yields, pure-Yields, expire_clock-Yields,
}
use redis_allocators.Keyspace.State.{
  Robj, aof_del, slaves_del, notified, notify_expired, Setting, Server,
}
use redis_allocators.Keyspace.{
  Step, propagate_expire, delete_expired, expire_by, expire_from, expire_if_needed,
}
use redis_allocators.Keyspace.Deadlines.{
  or_minus_one, has_value, get_expire-Yields, db_delete-Yields,
}

module _ {D E : Type 0} {keys : Dictionary D Robj} {deadlines : Dictionary E ℤ} {c : Setting} where
  module _ {s : Server D E} {x : Contents} (shows : Shows keys deadlines s x) (d : ℕ)
      (k : Text) where
    propagate_expire-Yields :
        Yields keys deadlines c
          (propagate_expire keys deadlines c d k)
          s
          tt
          (say (say_if c.aof_on x (aof_del d k)) (slaves_del d k))
    unfolding propagate_expire
    propagate_expire-Yields =
        Yields-then _ _ (tell_if-Yields shows c.aof_on (aof_del d k))
          (λ s' shows'. tell-Yields shows' (slaves_del d k))

    count_expired :
        Yields keys deadlines c
          (modify (λ s. record s { stat_expiredkeys = s.stat_expiredkeys + 1 }))
          s
          tt
          x
    count_expired = record {
      after = record s { stat_expiredkeys = s.stat_expiredkeys + 1 };
      runs = refl;
      shows = record {
        dbs = shows.dbs;
        readings = shows.readings;
        dirty = shows.dirty;
        events = shows.events;
      };
    }

  module _ {s : Server D E} {x : Contents} (shows : Shows keys deadlines s x) (d : ℕ)
      (k : Text) where
    delete_expired-Yields :
        (when : ℤ)
        → deadline_of (x.keys d k) ≡ some when
        → Yields keys deadlines c (delete_expired keys deadlines c d k) s true (expel c x d k)
    delete_expired-Yields when e =
        let (v, there) = has_value (x.keys d k) when e in
        Yields-then _ _ (count_expired shows d k) (λ s₁ shows₁.
          Yields-then _ _ (propagate_expire-Yields shows₁ d k) (λ s₂ shows₂.
            Yields-then _ _ (tell-Yields shows₂ (notified notify_expired (codes "expired") k d))
              (λ s₃ shows₃. Yields-cast (rw there refl) refl (db_delete-Yields shows₃ d k))))

    expire_by-Yields :
        (when now : ℤ)
        → deadline_of (x.keys d k) ≡ some when
        → Yields keys deadlines c
            (expire_by keys deadlines c d k when now)
            s
            (ltb_ℤ when now)
            (if ltb_ℤ when now && not c.masterhost then expel c x d k else x)
    expire_by-Yields when now e =
        decide (ltb_ℤ when now) c.masterhost (delete_expired-Yields when e)
      where
        decide :
            (late slave : Bool) {m : Step keys deadlines c Bool} {x' : Contents}
            → Yields keys deadlines c m s true x'
            → Yields keys deadlines c
                (if slave then pure late else if not late then pure false else m)
                s
                late
                (if late && not slave then x' else x)
        decide true true y = pure-Yields shows true
        decide false true y = pure-Yields shows false
        decide true false y = y
        decide false false y = pure-Yields shows false

  module _ {s : Server D E} {x : Contents} (shows : Shows keys deadlines s x) (d : ℕ)
      (k : Text) where
    expire_at-Yields :
        (o : Option ℤ)
        → deadline_of (x.keys d k) ≡ o
        → Yields keys deadlines c
            (expire_from keys deadlines c d k (or_minus_one o))
            s
            (expire_at c x d k o).0
            (expire_at c x d k o).1
    expire_at-Yields none e = pure-Yields shows false
    expire_at-Yields (some when) e =
        Yields-if (ltb_ℤ when (pos 0) || c.loading) {r = (false, x)}
          {r' = (
            ltb_ℤ when (clock c x).0,
            if ltb_ℤ when (clock c x).0 && not c.masterhost
                then expel c (clock c x).1 d k
                else (clock c x).1,
          )}
          (λ _. pure-Yields shows false)
          (λ _.
            Yields-bind _ _ (expire_clock-Yields shows)
              (λ s' shows'. expire_by-Yields shows' d k when (clock c x).0 e))

  module _ {s : Server D E} {x : Contents} (shows : Shows keys deadlines s x) (d : ℕ)
      (k : Text) where
    -- `expireIfNeeded` does to the contents what their description says, and returns whether the key
    -- has expired.
    pub expire_if_needed-Yields :
        Yields keys deadlines c
          (expire_if_needed keys deadlines c d k)
          s
          (expire c x d k).0
          (expire c x d k).1
    unfolding expire_if_needed expire
    expire_if_needed-Yields =
        Yields-bind _ _ (get_expire-Yields shows d k)
          (λ s' shows'. expire_at-Yields shows' d k (deadline_of (x.keys d k)) refl)
