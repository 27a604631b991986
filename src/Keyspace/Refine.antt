-- ===== src/Keyspace/Refine.antt =====
-- Lookups, and the functions that write a key, over the contents.
use redis_allocators.Prelude.{
  ℕ, ◌+◌, ◌≡◌, refl, ap, ◌∙◌, not, ◌&&◌, Option, none, some, if◌then◌else◌,
}
use redis_allocators.Prelude.Int.{ℤ}
use redis_allocators.Dict.Update.{is_none}
use redis_allocators.Keyspace.Interface.{Text, Dictionary}
use redis_allocators.Keyspace.Steps.{◌>>=◌, ◌>>◌, pure, assert, modify}
use redis_allocators.Keyspace.Spec.{
  Entry, Contents, value_of, deadline_of, write, say, say_if, read, set,
}
use redis_allocators.Keyspace.Yields.{
  Yields, Yields-bind, Yields-then, Yields-cast, find_key-Yields,
}
use redis_allocators.Keyspace.Shows.{Shows}
use redis_allocators.Keyspace.Signals.{tell-Yields, tell_if-Yields, pure-Yields, touch-Yields}
use redis_allocators.Keyspace.Calls.{
  persisted, value_none, add_key-Yields, replace_key-Yields, replace_deadline-Yields,
  delete_deadline-Yields,
}
use redis_allocators.Keyspace.Deadlines.{keys-write, write-write}
use redis_allocators.Keyspace.Expiry.{expire_if_needed-Yields}
use redis_allocators.Keyspace.State.{Robj, list_ready, modified, Setting, Server}
use redis_allocators.Keyspace.{
  Step, find_key, lookup_key, touch, lookup_key_read, lookup_key_write, db_add, db_overwrite,
  db_exists, remove_expire, set_expire, set_key, delete_deadline, replace_key, tell,
}

module _ {D E : Type 0} {keys : Dictionary D Robj} {deadlines : Dictionary E ℤ} {c : Setting} where
  module _ {s : Server D E} {x : Contents} (shows : Shows keys deadlines s x) (d : ℕ)
      (k : Text) where
    pub lookup_key-Yields :
        Yields keys deadlines c (lookup_key keys deadlines c d k) s (value_of (x.keys d k)) x
    unfolding lookup_key
    lookup_key-Yields =
        Yields-bind _ (λ o. touch keys deadlines c o >> pure o) (find_key-Yields shows d k)
          (λ s' shows'.
            Yields-then _ _ (touch-Yields shows' (value_of (x.keys d k)))
              (λ s'' shows''. pure-Yields shows'' (value_of (x.keys d k))))

    pub db_exists-Yields :
        Yields keys deadlines c
          (db_exists keys deadlines c d k)
          s
          (not (is_none (value_of (x.keys d k))))
          x
    unfolding db_exists
    db_exists-Yields =
        Yields-bind _ (λ o. pure (not (is_none o))) (find_key-Yields shows d k)
          (λ s' shows'. pure-Yields shows' _)

    -- `dbAdd` does not abort for a key that is not there.
    pub db_add-Yields :
        (v : Robj)
        → value_of (x.keys d k) ≡ none
        → Yields keys deadlines c
            (db_add keys deadlines c d k v)
            s
            tt
            (say_if (c.is_list v) (write x d k (some (v, none))) (list_ready d k))
    unfolding db_add
    db_add-Yields v gone = Yields-bind _ _ (add_key-Yields shows d k v gone) (λ s' shows'.
        Yields-then _ _ (pure-Yields shows' tt)
          (λ s'' shows''. tell_if-Yields shows'' (c.is_list v) (list_ready d k)))

    -- A step behind the assertion that the key is there.
    after_found :
        {A : Type 0} (m : Step keys deadlines c A) (v : Robj) {r : A} {x' : Contents}
        → value_of (x.keys d k) ≡ some v
        → ((s' : Server D E) → Shows keys deadlines s' x → Yields keys deadlines c m s' r x')
        → Yields keys deadlines c
            (find_key keys deadlines c d k >>= λ o. assert (not (is_none o)) >> m)
            s
            r
            x'
    after_found m v there rest =
        Yields-bind _ (λ o. assert (not (is_none o)) >> m) (find_key-Yields shows d k)
          (λ s' shows'. rw there (Yields-then _ _ (pure-Yields shows' tt) rest))

    pub db_overwrite-Yields :
        (v old : Robj)
        → value_of (x.keys d k) ≡ some old
        → Yields keys deadlines c
            (db_overwrite keys deadlines c d k v)
            s
            tt
            (write x d k (some (v, deadline_of (x.keys d k))))
    unfolding db_overwrite
    db_overwrite-Yields v old there =
        after_found (replace_key keys deadlines c d k v) old there
          (λ s' shows'. replace_key-Yields shows' d k v)

    pub remove_expire-Yields :
        (v : Robj)
        → value_of (x.keys d k) ≡ some v
        → Yields keys deadlines c
            (remove_expire keys deadlines c d k)
            s
            (not (is_none (deadline_of (x.keys d k))))
            (write x d k (persisted (x.keys d k)))
    unfolding remove_expire
    remove_expire-Yields v there =
        after_found (delete_deadline keys deadlines c d k) v there
          (λ s' shows'. delete_deadline-Yields shows' d k)

    pub set_expire-Yields :
        (v : Robj) (when : ℤ)
        → value_of (x.keys d k) ≡ some v
        → Yields keys deadlines c
            (set_expire keys deadlines c d k when)
            s
            tt
            (write x d k (some (v, some when)))
    unfolding set_expire
    set_expire-Yields v when there =
        after_found _ v there (λ s' shows'. replace_deadline-Yields shows' d k v when there)

  module _ {s : Server D E} {x : Contents} (shows : Shows keys deadlines s x) (d : ℕ)
      (k : Text) where
    -- A key takes a value: added or overwritten, with the deadline that is there.
    pub store-Yields :
        (v : Robj) (old : Option Robj)
        → value_of (x.keys d k) ≡ old
        → Yields keys deadlines c
            (if is_none old
              then db_add keys deadlines c d k v
              else db_overwrite keys deadlines c d k v)
            s
            tt
            (say_if
              (is_none old && c.is_list v)
              (write x d k (some (v, deadline_of (x.keys d k))))
              (list_ready d k))
    store-Yields v none gone = rw (value_none (x.keys d k) gone) (db_add-Yields shows d k v gone)
    store-Yields v (some o) there = db_overwrite-Yields shows d k v o there

    count_lookup :
        (o : Option Robj)
        → Yields keys deadlines c
            (modify (λ s.
              if is_none o
              then record s { stat_keyspace_misses = s.stat_keyspace_misses + 1 }
              else record s { stat_keyspace_hits = s.stat_keyspace_hits + 1 }))
            s
            tt
            x
    count_lookup none = record {
      after = record s { stat_keyspace_misses = s.stat_keyspace_misses + 1 };
      runs = refl;
      shows = record {
        dbs = shows.dbs;
        readings = shows.readings;
        dirty = shows.dirty;
        events = shows.events;
      };
    }
    count_lookup (some v) = record {
      after = record s { stat_keyspace_hits = s.stat_keyspace_hits + 1 };
      runs = refl;
      shows = record {
        dbs = shows.dbs;
        readings = shows.readings;
        dirty = shows.dirty;
        events = shows.events;
      };
    }

    -- `lookupKeyWrite`
    pub lookup_key_write-Yields :
        Yields keys deadlines c
          (lookup_key_write keys deadlines c d k)
          s
          (read c x d k).0
          (read c x d k).1
    unfolding lookup_key_write
    lookup_key_write-Yields =
        Yields-bind _ (λ _. lookup_key keys deadlines c d k) (expire_if_needed-Yields shows d k)
          (λ s' shows'. lookup_key-Yields shows' d k)

  module _ {s : Server D E} {x : Contents} (shows : Shows keys deadlines s x) (d : ℕ)
      (k : Text) where
    -- `lookupKeyRead` returns the value of a key that has not expired.
    pub lookup_key_read-Yields :
        Yields keys deadlines c
          (lookup_key_read keys deadlines c d k)
          s
          (read c x d k).0
          (read c x d k).1
    unfolding lookup_key_read
    lookup_key_read-Yields = Yields-bind _ _ (expire_if_needed-Yields shows d k) (λ s₁ shows₁.
        Yields-bind _ _ (lookup_key-Yields shows₁ d k) (λ s₂ shows₂.
          Yields-then _ _ (count_lookup shows₂ d k (read c x d k).0)
            (λ s₃ shows₃. pure-Yields shows₃ _)))

    -- `setKey` stores the value under the key without a deadline, behind the expiry of the key, tells
    -- that the key is modified, and does not abort.
    pub set_key-Yields :
        (v : Robj) → Yields keys deadlines c (set_key keys deadlines c d k v) s tt (set c x d k v)
    unfolding set_key
    set_key-Yields v =
        let x₁ = (read c x d k).1 in
        let e : Option Entry = some (v, deadline_of (x₁.keys d k)) in
        let new = is_none (read c x d k).0 && c.is_list v in
        let x₂ = say_if new (write x₁ d k e) (list_ready d k) in
        Yields-bind _ _ (lookup_key_write-Yields shows d k) (λ s₁ shows₁.
          Yields-then _ _ (store-Yields shows₁ d k v (read c x d k).0 refl) (λ s₂ shows₂.
            let here = keys-write x₁ d k e in
            Yields-cast refl
              (ap (λ o. say (write x₂ d k (persisted o)) (modified d k)) here
                ∙ ap (λ y. say (say_if new y (list_ready d k)) (modified d k))
                    (write-write x₁ d k e (some (v, none))))
              (Yields-bind _ (λ _. tell keys deadlines c (modified d k))
                (remove_expire-Yields shows₂ d k v (ap value_of here))
                (λ s₃ shows₃. tell-Yields shows₃ (modified d k)))))
