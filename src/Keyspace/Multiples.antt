-- ===== src/Keyspace/Multiples.antt =====
-- MGET and MSET do what their descriptions say.
use redis_allocators.Prelude.{
  ℕ, ◌+◌, refl, ap, Bool, not, List, [], ◌∷◌, ◌==◌, if◌then◌else◌, length,
}
use redis_allocators.Prelude.Int.{ℤ}
use redis_allocators.Dict.Update.{is_none}
use redis_allocators.Keyspace.Interface.{Text, Dictionary}
use redis_allocators.Keyspace.Steps.{modify, ◌>>◌}
use redis_allocators.Keyspace.Spec.{Contents, read}
use redis_allocators.Keyspace.Yields.{Yields, Yields-bind, Yields-then, Yields-if, Yields-choose}
use redis_allocators.Keyspace.Shows.{Shows}
use redis_allocators.Keyspace.Signals.{tell-Yields, pure-Yields}
use redis_allocators.Keyspace.Refine.{
  lookup_key_read-Yields, lookup_key_write-Yields, set_key-Yields,
}
use redis_allocators.Keyspace.Described.{reply}
use redis_allocators.Keyspace.Commands.{add_reply}
use redis_allocators.Keyspace.Strings.{
  mget_reply, mget_each, mget_command, busy_keys, mset_each, mset_unless, mset_generic,
}
use redis_allocators.Keyspace.State.{Robj, multi_bulk_len, Setting, Server}
use redis_allocators.Keyspace.Texts.{
  mget_all, busy, set_all, mset_from, busy_if, mset, mget_reply-answer,
}

module _ {D E : Type 0} {keys : Dictionary D Robj} {deadlines : Dictionary E ℤ} {c : Setting} where
  mget_each-Yields :
      (d : ℕ) (ks : List Text) {s : Server D E} {x : Contents}
      → Shows keys deadlines s x
      → Yields keys deadlines c (mget_each keys deadlines c d ks) s tt (mget_all c x d ks)
  unfolding mget_each mget_all
  mget_each-Yields d [] shows = pure-Yields shows tt
  mget_each-Yields d (k ∷ ks) {x = x} shows =
      Yields-bind _
        (λ o. add_reply keys deadlines c (mget_reply c o) >> mget_each keys deadlines c d ks)
        (lookup_key_read-Yields shows d k)
        (λ s₁ shows₁.
          rw (mget_reply-answer c (read c x d k).0)
            (Yields-then _ _ (tell-Yields shows₁ _) (λ s₂ shows₂. mget_each-Yields d ks shows₂)))

  busy_keys-Yields :
      (d : ℕ) (l : List (Text × Robj)) (n : ℕ) {s : Server D E} {x : Contents}
      → Shows keys deadlines s x
      → Yields keys deadlines c
          (busy_keys keys deadlines c d l n)
          s
          (busy c x d l n).0
          (busy c x d l n).1
  unfolding busy_keys busy
  busy_keys-Yields d [] n shows = pure-Yields shows n
  busy_keys-Yields d (e ∷ l) n {x = x} shows =
      Yields-bind _ (λ o. busy_keys keys deadlines c d l (if is_none o then n else n + 1))
        (lookup_key_write-Yields shows d e.0)
        (λ s₁ shows₁. busy_keys-Yields d l (if is_none (read c x d e.0).0 then n else n + 1) shows₁)

  mset_each-Yields :
      (d : ℕ) (l : List (Text × Robj)) {s : Server D E} {x : Contents}
      → Shows keys deadlines s x
      → Yields keys deadlines c (mset_each keys deadlines c d l) s tt (set_all c x d l)
  unfolding mset_each set_all
  mset_each-Yields d [] shows = pure-Yields shows tt
  mset_each-Yields d (e ∷ l) shows = Yields-then _ _ (set_key-Yields shows d e.0 e.1) (λ s₁ shows₁.
      Yields-then _ _ (tell-Yields shows₁ _) (λ s₂ shows₂. mset_each-Yields d l shows₂))

  add_dirty-Yields :
      (n : ℕ) {s : Server D E} {x : Contents}
      → Shows keys deadlines s x
      → Yields keys deadlines c
          (modify (λ s. record s { dirty = s.dirty + n }))
          s
          tt
          (record x { dirty = x.dirty + n })
  add_dirty-Yields n {s = s} shows = record {
    after = record s { dirty = s.dirty + n };
    runs = refl;
    shows = record {
      dbs = shows.dbs;
      readings = shows.readings;
      dirty = ap (λ m. m + n) shows.dirty;
      events = shows.events;
    };
  }

  mset_unless-Yields :
      (d : ℕ) (l : List (Text × Robj)) (nx : Bool) (n : ℕ) {s : Server D E} {x : Contents}
      → Shows keys deadlines s x
      → Yields keys deadlines c
          (mset_unless keys deadlines c d l nx n)
          s
          tt
          (mset_from c x d l nx n)
  mset_unless-Yields d l nx n shows = Yields-choose (not (n == 0)) (tell-Yields shows _) (
      Yields-then _ _ (mset_each-Yields d l shows) (λ s₁ shows₁.
        Yields-then _ _ (add_dirty-Yields (length l) shows₁) (λ s₂ shows₂. tell-Yields shows₂ _)))

  module _ {s : Server D E} {x : Contents} (shows : Shows keys deadlines s x) (d : ℕ) where
    pub mget_command-Yields :
        (ks : List Text)
        → Yields keys deadlines c
            (mget_command keys deadlines c d ks)
            s
            tt
            (mget_all c (reply x (multi_bulk_len (length ks))) d ks)
    unfolding mget_command
    mget_command-Yields ks =
        Yields-then _ _ (tell-Yields shows _) (λ s₁ shows₁. mget_each-Yields d ks shows₁)

    pub mset_generic-Yields :
        (l : List (Text × Robj)) (dangling nx : Bool)
        → Yields keys deadlines c
            (mset_generic keys deadlines c d l dangling nx)
            s
            tt
            (mset c x d l dangling nx)
    unfolding mset_generic
    mset_generic-Yields l dangling nx = Yields-choose dangling (tell-Yields shows _) (
        Yields-bind _ (mset_unless keys deadlines c d l nx)
          (Yields-if nx {r = busy c x d l 0} {r' = (0, x)} (λ _. busy_keys-Yields d l 0 shows)
            (λ _. pure-Yields shows 0))
          (λ s₁ shows₁. mset_unless-Yields d l nx (busy_if c x d l nx).0 shows₁))
