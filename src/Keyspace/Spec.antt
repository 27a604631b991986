-- ===== src/Keyspace/Spec.antt =====
-- What the keyspace promises: each database is a map from keys to a value and perhaps a deadline, and
-- nothing is left to chance. Servers are compared with such contents.
use redis_allocators.Prelude.{
  ℕ, ◌+◌, Bool, false, not, ◌&&◌, ◌||◌, Option, none, some, List, [], ◌∷◌, ◌++◌, ◌==◌,
  if◌then◌else◌,
}
use redis_allocators.Prelude.Int.{ℤ, pos, ltb_ℤ}
use redis_allocators.Util.{codes}
use redis_allocators.Dict.Update.{is_none}
use redis_allocators.Keyspace.Interface.{Text, put}
use redis_allocators.Keyspace.State.{
  Robj, Event, aof_del, slaves_del, notified, modified, list_ready, notify_expired, Setting,
}

-- A value and its deadline.
abbrev pub Entry : Type 0
Entry = Robj × Option ℤ

pub record Contents : Type 0 where
  pub keys : ℕ → Text → Option Entry
  pub readings : ℕ
  pub dirty : ℕ
  pub events : List Event

abbrev pub value_of : Option Entry → Option Robj
value_of none = none
value_of (some e) = some e.0

abbrev pub deadline_of : Option Entry → Option ℤ
deadline_of none = none
deadline_of (some e) = e.1

abbrev pub write : Contents → ℕ → Text → Option Entry → Contents
write x d k e = record x { keys = λ i. if i == d then put (x.keys d) k e else x.keys i }

abbrev pub say : Contents → Event → Contents
say x e = record x { events = x.events ++ (e ∷ []) }

abbrev pub say_if : Bool → Contents → Event → Contents
say_if b x e = record x { events = if b then x.events ++ (e ∷ []) else x.events }

module _ (c : Setting) where
  abbrev pub clock : Contents → ℤ × Contents
  clock x = (
    if c.lua_caller then c.lua_time_start else c.mstime x.readings,
    record x { readings = if c.lua_caller then x.readings else x.readings + 1 },
  )

  -- The key leaves, and the slaves, the AOF file and the subscribers hear of it.
  abbrev pub expel : Contents → ℕ → Text → Contents
  expel x d k =
      let told = say_if c.aof_on x (aof_del d k) in
      write (say (say told (slaves_del d k)) (notified notify_expired (codes "expired") k d)) d k
        none

  -- A key whose deadline is behind the clock leaves, on a master that is not loading. On a slave it
  -- stays, and is only said to have expired.
  abbrev pub expire_at : Contents → ℕ → Text → Option ℤ → Bool × Contents
  expire_at x d k none = (false, x)
  expire_at x d k (some when) =
      if ltb_ℤ when (pos 0) || c.loading
      then (false, x)
      else let (now, x') = clock x in
        (ltb_ℤ when now, if ltb_ℤ when now && not c.masterhost then expel x' d k else x')

  unfoldable pub expire : Contents → ℕ → Text → Bool × Contents
  expire x d k = expire_at x d k (deadline_of (x.keys d k))

  -- The value under a key that has not expired.
  abbrev pub read : Contents → ℕ → Text → Option Robj × Contents
  read x d k = let x' = (expire x d k).1 in (value_of (x'.keys d k), x')

  -- A key takes a value and loses its deadline. A new key that holds a list is announced.
  abbrev pub set : Contents → ℕ → Text → Robj → Contents
  set x d k v =
      let (old, x') = read x d k in
      say (say_if (is_none old && c.is_list v) (write x' d k (some (v, none))) (list_ready d k))
        (modified d k)
