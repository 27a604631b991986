-- ===== src/Keyspace/Described.antt =====
-- What the commands promise, over the contents.
use redis_allocators.Prelude.{
  ℕ, ◌+◌, Bool, true, false, not, ◌&&◌, Option, none, some, List, [], ◌∷◌, ◌==◌, if◌then◌else◌,
}
use redis_allocators.Prelude.Int.{ℤ, pos, negsuc, ltb_ℤ, eqb_ℤ, ◌+ℤ◌, ◌*ℤ◌}
use redis_allocators.Util.{codes}
use redis_allocators.Dict.Update.{is_none}
use redis_allocators.Keyspace.Interface.{Text, same_text}
use redis_allocators.Keyspace.Spec.{
  Contents, value_of, deadline_of, write, say, say_if, expire, read, set,
}
use redis_allocators.Keyspace.Calls.{persisted}
use redis_allocators.Keyspace.Deadlines.{or_minus_one}
use redis_allocators.Keyspace.Commands.{to_int64, ttl_reply}
use redis_allocators.Keyspace.State.{
  Robj, Reply, ok, czero, cone, nokeyerr, sameobjecterr, outofrangeerr, invalid_expire,
  not_an_integer, integer, notified, modified, list_ready, rewritten_del, replied, notify_generic,
  notify_string, minus_one, Setting,
}

abbrev pub reply : Contents → Reply → Contents
reply x r = say x (replied r)

abbrev pub dirtied : Contents → Contents
dirtied x = record x { dirty = x.dirty + 1 }

-- The time that `mstime` returns next has been taken.
abbrev pub timed : Contents → Contents
timed x = record x { readings = x.readings + 1 }

abbrev pub notified_del : Contents → ℕ → Text → Contents
notified_del x d k = say (say x (modified d k)) (notified notify_generic (codes "del") k d)

-- A key takes a value and a deadline, where the key did not have a value; a list is announced.
abbrev pub placed : Setting → Contents → ℕ → Text → Robj → Option ℤ → Contents
placed c x d k v t = say_if (c.is_list v) (write x d k (some (v, t))) (list_ready d k)

-- The deadline that `getExpire` reports: -1 is none.
abbrev pub reported : Option ℤ → Option ℤ
reported t = let e = or_minus_one t in if eqb_ℤ e minus_one then none else some e

abbrev pub has_key : Contents → ℕ → Text → Bool
has_key x d k = not (is_none (value_of (x.keys d k)))

module _ (c : Setting) where
  -- DEL: how many keys were there, and the keys are gone.
  unfoldable pub del_keys : Contents → ℕ → List Text → ℕ → ℕ × Contents
  del_keys x d [] n = (n, x)
  del_keys x d (k ∷ ks) n =
      let x' = (expire c x d k).1 in
      let gone = del_keys (dirtied (notified_del (write x' d k none) d k)) d ks (n + 1) in
      let kept = del_keys x' d ks n in if has_key x' d k then gone else kept

  abbrev pub del : Contents → ℕ → List Text → Contents
  del x d ks = reply (del_keys x d ks 0).1 (integer (pos (del_keys x d ks 0).0))

  abbrev pub exists : Contents → ℕ → Text → Contents
  exists x d k = let x' = (expire c x d k).1 in reply x' (if has_key x' d k then cone else czero)

  -- RENAME: the value and the deadline go from `k` to `k'`.
  abbrev pub renamed : Contents → ℕ → Text → Text → Robj → Option ℤ → Bool → Contents
  renamed x d k k' v t nx =
      let there = write (placed c x d k' v t) d k none in
      let told = say (say there (modified d k)) (modified d k') in
      let notified_from = say told (notified notify_generic (codes "rename_from") k d) in
      let notified_to = say notified_from (notified notify_generic (codes "rename_to") k' d) in
      reply (dirtied notified_to) (if nx then cone else ok)

  abbrev pub rename_from : Contents → ℕ → Text → Text → Bool → Option Robj → Contents
  rename_from x d k k' nx none = reply x nokeyerr
  rename_from x d k k' nx (some v) =
      let (old, x') = read c x d k' in
      if nx && not (is_none old)
      then reply x' czero
      else renamed x' d k k' v (reported (deadline_of (x.keys d k))) nx

  abbrev pub rename : Contents → ℕ → Text → Text → Bool → Contents
  rename x d k k' nx =
      if same_text k k'
      then reply x sameobjecterr
      else rename_from (read c x d k).1 d k k' nx (read c x d k).0

  -- MOVE: the value goes to the other database, without a deadline.
  abbrev pub moved : Contents → ℕ → ℕ → Text → Robj → Option Robj → Contents
  moved x d d' k v (some old) = reply x czero
  moved x d d' k v none = reply (dirtied (write (placed c x d' k v none) d k none)) cone

  abbrev pub move_from : Contents → ℕ → ℕ → Text → Option Robj → Contents
  move_from x d d' k none = reply x czero
  move_from x d d' k (some v) = moved (read c x d' k).1 d d' k v (read c x d' k).0

  abbrev pub move_into : Contents → ℕ → Text → Option ℕ → Contents
  move_into x d k none = reply x outofrangeerr
  move_into x d k (some d') =
      if d == d' then reply x sameobjecterr else move_from (read c x d k).1 d d' k (read c x d k).0

  -- EXPIRE: the key leaves, or has the deadline.
  abbrev pub deadline_set : Contents → ℕ → Text → Robj → ℤ → ℤ → Contents
  deadline_set x d k v when now =
      if not (ltb_ℤ now when) && not c.loading && not c.masterhost
      then reply (notified_del (say (dirtied (write x d k none)) (rewritten_del k)) d k) cone
      else let told = say (reply (write x d k (some (v, some when))) cone) (modified d k) in
        dirtied (say told (notified notify_generic (codes "expire") k d))

  abbrev pub expire_from : Contents → ℕ → Text → ℤ → Option Robj → Contents
  expire_from x d k when none = reply x czero
  expire_from x d k when (some v) = deadline_set (timed x) d k v when (c.mstime x.readings)

  abbrev pub expire_key : Contents → ℕ → Text → Option ℤ → ℤ → Bool → Contents
  expire_key x d k none basetime seconds = reply x not_an_integer
  expire_key x d k (some n) basetime seconds =
      let when = to_int64 ((if seconds then to_int64 (n *ℤ pos 1000) else n) +ℤ basetime) in
      expire_from (read c x d k).1 d k when (read c x d k).0

  -- TTL
  abbrev pub ttl_from : Contents → ℕ → Text → Bool → Option Robj → Contents
  ttl_from x d k output_ms none = reply x (integer (negsuc 1))
  ttl_from x d k output_ms (some v) =
      let e = or_minus_one (deadline_of (x.keys d k)) in
      if eqb_ℤ e minus_one
      then reply x (integer minus_one)
      else reply (timed x) (ttl_reply e (c.mstime x.readings) output_ms)

  abbrev pub ttl : Contents → ℕ → Text → Bool → Contents
  ttl x d k output_ms = ttl_from (read c x d k).1 d k output_ms (read c x d k).0

  -- PERSIST: the deadline goes, whether it has passed or not.
  abbrev pub persist_from : Contents → ℕ → Text → Option Robj → Contents
  persist_from x d k none = reply x czero
  persist_from x d k (some v) =
      let x' = write x d k (persisted (x.keys d k)) in
      if not (is_none (deadline_of (x.keys d k))) then dirtied (reply x' cone) else reply x' czero

  abbrev pub persist : Contents → ℕ → Text → Contents
  persist x d k = persist_from x d k (value_of (x.keys d k))

  -- SET: the tests for NX and XX, and the value with its deadline.
  abbrev pub refused_nx : Contents → ℕ → Text → Bool → Bool × Contents
  refused_nx x d k nx =
      if nx then (not (is_none (read c x d k).0), (read c x d k).1) else (false, x)

  abbrev pub refused_xx : Contents → ℕ → Text → Bool → Bool × Contents
  refused_xx x d k xx = if xx then (is_none (read c x d k).0, (read c x d k).1) else (false, x)

  abbrev pub refused : Contents → ℕ → Text → Bool → Bool → Bool × Contents
  refused x d k nx xx =
      let (there, x') = refused_nx x d k nx in if there then (true, x') else refused_xx x' d k xx

  abbrev pub timeout_set : Contents → ℕ → Text → Robj → Option ℤ → Contents
  timeout_set x d k v none = x
  timeout_set x d k v (some milliseconds) =
      write (timed x) d k (some (v, some (to_int64 (c.mstime x.readings +ℤ milliseconds))))

  abbrev pub set_told : Contents → ℕ → Text → Robj → Option ℤ → Reply → Contents
  set_told x d k v timeout ok_reply =
      let stored = timeout_set (dirtied (set c x d k v)) d k v timeout in
      let told = say stored (notified notify_string (codes "set") k d) in
      reply (say_if (not (is_none timeout)) told (notified notify_generic (codes "expire") k d))
        ok_reply

  abbrev pub set_unless :
      Contents → ℕ → Text → Robj → Option ℤ → Bool → Bool → Reply → Reply → Contents
  set_unless x d k v timeout nx xx ok_reply abort_reply =
      let (refuses, x') = refused x d k nx xx in
      if refuses then reply x' abort_reply else set_told x' d k v timeout ok_reply

  abbrev pub set_key_to :
      Contents → ℕ → Text → Robj → Option (Option ℤ) → Bool → Bool → Bool → Reply → Reply → Contents
  set_key_to x d k v none seconds nx xx ok_reply abort_reply =
      set_unless x d k v none nx xx ok_reply abort_reply
  set_key_to x d k v (some none) seconds nx xx ok_reply abort_reply = reply x not_an_integer
  set_key_to x d k v (some (some n)) seconds nx xx ok_reply abort_reply =
      if not (ltb_ℤ (pos 0) n)
      then reply x invalid_expire
      else let milliseconds = if seconds then to_int64 (n *ℤ pos 1000) else n in
        set_unless x d k v (some milliseconds) nx xx ok_reply abort_reply
