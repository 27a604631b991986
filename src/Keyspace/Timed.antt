-- ===== src/Keyspace/Timed.antt =====
-- db.c and t_string.c: the commands on deadlines, and SET. A number among the arguments is the result of
-- `getLongLongFromObject`, `none` for a text that is not one.
use redis_allocators.Prelude.{ℕ, Bool, true, false, not, ◌&&◌, Option, none, some, if◌then◌else◌}
use redis_allocators.Prelude.Int.{ℤ, pos, negsuc, ltb_ℤ, eqb_ℤ, ◌+ℤ◌, ◌*ℤ◌}
use redis_allocators.Util.{codes}
use redis_allocators.Dict.Update.{is_none}
use redis_allocators.Keyspace.Interface.{Text, Dictionary}
use redis_allocators.Keyspace.Steps.{pure, assert, ◌>>=◌, ◌>>◌}
use redis_allocators.Keyspace.State.{
  Robj, Reply, ok, czero, cone, nullbulk, invalid_expire, not_an_integer, integer, rewritten_del,
  notify_generic, notify_string, minus_one, Setting,
}
use redis_allocators.Keyspace.{
  mstime, Step, tell, make_dirty, signal_modified_key, get_expire, db_delete, lookup_key_read,
  lookup_key_write, remove_expire, set_expire, set_key, find_key,
}
use redis_allocators.Keyspace.Commands.{to_int64, ttl_reply, add_reply, notify}

module _ {D E : Type 0} (keys : Dictionary D Robj) (deadlines : Dictionary E ℤ) (c : Setting) where
  -- `expireGenericCommand` for a key that is there.
  abbrev pub expire_key : ℕ → Text → ℤ → ℤ → Step keys deadlines c Unit
  expire_key d k when now =
      if not (ltb_ℤ now when) && not c.loading && not c.masterhost
      then (do
        there ← db_delete keys deadlines c d k
        assert there
        make_dirty keys deadlines c
        tell keys deadlines c (rewritten_del k)
        signal_modified_key keys deadlines c d k
        notify keys deadlines c notify_generic (codes "del") k d
        add_reply keys deadlines c cone)
      else do
        set_expire keys deadlines c d k when
        add_reply keys deadlines c cone
        signal_modified_key keys deadlines c d k
        notify keys deadlines c notify_generic (codes "expire") k d
        make_dirty keys deadlines c

  abbrev pub expire_found : ℕ → Text → ℤ → Option Robj → Step keys deadlines c Unit
  expire_found d k when none = add_reply keys deadlines c czero
  expire_found d k when (some v) = do now ← mstime keys deadlines c; expire_key d k when now

  -- `expireGenericCommand`; `seconds` is `unit == UNIT_SECONDS`.
  unfoldable pub expire_generic : ℕ → Text → Option ℤ → ℤ → Bool → Step keys deadlines c Unit
  expire_generic d k none basetime seconds = add_reply keys deadlines c not_an_integer
  expire_generic d k (some n) basetime seconds =
      let when = to_int64 ((if seconds then to_int64 (n *ℤ pos 1000) else n) +ℤ basetime) in
      do o ← lookup_key_read keys deadlines c d k; expire_found d k when o

  -- `expireCommand` and `pexpireCommand`
  unfoldable pub expire_command : ℕ → Text → Option ℤ → Bool → Step keys deadlines c Unit
  expire_command d k n seconds = do
    basetime ← mstime keys deadlines c
    expire_generic d k n basetime seconds

  -- `expireatCommand` and `pexpireatCommand`
  abbrev pub expireat_command : ℕ → Text → Option ℤ → Bool → Step keys deadlines c Unit
  expireat_command d k n seconds = expire_generic d k n (pos 0) seconds

  abbrev pub ttl_found : ℕ → Text → Bool → Option Robj → Step keys deadlines c Unit
  ttl_found d k output_ms none = add_reply keys deadlines c (integer (negsuc 1))
  ttl_found d k output_ms (some v) = do
    expire ← get_expire keys deadlines c d k
    if eqb_ℤ expire minus_one then add_reply keys deadlines c (integer minus_one) else (do
      now ← mstime keys deadlines c
      add_reply keys deadlines c (ttl_reply expire now output_ms))

  -- `ttlGenericCommand`
  unfoldable pub ttl_generic : ℕ → Text → Bool → Step keys deadlines c Unit
  ttl_generic d k output_ms = do o ← lookup_key_read keys deadlines c d k; ttl_found d k output_ms o

  abbrev pub persist_found : ℕ → Text → Option Robj → Step keys deadlines c Unit
  persist_found d k none = add_reply keys deadlines c czero
  persist_found d k (some v) = do
    removed ← remove_expire keys deadlines c d k
    if removed
        then (do add_reply keys deadlines c cone; make_dirty keys deadlines c)
        else add_reply keys deadlines c czero

  -- `persistCommand`
  unfoldable pub persist_command : ℕ → Text → Step keys deadlines c Unit
  persist_command d k = do o ← find_key keys deadlines c d k; persist_found d k o

  -- The test of `setGenericCommand` for NX and XX.
  abbrev pub nx_refuses : ℕ → Text → Bool → Step keys deadlines c Bool
  nx_refuses d k nx =
      if nx
      then (do o ← lookup_key_write keys deadlines c d k; pure (not (is_none o)))
      else pure false

  abbrev pub xx_refuses : ℕ → Text → Bool → Step keys deadlines c Bool
  xx_refuses d k xx =
      if xx then (do o ← lookup_key_write keys deadlines c d k; pure (is_none o)) else pure false

  abbrev pub refuses : ℕ → Text → Bool → Bool → Step keys deadlines c Bool
  refuses d k nx xx = do there ← nx_refuses d k nx; if there then pure true else xx_refuses d k xx

  -- `if (expire) setExpire(c->db,key,mstime()+milliseconds)`
  abbrev pub set_timeout : ℕ → Text → Option ℤ → Step keys deadlines c Unit
  set_timeout d k none = pure tt
  set_timeout d k (some milliseconds) = do
    now ← mstime keys deadlines c
    set_expire keys deadlines c d k (to_int64 (now +ℤ milliseconds))

  -- `setGenericCommand` behind its tests.
  abbrev pub set_value : ℕ → Text → Robj → Option ℤ → Reply → Step keys deadlines c Unit
  set_value d k v timeout ok_reply = do
    set_key keys deadlines c d k v
    make_dirty keys deadlines c
    set_timeout d k timeout
    notify keys deadlines c notify_string (codes "set") k d
    if is_none timeout then pure tt else notify keys deadlines c notify_generic (codes "expire") k d
    add_reply keys deadlines c ok_reply

  abbrev pub set_checked :
      ℕ → Text → Robj → Option ℤ → Bool → Bool → Reply → Reply → Step keys deadlines c Unit
  set_checked d k v timeout nx xx ok_reply abort_reply = do
    refused ← refuses d k nx xx
    if refused then add_reply keys deadlines c abort_reply else set_value d k v timeout ok_reply

  -- `setGenericCommand`: no expire argument, one that is not an integer, and one that is.
  unfoldable pub set_generic :
      ℕ
      → Text
      → Robj
      → Option (Option ℤ)
      → Bool
      → Bool
      → Bool
      → Reply
      → Reply
      → Step keys deadlines c Unit
  set_generic d k v none seconds nx xx ok_reply abort_reply =
      set_checked d k v none nx xx ok_reply abort_reply
  set_generic d k v (some none) seconds nx xx ok_reply abort_reply =
      add_reply keys deadlines c not_an_integer
  set_generic d k v (some (some n)) seconds nx xx ok_reply abort_reply =
      if not (ltb_ℤ (pos 0) n)
      then add_reply keys deadlines c invalid_expire
      else let milliseconds = if seconds then to_int64 (n *ℤ pos 1000) else n in
        set_checked d k v (some milliseconds) nx xx ok_reply abort_reply

  -- `setnxCommand`, `setexCommand` and `psetexCommand`
  abbrev pub setnx_command : ℕ → Text → Robj → Step keys deadlines c Unit
  setnx_command d k v = set_generic d k v none false true false cone czero

  abbrev pub setex_command : ℕ → Text → Robj → Option ℤ → Bool → Step keys deadlines c Unit
  setex_command d k v n seconds = set_generic d k v (some n) seconds false false ok nullbulk
