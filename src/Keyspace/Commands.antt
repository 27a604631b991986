-- ===== src/Keyspace/Commands.antt =====
-- db.c and t_string.c: the commands on keys of any type, on deadlines, and SET. A command gets the
-- number of the client's database and its arguments; a number among them is the result of
-- `getLongLongFromObject`, `none` for a text that is not one.
use redis_allocators.Prelude.{
  ℕ, ◌+◌, ◌-◌, ◌/◌, ◌%◌, ◌^◌, Bool, not, ◌&&◌, Option, none, some, List, [], ◌∷◌, ltb, ◌==◌,
  if◌then◌else◌,
}
use redis_allocators.Prelude.Int.{ℤ, pos, negsuc, pos_part, neg_part, eqb_ℤ, ◌-ℤ◌}
use redis_allocators.Util.{codes}
use redis_allocators.Dict.Update.{is_none}
use redis_allocators.Keyspace.Interface.{Text, same_text, Dictionary}
use redis_allocators.Keyspace.Steps.{pure, ◌>>=◌, ◌>>◌}
use redis_allocators.Keyspace.State.{
  Robj, Reply, ok, czero, cone, nokeyerr, sameobjecterr, outofrangeerr, integer, notified, replied,
  notify_generic, minus_one, Setting,
}
use redis_allocators.Keyspace.{
  Step, tell, make_dirty, signal_modified_key, get_expire, db_delete, expire_if_needed,
  lookup_key_write, db_add, db_exists, set_expire,
}

-- A `long long`, with the wrap-around of the machine.
unfoldable pub to_int64 : ℤ → ℤ
to_int64 z =
    let u = (pos_part z % 2 ^ 64 + (2 ^ 64 - neg_part z % 2 ^ 64)) % 2 ^ 64 in
    if ltb u (2 ^ 63) then pos u else negsuc (2 ^ 64 - 1 - u)

-- `selectDb` for the number of a database; `none` for `REDIS_ERR`.
abbrev pub select_db : Setting → Option ℤ → Option ℕ
select_db c none = none
select_db c (some (negsuc n)) = none
select_db c (some (pos n)) = if ltb n c.dbnum then some n else none

-- The reply of `ttlGenericCommand` for a deadline, with `ttl < 0` set to 0.
abbrev pub ttl_reply : ℤ → ℤ → Bool → Reply
ttl_reply expire now output_ms =
    let ttl = pos_part (to_int64 (expire -ℤ now)) in
    integer (pos (if output_ms then ttl else (ttl + 500) / 1000))

module _ {D E : Type 0} (keys : Dictionary D Robj) (deadlines : Dictionary E ℤ) (c : Setting) where
  abbrev pub add_reply : Reply → Step keys deadlines c Unit
  add_reply r = tell keys deadlines c (replied r)

  abbrev pub notify : ℕ → Text → Text → ℕ → Step keys deadlines c Unit
  notify flags name k d = tell keys deadlines c (notified flags name k d)

  -- The loop of `delCommand`.
  unfoldable pub del_each : ℕ → List Text → ℕ → Step keys deadlines c ℕ
  del_each d [] deleted = pure deleted
  del_each d (k ∷ ks) deleted = do
    _ ← expire_if_needed keys deadlines c d k
    there ← db_delete keys deadlines c d k
    if there
        then (signal_modified_key keys deadlines c d k
            >> (notify notify_generic (codes "del") k d
                >> (make_dirty keys deadlines c >> del_each d ks (deleted + 1))))
        else del_each d ks deleted

  -- `delCommand`
  unfoldable pub del_command : ℕ → List Text → Step keys deadlines c Unit
  del_command d ks = do deleted ← del_each d ks 0; add_reply (integer (pos deleted))

  -- `existsCommand`
  unfoldable pub exists_command : ℕ → Text → Step keys deadlines c Unit
  exists_command d k = do
    _ ← expire_if_needed keys deadlines c d k
    there ← db_exists keys deadlines c d k
    add_reply (if there then cone else czero)

  -- The end of `renameGenericCommand`, for the value under the first key.
  abbrev pub rename_value :
      ℕ → Text → Text → Robj → ℤ → Bool → Option Robj → Step keys deadlines c Unit
  rename_value d k k' v expire nx old = if nx && not (is_none old) then add_reply czero else do
    if is_none old then pure tt else (do _ ← db_delete keys deadlines c d k'; pure tt)
    db_add keys deadlines c d k' v
    if eqb_ℤ expire minus_one then pure tt else set_expire keys deadlines c d k' expire
    _ ← db_delete keys deadlines c d k
    signal_modified_key keys deadlines c d k
    signal_modified_key keys deadlines c d k'
    notify notify_generic (codes "rename_from") k d
    notify notify_generic (codes "rename_to") k' d
    make_dirty keys deadlines c
    add_reply (if nx then cone else ok)

  abbrev pub rename_found : ℕ → Text → Text → Bool → Option Robj → Step keys deadlines c Unit
  rename_found d k k' nx none = add_reply nokeyerr
  rename_found d k k' nx (some v) = do
    expire ← get_expire keys deadlines c d k
    old ← lookup_key_write keys deadlines c d k'
    rename_value d k k' v expire nx old

  -- `renameGenericCommand`
  unfoldable pub rename_generic : ℕ → Text → Text → Bool → Step keys deadlines c Unit
  rename_generic d k k' nx =
      if same_text k k'
      then add_reply sameobjecterr
      else (do o ← lookup_key_write keys deadlines c d k; rename_found d k k' nx o)

  -- `moveCommand` behind its two lookups.
  abbrev pub move_value : ℕ → ℕ → Text → Robj → Option Robj → Step keys deadlines c Unit
  move_value d d' k v (some old) = add_reply czero
  move_value d d' k v none = do
    db_add keys deadlines c d' k v
    _ ← db_delete keys deadlines c d k
    make_dirty keys deadlines c
    add_reply cone

  abbrev pub move_found : ℕ → ℕ → Text → Option Robj → Step keys deadlines c Unit
  move_found d d' k none = add_reply czero
  move_found d d' k (some v) = do
    old ← lookup_key_write keys deadlines c d' k
    move_value d d' k v old

  abbrev pub move_to : ℕ → Text → Option ℕ → Step keys deadlines c Unit
  move_to d k none = add_reply outofrangeerr
  move_to d k (some d') =
      if d == d'
      then add_reply sameobjecterr
      else (do o ← lookup_key_write keys deadlines c d k; move_found d d' k o)

  -- `moveCommand`
  unfoldable pub move_command : ℕ → Text → Option ℤ → Step keys deadlines c Unit
  move_command d k dbid = move_to d k (select_db c dbid)
