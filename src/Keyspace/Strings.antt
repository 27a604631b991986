-- ===== src/Keyspace/Strings.antt =====
-- t_string.c: GET, GETSET, MGET and MSET.
use redis_allocators.Prelude.{
  ℕ, ◌+◌, Bool, true, false, not, Option, none, some, List, [], ◌∷◌, ◌==◌, if◌then◌else◌, length,
}
use redis_allocators.Prelude.Int.{ℤ}
use redis_allocators.Util.{codes}
use redis_allocators.Dict.Update.{is_none}
use redis_allocators.Keyspace.Interface.{Text, Dictionary}
use redis_allocators.Keyspace.Steps.{pure, modify, ◌>>=◌, ◌>>◌}
use redis_allocators.Keyspace.Commands.{add_reply, notify}
use redis_allocators.Keyspace.State.{
  Robj, Reply, ok, czero, cone, nullbulk, wrongtypeerr, wrong_number, bulk, multi_bulk_len,
  notify_string, Setting,
}
use redis_allocators.Keyspace.{Step, make_dirty, lookup_key_read, lookup_key_write, set_key}

-- The reply of a round of `mgetCommand`.
abbrev pub mget_reply : Setting → Option Robj → Reply
mget_reply c none = nullbulk
mget_reply c (some v) = if not (c.is_string v) then nullbulk else bulk v

module _ {D E : Type 0} (keys : Dictionary D Robj) (deadlines : Dictionary E ℤ) (c : Setting) where
  -- True for `REDIS_OK`.
  abbrev pub get_found : Option Robj → Step keys deadlines c Bool
  get_found none = do add_reply keys deadlines c nullbulk; pure true
  get_found (some v) =
      if not (c.is_string v)
      then (do add_reply keys deadlines c wrongtypeerr; pure false)
      else (do add_reply keys deadlines c (bulk v); pure true)

  -- `getGenericCommand`
  unfoldable pub get_generic : ℕ → Text → Step keys deadlines c Bool
  get_generic d k = do o ← lookup_key_read keys deadlines c d k; get_found o

  -- `getCommand`
  unfoldable pub get_command : ℕ → Text → Step keys deadlines c Unit
  get_command d k = do _ ← get_generic d k; pure tt

  -- `getsetCommand`
  unfoldable pub getset_command : ℕ → Text → Robj → Step keys deadlines c Unit
  getset_command d k v = do
    done ← get_generic d k
    if not done then pure tt else (do
      set_key keys deadlines c d k v
      notify keys deadlines c notify_string (codes "set") k d
      make_dirty keys deadlines c)

  -- The loop of `mgetCommand`.
  unfoldable pub mget_each : ℕ → List Text → Step keys deadlines c Unit
  mget_each d [] = pure tt
  mget_each d (k ∷ ks) = do
    o ← lookup_key_read keys deadlines c d k
    add_reply keys deadlines c (mget_reply c o)
    mget_each d ks

  -- `mgetCommand`
  unfoldable pub mget_command : ℕ → List Text → Step keys deadlines c Unit
  mget_command d ks = do add_reply keys deadlines c (multi_bulk_len (length ks)); mget_each d ks

  -- The first loop of `msetGenericCommand`: `busykeys`.
  unfoldable pub busy_keys : ℕ → List (Text × Robj) → ℕ → Step keys deadlines c ℕ
  busy_keys d [] n = pure n
  busy_keys d (e ∷ l) n = do
    o ← lookup_key_write keys deadlines c d e.0
    busy_keys d l (if is_none o then n else n + 1)

  -- The second loop.
  unfoldable pub mset_each : ℕ → List (Text × Robj) → Step keys deadlines c Unit
  mset_each d [] = pure tt
  mset_each d (e ∷ l) = do
    set_key keys deadlines c d e.0 e.1
    notify keys deadlines c notify_string (codes "set") e.0 d
    mset_each d l

  abbrev pub mset_unless : ℕ → List (Text × Robj) → Bool → ℕ → Step keys deadlines c Unit
  mset_unless d l nx busy = if not (busy == 0) then add_reply keys deadlines c czero else do
    mset_each d l
    modify (λ s. record s { dirty = s.dirty + length l })
    add_reply keys deadlines c (if nx then cone else ok)

  -- `msetGenericCommand`; `dangling` tells that the last key has no value.
  unfoldable pub mset_generic :
      ℕ → List (Text × Robj) → (dangling nx : Bool) → Step keys deadlines c Unit
  mset_generic d l dangling nx =
      if dangling
      then add_reply keys deadlines c wrong_number
      else do busy ← if nx then busy_keys d l 0 else pure 0; mset_unless d l nx busy
