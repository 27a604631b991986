-- ===== src/Keyspace.antt =====
-- db.c: databases of keys that expire.
pub mod State
pub mod Interface
pub mod Tables
pub mod Steps
pub mod Spec
pub mod Shows
pub mod Yields
pub mod Calls
pub mod Signals
pub mod Expiry
pub mod Deadlines
pub mod Refine
pub mod Commands
pub mod Timed
pub mod Described
pub mod Moves
pub mod Removals
pub mod Times
pub mod Sets
pub mod Strings
pub mod Texts
pub mod Multiples
pub mod Numbers
pub mod Overflow
pub mod Increments
pub mod Sums
pub mod Options
pub mod Spelled
pub mod Flush
pub mod Emptied
pub mod Flushed
pub mod Session
pub mod Fresh
pub mod Gone
use redis_allocators.Prelude.{
  ℕ, ◌+◌, ◌≡◌, Bool, true, false, not, ◌||◌, Option, none, some, List, [], ◌∷◌, ◌++◌, ltb, ◌==◌,
  if◌then◌else◌,
}
use redis_allocators.Prelude.Int.{ℤ, pos, negsuc, ltb_ℤ}
use redis_allocators.Util.{codes}
use redis_allocators.Dict.Update.{is_none}
use Interface.{Text, Dictionary}
use Steps.{Exec, pure, gets, call, modify, assert, ◌>>=◌, ◌>>◌}
use State.{
  Robj, Event, notified, notify_expired, Server, Setting, minus_one, put_dict, put_expires, aof_del,
  slaves_del, modified, list_ready,
}

module _ {D E : Type 0} (keys : Dictionary D Robj) (deadlines : Dictionary E ℤ) (c : Setting) where
  abbrev pub Step : Type 0 → Type 0
  Step A = Exec (Server D E) A

  -- The calls of dict.c on `db->dict` and `db->expires`.
  unfoldable pub find_key : ℕ → Text → Step (Option Robj)
  find_key d k = call (λ s. let (t, o) = keys.find (s.db d).dict k in (o, put_dict s d t))

  unfoldable pub find_deadline : ℕ → Text → Step (Option ℤ)
  find_deadline d k =
      call (λ s. let (t, o) = deadlines.find (s.db d).expires k in (o, put_expires s d t))

  unfoldable pub add_key : ℕ → Text → Robj → Step Bool
  add_key d k v = call (λ s.
      let (t, added) = keys.add c.dict_can_resize (s.db d).dict k v in (added, put_dict s d t))

  unfoldable pub replace_key : ℕ → Text → Robj → Step Unit
  replace_key d k v = modify (λ s. put_dict s d (keys.replace c.dict_can_resize (s.db d).dict k v))

  unfoldable pub delete_key : ℕ → Text → Step Bool
  delete_key d k =
      call (λ s. let (t, deleted) = keys.delete (s.db d).dict k in (deleted, put_dict s d t))

  unfoldable pub replace_deadline : ℕ → Text → ℤ → Step Unit
  replace_deadline d k when =
      modify
        (λ s. put_expires s d (deadlines.replace_raw c.dict_can_resize (s.db d).expires k when))

  unfoldable pub delete_deadline : ℕ → Text → Step Bool
  delete_deadline d k =
      call (λ s.
        let (t, deleted) = deadlines.delete (s.db d).expires k in (deleted, put_expires s d t))

  unfoldable pub tell : Event → Step Unit
  tell e = modify (λ s. record s { events = s.events ++ (e ∷ []) })

  unfoldable pub make_dirty : Step Unit
  make_dirty = modify (λ s. record s { dirty = s.dirty + 1 })

  -- `mstime`
  unfoldable pub mstime : Step ℤ
  mstime = call (λ s. (c.mstime s.readings, record s { readings = s.readings + 1 }))

  -- `signalModifiedKey`
  abbrev pub signal_modified_key : ℕ → Text → Step Unit
  signal_modified_key d k = tell (modified d k)

  -- The access time of an object that has been found.
  unfoldable pub touch : Option Robj → Step Unit
  touch none = pure tt
  touch (some v) =
      modify (λ s.
        if c.saving then s else record s { lru = λ o. if o == v then c.lruclock else s.lru o })

  -- `lookupKey`
  unfoldable pub lookup_key : ℕ → Text → Step (Option Robj)
  lookup_key d k = do o ← find_key d k; touch o; pure o

  -- The deadline that has been found, with the assertion.
  abbrev pub checked_deadline : ℕ → Text → Option ℤ → Step ℤ
  checked_deadline d k none = pure minus_one
  checked_deadline d k (some when) = do o ← find_key d k; assert (not (is_none o)); pure when

  -- `getExpire`
  unfoldable pub get_expire : ℕ → Text → Step ℤ
  get_expire d k = do
    empty ← gets (λ s. deadlines.size (s.db d).expires == 0)
    if empty then pure minus_one else (do o ← find_deadline d k; checked_deadline d k o)

  -- `dbDelete`
  unfoldable pub db_delete : ℕ → Text → Step Bool
  db_delete d k = do
    empty ← gets (λ s. deadlines.size (s.db d).expires == 0)
    _ ← if empty then pure false else delete_deadline d k
    delete_key d k

  -- `propagateExpire`
  unfoldable pub propagate_expire : ℕ → Text → Step Unit
  propagate_expire d k = do if c.aof_on then tell (aof_del d k) else pure tt; tell (slaves_del d k)

  -- `now` in `expireIfNeeded`.
  abbrev pub expire_clock : Step ℤ
  expire_clock = if c.lua_caller then pure c.lua_time_start else mstime

  -- The end of `expireIfNeeded`, for an expired key.
  abbrev pub delete_expired : ℕ → Text → Step Bool
  delete_expired d k = do
    modify (λ s. record s { stat_expiredkeys = s.stat_expiredkeys + 1 })
    propagate_expire d k
    tell (notified notify_expired (codes "expired") k d)
    db_delete d k

  -- `expireIfNeeded` behind the clock.
  abbrev pub expire_by : ℕ → Text → ℤ → ℤ → Step Bool
  expire_by d k when now =
      if c.masterhost
      then pure (ltb_ℤ when now)
      else if not (ltb_ℤ when now)
      then pure false
      else delete_expired d k

  -- `expireIfNeeded` behind the deadline.
  abbrev pub expire_from : ℕ → Text → ℤ → Step Bool
  expire_from d k when =
      if ltb_ℤ when (pos 0) || c.loading
      then pure false
      else (do now ← expire_clock; expire_by d k when now)

  -- `expireIfNeeded`
  unfoldable pub expire_if_needed : ℕ → Text → Step Bool
  expire_if_needed d k = do when ← get_expire d k; expire_from d k when

  -- `lookupKeyRead`
  unfoldable pub lookup_key_read : ℕ → Text → Step (Option Robj)
  lookup_key_read d k = do
    _ ← expire_if_needed d k
    o ← lookup_key d k
    modify (λ s.
        if is_none o
        then record s { stat_keyspace_misses = s.stat_keyspace_misses + 1 }
        else record s { stat_keyspace_hits = s.stat_keyspace_hits + 1 })
    pure o

  -- `lookupKeyWrite`
  unfoldable pub lookup_key_write : ℕ → Text → Step (Option Robj)
  lookup_key_write d k = do _ ← expire_if_needed d k; lookup_key d k

  -- `dbAdd`
  unfoldable pub db_add : ℕ → Text → Robj → Step Unit
  db_add d k v = do
    added ← add_key d k v
    assert added
    if c.is_list v then tell (list_ready d k) else pure tt

  -- `dbOverwrite`
  unfoldable pub db_overwrite : ℕ → Text → Robj → Step Unit
  db_overwrite d k v = do o ← find_key d k; assert (not (is_none o)); replace_key d k v

  -- `dbExists`
  unfoldable pub db_exists : ℕ → Text → Step Bool
  db_exists d k = do o ← find_key d k; pure (not (is_none o))

  -- `removeExpire`
  unfoldable pub remove_expire : ℕ → Text → Step Bool
  remove_expire d k = do o ← find_key d k; assert (not (is_none o)); delete_deadline d k

  -- `setExpire`
  unfoldable pub set_expire : ℕ → Text → ℤ → Step Unit
  set_expire d k when = do o ← find_key d k; assert (not (is_none o)); replace_deadline d k when

  -- `setKey`
  unfoldable pub set_key : ℕ → Text → Robj → Step Unit
  set_key d k v = do
    o ← lookup_key_write d k
    if is_none o then db_add d k v else db_overwrite d k v
    _ ← remove_expire d k
    signal_modified_key d k
