-- ===== src/Multi.antt =====
-- multi.c: MULTI, EXEC, DISCARD, WATCH and UNWATCH.
pub mod Exec
pub mod Process
pub mod Valid
pub mod Clean
pub mod Trace
pub mod Abort
pub mod Run
pub mod Reach
pub mod Safe
pub mod Guards
use redis_allocators.Prelude.{
  ℕ, zero, suc, ◌+◌, ◌≡◌, Bool, true, false, not, ◌&&◌, ◌||◌, Option, none, some, List, [], ◌∷◌,
  ◌++◌, ◌==◌, if◌then◌else◌, length,
}
use redis_allocators.Prelude.Eq.{Eq, nat_eq, list_eq, pair_eq, count, remove_first}
use redis_allocators.Listeners.{Table, join, leave, list_or_nil}

-- `watchedKey`: the number of the database and the bytes of the key.
abbrev pub Key : Type 0
Key = ℕ × List ℕ

-- The part of `redisClient` that multi.c uses, with the flags `REDIS_MULTI`, `REDIS_DIRTY_CAS` and
-- `REDIS_DIRTY_EXEC`; `commands` is the queue of `mstate`, and `count` its length.
pub record Client (Cmd : Type 0) : Type 0 where
  pub db : ℕ
  pub multi : Bool
  pub dirty_cas : Bool
  pub dirty_exec : Bool
  pub commands : List Cmd
  pub watched_keys : List Key

pub data Reply (R : Type 0) : Type 0 where
  ok queued null_bulk exec_abort : Reply R
  multi_nested without_multi watch_inside_multi : Reply R
  bulk_len : ℕ → Reply R
  answer : R → Reply R

-- `redisServer`: the keyspace is what the commands work on, `watched_keys` has the tables of all
-- databases, `dirty` counts changes, and `multis` how often MULTI has been propagated.
pub record Server (D Cmd R : Type 0) : Type 0 where
  pub keyspace : D
  pub client : ℕ → Client Cmd
  pub clients : List ℕ
  pub watched_keys : Table Key
  pub sent : List (ℕ × Reply R)
  pub dirty : ℕ
  pub multis : ℕ

-- The databases that a flush empties.
abbrev pub is_flushed : Option ℕ → Key → Bool
is_flushed none k = true
is_flushed (some n) k = k.0 == n

module _ {D Cmd R : Type 0} where
  abbrev pub put_client : Server D Cmd R → ℕ → Client Cmd → Server D Cmd R
  put_client s c x = record s { client = λ d. if d == c then x else s.client d }

  abbrev pub add_reply : Server D Cmd R → ℕ → Reply R → Server D Cmd R
  add_reply s c r = record s { sent = s.sent ++ ((c, r) ∷ []) }

  -- `queueMultiCommand`
  unfoldable pub queue_multi_command : Server D Cmd R → ℕ → Cmd → Server D Cmd R
  queue_multi_command s c cmd =
      let x = s.client c in put_client s c (record x { commands = x.commands ++ (cmd ∷ []) })

  -- `watchForKey`
  unfoldable pub watch_for_key : Server D Cmd R → ℕ → List ℕ → Server D Cmd R
  watch_for_key s c key =
      let x = s.client c in
      let k : Key = (x.db, key) in
      if count k x.watched_keys == 0
      then record (put_client s c (record x { watched_keys = x.watched_keys ++ (k ∷ []) })) {
        watched_keys = join s.watched_keys k c;
      }
      else s

  -- The loop of `unwatchAllKeys`: each round takes the client out of the list of its first key.
  unfoldable pub unwatch_each : Server D Cmd R → ℕ → List Key → Server D Cmd R
  unwatch_each s c [] = s
  unwatch_each s c (k ∷ rest) =
      unwatch_each
        (record (put_client s c
          (record (s.client c) { watched_keys = remove_first k (s.client c).watched_keys })) {
            watched_keys = leave s.watched_keys k c;
          })
        c rest

  unfoldable pub unwatch_all_keys : Server D Cmd R → ℕ → Server D Cmd R
  unwatch_all_keys s c = unwatch_each s c (s.client c).watched_keys

  -- `discardTransaction`
  unfoldable pub discard_transaction : Server D Cmd R → ℕ → Server D Cmd R
  discard_transaction s c =
      unwatch_all_keys
        (put_client s c (record (s.client c) {
          commands = [];
          multi = false;
          dirty_cas = false;
          dirty_exec = false;
        }))
        c

  -- `flagTransaction`
  unfoldable pub flag_transaction : Server D Cmd R → ℕ → Server D Cmd R
  flag_transaction s c =
      if (s.client c).multi then put_client s c (record (s.client c) { dirty_exec = true }) else s

  unfoldable pub multi_command : Server D Cmd R → ℕ → Server D Cmd R
  multi_command s c =
      if (s.client c).multi
      then add_reply s c multi_nested
      else add_reply (put_client s c (record (s.client c) { multi = true })) c ok

  unfoldable pub discard_command : Server D Cmd R → ℕ → Server D Cmd R
  discard_command s c =
      if (s.client c).multi
      then add_reply (discard_transaction s c) c ok
      else add_reply s c without_multi

  unfoldable pub watch_each : Server D Cmd R → ℕ → List (List ℕ) → Server D Cmd R
  watch_each s c [] = s
  watch_each s c (key ∷ rest) = watch_each (watch_for_key s c key) c rest

  unfoldable pub watch_command : Server D Cmd R → ℕ → List (List ℕ) → Server D Cmd R
  watch_command s c keys =
      if (s.client c).multi
      then add_reply s c watch_inside_multi
      else add_reply (watch_each s c keys) c ok

  unfoldable pub unwatch_command : Server D Cmd R → ℕ → Server D Cmd R
  unwatch_command s c =
      let s' = unwatch_all_keys s c in
      add_reply (put_client s' c (record (s'.client c) { dirty_cas = false })) c ok

  -- The mark that EXEC looks for.
  abbrev pub mark : Server D Cmd R → ℕ → Server D Cmd R
  mark s c = put_client s c (record (s.client c) { dirty_cas = true })

  unfoldable pub mark_each : Server D Cmd R → List ℕ → Server D Cmd R
  mark_each s [] = s
  mark_each s (c ∷ rest) = mark_each (mark s c) rest

  -- `touchWatchedKey`, which `signalModifiedKey` calls.
  unfoldable pub touch_watched_key : Server D Cmd R → Key → Server D Cmd R
  touch_watched_key s k = mark_each s (list_or_nil (s.watched_keys k))

  -- The inner loop of `touchWatchedKeysOnFlush`, over one client's keys; `exists` is the lookup in
  -- the keyspace, and `dbid` is `none` for FLUSHALL.
  abbrev pub flush_key : (Key → Bool) → Option ℕ → Server D Cmd R → ℕ → Key → Server D Cmd R
  flush_key exists dbid s c k = if is_flushed dbid k && exists k then mark s c else s

  unfoldable pub flush_keys :
      (Key → Bool) → Option ℕ → Server D Cmd R → ℕ → List Key → Server D Cmd R
  flush_keys exists dbid s c [] = s
  flush_keys exists dbid s c (k ∷ rest) =
      flush_keys exists dbid (flush_key exists dbid s c k) c rest

  unfoldable pub flush_clients : (Key → Bool) → Option ℕ → Server D Cmd R → List ℕ → Server D Cmd R
  flush_clients exists dbid s [] = s
  flush_clients exists dbid s (c ∷ rest) =
      flush_clients exists dbid (flush_keys exists dbid s c (s.client c).watched_keys) rest

  -- `touchWatchedKeysOnFlush`
  unfoldable pub touch_watched_keys_on_flush :
      (Key → Bool) → Option ℕ → Server D Cmd R → Server D Cmd R
  touch_watched_keys_on_flush exists dbid s = flush_clients exists dbid s s.clients
