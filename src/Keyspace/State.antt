-- ===== src/Keyspace/State.antt =====
-- db.c: the state of the server that the keyspace works on, and what it is told.
use redis_allocators.Prelude.{ℕ, Bool, Option, List, ◌==◌, if◌then◌else◌}
use redis_allocators.Prelude.Int.{ℤ, negsuc}
use redis_allocators.Keyspace.Interface.{Text}

-- The `robj` of a value, by number.
abbrev pub Robj : Type 0
Robj = ℕ

pub data Reply : Type 0 where
  wrongtypeerr wrong_number ok czero cone nullbulk nokeyerr sameobjecterr outofrangeerr syntaxerr :
      Reply
  invalid_db_index invalid_expire not_an_integer would_overflow colon crlf : Reply
  integer : ℤ → Reply
  multi_bulk_len : ℕ → Reply
  bulk plain : Robj → Reply

-- What the functions tell the rest of the server: `feedAppendOnlyFile` and `replicationFeedSlaves`
-- with a DEL, `notifyKeyspaceEvent`, `signalModifiedKey`, `signalFlushedDb` (`none` for -1),
-- `signalListAsReady`, `rewriteClientCommandVector` with a DEL, the signal to
-- the child that saves, `rdbSave`, and `addReply`.
pub data Event : Type 0 where
  aof_del slaves_del : ℕ → Text → Event
  notified : (flags : ℕ) (name key : Text) (dbid : ℕ) → Event
  modified list_ready : ℕ → Text → Event
  flushed : Option ℕ → Event
  rewritten_del : Text → Event
  child_killed rdb_saved : Event
  replied : Reply → Event

abbrev pub notify_generic : ℕ
notify_generic = 4

abbrev pub notify_string : ℕ
notify_string = 8

abbrev pub notify_expired : ℕ
notify_expired = 256

-- `redisDb`, the fields for keys.
pub record Db (D E : Type 0) : Type 0 where
  pub dict : D
  pub expires : E

-- The fields of `redisServer` that the functions change. `lru` is the field of the objects, by their
-- number, `readings` counts the calls of `mstime`, and `events` is what the server has been told.
-- The counters have 64 bits, which are taken to be enough.
pub record Server (D E : Type 0) : Type 0 where
  pub db : ℕ → Db D E
  pub lru : Robj → ℕ
  pub stat_keyspace_hits : ℕ
  pub stat_keyspace_misses : ℕ
  pub stat_expiredkeys : ℕ
  pub dirty : ℕ
  pub readings : ℕ
  pub events : List Event

-- The fields of `redisServer` that the functions only read, the results of `mstime` in their order,
-- and which objects are lists and strings. A pointer is there or not; `aof_on` is
-- `aof_state != REDIS_AOF_OFF`, and `saving` tells that one of the two children runs.
pub record Setting : Type 0 where
  pub dict_can_resize : Bool
  pub loading : Bool
  pub masterhost : Bool
  pub lua_caller : Bool
  pub lua_time_start : ℤ
  pub aof_on : Bool
  pub saving : Bool
  pub lruclock : ℕ
  pub dbnum : ℕ
  pub mstime : ℕ → ℤ
  pub is_list : Robj → Bool
  pub is_string : Robj → Bool

abbrev pub minus_one : ℤ
minus_one = negsuc 0

module _ {D E : Type 0} where
  abbrev pub put_db : Server D E → ℕ → Db D E → Server D E
  put_db s d x = record s { db = λ i. if i == d then x else s.db i }

  abbrev pub put_dict : Server D E → ℕ → D → Server D E
  put_dict s d t = put_db s d (record (s.db d) { dict = t })

  abbrev pub put_expires : Server D E → ℕ → E → Server D E
  put_expires s d t = put_db s d (record (s.db d) { expires = t })
