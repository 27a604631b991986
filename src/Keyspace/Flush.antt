-- ===== src/Keyspace/Flush.antt =====
-- db.c: FLUSHDB and FLUSHALL. The counter `dirty` is a `long long`, here the number of its 64 bits,
-- which changes do not fill.
use redis_allocators.Prelude.{ℕ, zero, suc, ◌+◌, Bool, none, some, if◌then◌else◌}
use redis_allocators.Prelude.Int.{ℤ, to_int}
use redis_allocators.Rdb.{word64}
use redis_allocators.Keyspace.Interface.{Dictionary}
use redis_allocators.Keyspace.Steps.{pure, gets, modify, ◌>>=◌, ◌>>◌}
use redis_allocators.Keyspace.Commands.{add_reply}
use redis_allocators.Keyspace.State.{
  Robj, ok, flushed, child_killed, rdb_saved, Setting, put_dict, put_expires,
}
use redis_allocators.Keyspace.{Step, tell, make_dirty}

-- `rdb_child_pid != -1`, `saveparamslen > 0`, and whether `rdbSave` returns `REDIS_OK`.
pub record Saving : Type 0 where
  pub rdb_child : Bool
  pub save_points : Bool
  pub saves : Bool

module _ {D E : Type 0} (keys : Dictionary D Robj) (deadlines : Dictionary E ℤ) (c : Setting) where
  abbrev pub add_dirty : ℕ → Step keys deadlines c Unit
  add_dirty n = modify (λ s. record s { dirty = s.dirty + n })

  -- `dictEmpty` of both dictionaries.
  unfoldable pub empty_dicts : ℕ → Step keys deadlines c Unit
  empty_dicts d = do
    modify (λ s. put_dict s d (keys.empty (s.db d).dict))
    modify (λ s. put_expires s d (deadlines.empty (s.db d).expires))

  -- `flushdbCommand`
  unfoldable pub flushdb_command : ℕ → Step keys deadlines c Unit
  flushdb_command d = do
    size ← gets (λ s. keys.size (s.db d).dict)
    add_dirty size
    tell keys deadlines c (flushed (some d))
    empty_dicts d
    add_reply keys deadlines c ok

  -- The loop of `emptyDb`, with `n` databases left.
  unfoldable pub empty_each : (n j removed : ℕ) → Step keys deadlines c ℕ
  empty_each zero j removed = pure removed
  empty_each (suc n) j removed = do
    size ← gets (λ s. keys.size (s.db j).dict)
    empty_dicts j
    empty_each n (j + 1) (removed + size)

  -- `emptyDb`
  abbrev pub empty_db : Step keys deadlines c ℕ
  empty_db = empty_each c.dbnum 0 0

  -- `rdbSave`, which resets `dirty`.
  abbrev pub rdb_save : Saving → Step keys deadlines c Unit
  rdb_save saving = do
    tell keys deadlines c rdb_saved
    modify (λ s. record s { dirty = if saving.saves then 0 else s.dirty })

  -- `int saved_dirty = server.dirty` cuts the counter to 32 bits; behind `rdbSave` they are extended by
  -- the sign.
  abbrev pub save_unchanged : Saving → Step keys deadlines c Unit
  save_unchanged saving = do
    saved_dirty ← gets (λ s. to_int s.dirty)
    rdb_save saving
    modify (λ s. record s { dirty = word64 saved_dirty })

  -- `flushallCommand` behind `signalFlushedDb`.
  abbrev pub flush_rest : Saving → Step keys deadlines c Unit
  flush_rest saving = do
    removed ← empty_db
    add_dirty removed
    add_reply keys deadlines c ok
    if saving.rdb_child then tell keys deadlines c child_killed else pure tt
    if saving.save_points then save_unchanged saving else pure tt
    make_dirty keys deadlines c

  -- `flushallCommand`
  unfoldable pub flushall_command : Saving → Step keys deadlines c Unit
  flushall_command saving = do tell keys deadlines c (flushed none); flush_rest saving
