-- ===== src/Multi/Exec.antt =====
-- `execCommand`: the queued commands run one after the other, or not at all.
use redis_allocators.Prelude.{
  ℕ, ◌+◌, Bool, false, not, ◌&&◌, ◌||◌, List, [], ◌∷◌, if◌then◌else◌, length,
}
use redis_allocators.Multi.{
  Key, Server, exec_abort, null_bulk, without_multi, bulk_len, answer, put_client, add_reply,
  discard_transaction, unwatch_all_keys, touch_watched_key,
}

-- What the function of a command does: to the keyspace, to the client's database, to `server.dirty`,
-- which keys it reports to `signalModifiedKey`, and its reply.
pub record Outcome (D R : Type 0) : Type 0 where
  pub keyspace : D
  pub db : ℕ
  pub changes : ℕ
  pub touched : List Key
  pub reply : R

-- The command table: the function of a command, and its flag `REDIS_CMD_READONLY`.
pub record Commands (D Cmd R : Type 0) : Type 0 where
  pub proc : Cmd → ℕ → D → Outcome D R
  pub readonly : Cmd → Bool

module _ {D Cmd R : Type 0} where
  unfoldable pub touch_each : Server D Cmd R → List Key → Server D Cmd R
  touch_each s [] = s
  touch_each s (k ∷ rest) = touch_each (touch_watched_key s k) rest

module _ {D Cmd R : Type 0} (table : Commands D Cmd R) where
  -- The state after the function of a command, before its keys are reported.
  unfoldable pub run_proc : Server D Cmd R → ℕ → Cmd → Server D Cmd R
  run_proc s c cmd =
      let o = table.proc cmd (s.client c).db s.keyspace in
      record (put_client s c (record (s.client c) { db = o.db })) {
        keyspace = o.keyspace;
        dirty = s.dirty + o.changes;
      }

  -- `call`
  unfoldable pub call : Server D Cmd R → ℕ → Cmd → Server D Cmd R
  call s c cmd =
      let o = table.proc cmd (s.client c).db s.keyspace in
      add_reply (touch_each (run_proc s c cmd) o.touched) c (answer o.reply)

  -- `execCommandPropagateMulti` before the first command that writes.
  abbrev pub announce : Server D Cmd R → Cmd → Bool → Server D Cmd R
  announce s cmd must_propagate = record s {
    multis = s.multis + (if not must_propagate && not (table.readonly cmd) then 1 else 0);
  }

  -- The loop of `execCommand`, with `must_propagate`.
  unfoldable pub exec_each : Server D Cmd R → ℕ → List Cmd → Bool → Server D Cmd R × Bool
  exec_each s c [] must_propagate = (s, must_propagate)
  exec_each s c (cmd ∷ rest) must_propagate =
      exec_each (call (announce s cmd must_propagate) c cmd) c rest
        (must_propagate || not (table.readonly cmd))

  -- `execCommand`; monitors are left out.
  unfoldable pub exec_command : Server D Cmd R → ℕ → Server D Cmd R
  exec_command s c =
      let x = s.client c in
      if not x.multi
      then add_reply s c without_multi
      else if x.dirty_cas || x.dirty_exec
      then discard_transaction (add_reply s c (if x.dirty_exec then exec_abort else null_bulk)) c
      else let (s₁, must_propagate) =
          exec_each (add_reply (unwatch_all_keys s c) c (bulk_len (length x.commands))) c x.commands
            false in
        let s₂ = discard_transaction s₁ c in
        record s₂ { dirty = s₂.dirty + (if must_propagate then 1 else 0) }
