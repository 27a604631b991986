-- ===== src/Multi/Process.antt =====
-- redis.c: `processCommand`, the guards before a command is queued or called.
use redis_allocators.Prelude.{
  ℕ, suc, Bool, true, false, not, ◌&&◌, ◌||◌, Option, none, some, ◌==◌, ltb, if◌then◌else◌,
}
use redis_allocators.Prelude.Int.{ℤ, pos, negsuc}

-- The command functions that `processCommand` names.
pub data Proc : Type 0 where
  auth ping exec discard multi watch subscribe unsubscribe psubscribe punsubscribe : Proc
  replconf shutdown script other : Proc

-- `redisCommand`; a negative arity is a least number of arguments. The flags are `REDIS_CMD_WRITE`,
-- `REDIS_CMD_DENYOOM`, `REDIS_CMD_STALE` and `REDIS_CMD_LOADING`.
pub record Command : Type 0 where
  pub proc : Proc
  pub arity : ℤ
  pub write : Bool
  pub denyoom : Bool
  pub stale : Bool
  pub loading : Bool

-- `argc`, whether the name is "quit", what `lookupCommand` finds, and the lower case of the first
-- byte of the second argument.
pub record Request : Type 0 where
  pub quit : Bool
  pub cmd : Option Command
  pub argc : ℕ
  pub initial : ℕ

-- The flags of the client.
pub record Flags : Type 0 where
  pub authenticated : Bool
  pub multi : Bool
  pub pubsub : Bool
  pub master : Bool

-- The state of the server that the guards read. `out_of_memory` is the answer of
-- `freeMemoryIfNeeded`, and `good_slaves` is `repl_good_slaves_count`.
pub record Config : Type 0 where
  pub requirepass : Bool
  pub maxmemory : Bool
  pub out_of_memory : Bool
  pub stop_writes_on_bgsave_err : Bool
  pub saveparamslen : ℕ
  pub lastbgsave_err : Bool
  pub aof_last_write_err : Bool
  pub masterhost : Bool
  pub repl_min_slaves_to_write : ℕ
  pub repl_min_slaves_max_lag : ℕ
  pub good_slaves : ℕ
  pub repl_slave_ro : Bool
  pub repl_connected : Bool
  pub repl_serve_stale_data : Bool
  pub loading : Bool
  pub lua_timedout : Bool

pub data Rejection : Type 0 where
  unknown_command wrong_arity noauth oom bgsave aof_write : Rejection
  noreplicas roslave pubsub_context masterdown still_loading slow_script : Rejection

-- What `processCommand` does: it closes the client, refuses the command, and then flags the
-- transaction or not, queues it or calls it.
pub data Verdict : Type 0 where
  closes queues calls : Verdict
  refuses : Rejection → (flags : Bool) → Verdict

abbrev pub arity_fails : (arity : ℤ) (argc : ℕ) → Bool
arity_fails (pos n) argc = ltb 0 n && not (n == argc)
arity_fails (negsuc n) argc = ltb argc (suc n)

abbrev pub disk_problem : Config → Bool
disk_problem g =
    (g.stop_writes_on_bgsave_err && ltb 0 g.saveparamslen && g.lastbgsave_err)
    || g.aof_last_write_err

abbrev pub few_slaves : Config → Bool
few_slaves g =
    not g.masterhost
    && not (g.repl_min_slaves_to_write == 0)
    && not (g.repl_min_slaves_max_lag == 0)
    && ltb g.good_slaves g.repl_min_slaves_to_write

abbrev pub is_ping : Proc → Bool
is_ping Proc.ping = true
is_ping _ = false

abbrev pub is_auth : Proc → Bool
is_auth Proc.auth = true
is_auth _ = false

-- PING and the commands of a client that has subscribed.
abbrev pub in_pubsub : Proc → Bool
in_pubsub Proc.ping = true
in_pubsub Proc.subscribe = true
in_pubsub Proc.unsubscribe = true
in_pubsub Proc.psubscribe = true
in_pubsub Proc.punsubscribe = true
in_pubsub _ = false

-- The commands that a slow script lets through.
abbrev pub in_slow_script : Proc → Request → Bool
in_slow_script Proc.auth r = true
in_slow_script Proc.replconf r = true
in_slow_script Proc.shutdown r = r.argc == 2 && r.initial == b'n'
in_slow_script Proc.script r = r.argc == 2 && r.initial == b'k'
in_slow_script _ r = false

-- The commands that are called inside MULTI.
abbrev pub not_queued : Proc → Bool
not_queued Proc.exec = true
not_queued Proc.discard = true
not_queued Proc.multi = true
not_queued Proc.watch = true
not_queued _ = false

-- `processCommand` behind the lookup.
unfoldable pub judge : Config → Flags → Request → Command → Verdict
judge g f r cmd =
    if arity_fails cmd.arity r.argc
    then refuses wrong_arity true
    else if g.requirepass && not f.authenticated && not (is_auth cmd.proc)
    then refuses noauth true
    else if g.maxmemory && cmd.denyoom && g.out_of_memory
    then refuses oom true
    else if disk_problem g && not g.masterhost && (cmd.write || is_ping cmd.proc)
    then refuses (if g.aof_last_write_err then aof_write else bgsave) true
    else if few_slaves g && cmd.write
    then refuses noreplicas true
    else if g.masterhost && g.repl_slave_ro && not f.master && cmd.write
    then refuses roslave false
    else if f.pubsub && not (in_pubsub cmd.proc)
    then refuses pubsub_context false
    else if g.masterhost && not g.repl_connected && not g.repl_serve_stale_data && not cmd.stale
    then refuses masterdown true
    else if g.loading && not cmd.loading
    then refuses still_loading false
    else if g.lua_timedout && not (in_slow_script cmd.proc r)
    then refuses slow_script true
    else if f.multi && not (not_queued cmd.proc)
    then queues
    else calls

-- `processCommand`
unfoldable pub process_command : Config → Flags → Request → Verdict
process_command g f r =
    if r.quit
    then closes
    else elim r.cmd [ none ↦ refuses unknown_command true | some cmd ↦ judge g f r cmd ]
