-- ===== src/Tests/Multi.antt =====
-- multi.c: a store that holds one number, a transaction on it, and the theorems at them.
use redis_allocators.Prelude.{
  ℕ, ◌+◌, ◌↔◌, ◌≡◌, ◌≢◌, refl, Bool, ◌||◌, true, false, Option, none, some, [], ◌∷◌, arith, not, ap,
  sym, ◌∙◌,
}
use redis_allocators.Prelude.Int.{negsuc}
use redis_allocators.Prelude.Eq.{nat_eq, list_eq, pair_eq, count, remove_first}
use redis_allocators.Listeners.{join, leave}
use redis_allocators.Multi.{
  Key, Server, Client, ok, null_bulk, bulk_len, answer, multi_command, queue_multi_command,
  watch_for_key, watch_each, watch_command, touch_watched_key, mark_each, flag_transaction,
  discard_transaction, unwatch_all_keys, unwatch_each,
}
use redis_allocators.Multi.Exec.{Commands, touch_each, run_proc, call, exec_each, exec_command}
use redis_allocators.Multi.Valid.{IsValid}
use redis_allocators.Multi.Process.{
  Proc, Command, Request, Flags, Config, Verdict, refuses, roslave, judge, process_command,
}
use redis_allocators.Multi.Safe.{Among, at_once}
use redis_allocators.Multi.Guards.{
  IsAdmitted, is_forgiven, process_command-Accepts, process_command-IsFlagged,
}
use redis_allocators.Multi.Run.{RunsAll, exec_command-RunsAll}
use redis_allocators.Multi.Abort.{Aborts, calls, here, next, touched-Aborts, exec_command-Aborts}
use redis_allocators.Multi.Reach.{start, after, queues, multi, watch, reached-IsValid}

-- `some n` adds n, `none` reads.
abbrev table : Commands ℕ (Option ℕ) ℕ
table = record {
  proc = λ cmd db n. elim cmd [
    | none ↦ record { keyspace = n; db = db; changes = 0; touched = []; reply = n }
    | some m ↦ record {
      keyspace = n + m;
      db = db;
      changes = 1;
      touched = (db, []) ∷ [];
      reply = n + m;
    }
  ];
  readonly = λ cmd. elim cmd [ none ↦ true | some m ↦ false ];
}

abbrev Store : Type 0
Store = Server ℕ (Option ℕ) ℕ

abbrev idle : Store
idle = record {
  keyspace = 5;
  client = λ c. record {
    db = 0;
    multi = false;
    dirty_cas = false;
    dirty_exec = false;
    commands = [];
    watched_keys = [];
  };
  clients = 1 ∷ 2 ∷ [];
  watched_keys = λ k. none;
  sent = [];
  dirty = 0;
  multis = 0;
}

abbrev ready : Store
ready =
    queue_multi_command
      (queue_multi_command (multi_command (watch_command idle 1 ([] ∷ [])) 1) 1 (some 3)) 1 none

abbrev present : ℕ → Key → Bool
present n k = true

ran :
    (exec_command table ready 1).sent
    ≡ (1, ok) ∷ (1, ok) ∷ (1, bulk_len 2) ∷ (1, answer 8) ∷ (1, answer 8) ∷ []
unfolding queue_multi_command multi_command watch_command watch_each watch_for_key exec_command
    exec_each call run_proc touch_each touch_watched_key mark_each discard_transaction
    unwatch_all_keys unwatch_each count join leave remove_first
ran = refl

spoilt :
    (exec_command table (call table ready 2 (some 1)) 1).sent
    ≡ (1, ok) ∷ (1, ok) ∷ (2, answer 6) ∷ (1, null_bulk) ∷ []
unfolding queue_multi_command multi_command watch_command watch_each watch_for_key exec_command
    exec_each call run_proc touch_each touch_watched_key mark_each discard_transaction
    unwatch_all_keys unwatch_each count join leave remove_first
spoilt = refl

abbrev watching : Store
watching = watch_command idle 1 ([] ∷ [])

idle-IsValid : IsValid idle
unfolding count
idle-IsValid = record {
  agree = λ c t. refl;
  once = λ c t. omega arith;
  trim = λ t h. cc;
  idle = λ c e. (refl, refl);
}

reached-IsValid_example : IsValid (multi_command (watch_command idle 1 ([] ∷ [])) 1)
reached-IsValid_example = reached-IsValid table present idle _ idle-IsValid (
    after _ _ (after _ _ start (watch idle 1 ([] ∷ []))) (multi (watch_command idle 1 ([] ∷ [])) 1))

ready_client : ready.client 1 ≡ record {
  db = 0;
  multi = true;
  dirty_cas = false;
  dirty_exec = false;
  commands = some 3 ∷ none ∷ [];
  watched_keys = (0, []) ∷ [];
}
unfolding queue_multi_command multi_command watch_command watch_each watch_for_key count
ready_client = refl

exec_command-RunsAll_example : RunsAll table ready 1 (exec_command table ready 1)
exec_command-RunsAll_example =
    exec_command-RunsAll table ready 1 (rw ready_client refl) (rw ready_client refl)

flagged_client : ((flag_transaction ready 1).client 1).multi ≡ true
unfolding flag_transaction queue_multi_command multi_command watch_command watch_each watch_for_key
    count
flagged_client = refl

flagged_dirty : let x = (flag_transaction ready 1).client 1 in (x.dirty_cas || x.dirty_exec) ≡ true
unfolding flag_transaction queue_multi_command multi_command watch_command watch_each watch_for_key
    count
flagged_dirty = refl

exec_command-Aborts_example :
    Aborts table 1 (flag_transaction ready 1) (exec_command table (flag_transaction ready 1) 1)
exec_command-Aborts_example =
    exec_command-Aborts table 1 (flag_transaction ready 1) flagged_client flagged_dirty

-- The key that client 1 watches is touched, and then client 2 reads.
abbrev touched : Store
touched = call table (touch_watched_key ready (0, [])) 2 none

opened : ((multi_command watching 1).client 1).multi ≡ true
unfolding multi_command watch_command watch_each watch_for_key count
opened = refl

opened_still : ((queue_multi_command (multi_command watching 1) 1 (some 3)).client 1).multi ≡ true
unfolding queue_multi_command multi_command watch_command watch_each watch_for_key count
opened_still = refl

ready-IsValid : IsValid ready
ready-IsValid = reached-IsValid table present idle ready idle-IsValid (
    after _ _
      (after _ _ (after _ _ (after _ _ start (watch idle 1 ([] ∷ []))) (multi watching 1))
        (queues (multi_command watching 1) 1 (some 3) opened))
      (queues _ 1 none opened_still))

watched : count (0, []) (ready.client 1).watched_keys ≢ 0
unfolding count
watched h =
    let h' = ap (λ (x : Client (Option ℕ)). count (0, []) x.watched_keys) (sym ready_client) ∙ h in
    cc

touched_multi : (touched.client 1).multi ≡ true
unfolding call run_proc touch_each touch_watched_key mark_each queue_multi_command multi_command
    watch_command watch_each watch_for_key count join
touched_multi = refl

touched-Aborts_example : Aborts table 1 touched (exec_command table touched 1)
touched-Aborts_example =
    touched-Aborts table 1 ready touched (0, []) ready-IsValid watched
      (next here (calls (touch_watched_key ready (0, [])) 2 none)) touched_multi

-- A slave that is read-only, and its client in MULTI.
abbrev slave : Config
slave = record {
  requirepass = false;
  maxmemory = false;
  out_of_memory = false;
  stop_writes_on_bgsave_err = true;
  saveparamslen = 1;
  lastbgsave_err = false;
  aof_last_write_err = false;
  masterhost = true;
  repl_min_slaves_to_write = 0;
  repl_min_slaves_max_lag = 10;
  good_slaves = 0;
  repl_slave_ro = true;
  repl_connected = true;
  repl_serve_stale_data = true;
  loading = false;
  lua_timedout = false;
}

abbrev in_multi : Flags
in_multi = record { authenticated = false; multi = true; pubsub = false; master = false }

abbrev request : Bool → Request
request write = record {
  quit = false;
  cmd = some (record {
    proc = Proc.other;
    arity = negsuc 1;
    write = write;
    denyoom = write;
    stale = false;
    loading = false;
  });
  argc = 3;
  initial = 0;
}

refused : process_command slave in_multi (request true) ≡ refuses roslave false
unfolding process_command judge
refused = refl

process_command-IsFlagged_example : false ≡ not (is_forgiven roslave)
process_command-IsFlagged_example =
    process_command-IsFlagged slave in_multi (request true) roslave false refused

process_command-Accepts_example :
    ((process_command slave in_multi (request false) ≡ Verdict.queues) ↔ (
      (cmd : Command) × IsAdmitted slave in_multi (request false) cmd
      × (in_multi.multi ≡ true)
      × ¬ Among cmd.proc at_once))
    × ((process_command slave in_multi (request false) ≡ Verdict.calls) ↔ (
        (cmd : Command) × IsAdmitted slave in_multi (request false) cmd
        × (in_multi.multi ≡ true → Among cmd.proc at_once)))
process_command-Accepts_example = process_command-Accepts slave in_multi (request false)

-- The command waits, and so it may run.
granted : process_command slave in_multi (request false) ≡ Verdict.queues
unfolding process_command judge
granted = refl

may_run :
    (cmd : Command) × IsAdmitted slave in_multi (request false) cmd
    × (in_multi.multi ≡ true)
    × ¬ Among cmd.proc at_once
may_run = (process_command-Accepts slave in_multi (request false)).0.0 granted
