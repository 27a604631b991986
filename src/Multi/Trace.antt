-- ===== src/Multi/Trace.antt =====
-- The promise of WATCH: a key that is touched before EXEC keeps the whole transaction from running.
use redis_allocators.Prelude.{
  ℕ, ◌≡◌, ◌≢◌, Bool, true, false, not, ◌&&◌, ◌||◌, Option, List, [], ◌∷◌, arith, length, Bool-cases,
  inl, inr, ◌⊎◌, ℕ_discrete,
}
use redis_allocators.Prelude.Eq.{nat_eq, list_eq, pair_eq}
use redis_allocators.Multi.{
  Key, Client, Server, bulk_len, put_client, add_reply, unwatch_all_keys, discard_transaction,
  watch_for_key, watch_each, flush_keys, flush_clients, flush_key, is_flushed,
}
use redis_allocators.Multi.Exec.{
  touch_each, Commands, run_proc, call, announce, exec_each, exec_command,
}
use redis_allocators.Multi.Clean.{unwatch_all_keys_lem, discard_transaction_lem, touch_each_lem}

module _ {D Cmd R : Type 0} (table : Commands D Cmd R) (c : ℕ) where
  -- The mark of the client stays.
  abbrev pub Keeps : Server D Cmd R → Server D Cmd R → Type 0
  Keeps s t = (s.client c).dirty_cas ≡ true → (t.client c).dirty_cas ≡ true

  pub put_client-Keeps :
      (s : Server D Cmd R) (d : ℕ) (x : Client Cmd)
      → (d ≢ c) ⊎ (x.dirty_cas ≡ (s.client d).dirty_cas)
      → Keeps s (put_client s d x)
  put_client-Keeps s d x h e = ground arith

  pub watch_each-Keeps :
      (s : Server D Cmd R) (d : ℕ) (keys : List (List ℕ)) → Keeps s (watch_each s d keys)
  unfolding watch_each watch_for_key
  watch_each-Keeps s d [] e = e
  watch_each-Keeps s d (k ∷ ks) e = watch_each-Keeps (watch_for_key s d k) d ks (ground arith)

  pub unwatch_all_keys-Keeps : (s : Server D Cmd R) (d : ℕ) → Keeps s (unwatch_all_keys s d)
  unwatch_all_keys-Keeps s d e =
      let (rest, client, others) = unwatch_all_keys_lem s d in
      elim (ℕ_discrete c d) [ yes same ↦ ground arith | no ne ↦ ground (arith, others c ne) ]

  pub discard_transaction-Keeps :
      (s : Server D Cmd R) (d : ℕ) → d ≢ c → Keeps s (discard_transaction s d)
  discard_transaction-Keeps s d ne e =
      let (rest, client, others) = discard_transaction_lem s d in ground (arith, others c)

  pub touch_each-Keeps : (s : Server D Cmd R) (ks : List Key) → Keeps s (touch_each s ks)
  touch_each-Keeps s ks e =
      let (rest, client, tables) = touch_each_lem s ks in ground (arith, client c)

  pub flush_keys-Keeps :
      (exists : Key → Bool) (dbid : Option ℕ) (s : Server D Cmd R) (d : ℕ) (ks : List Key)
      → Keeps s (flush_keys exists dbid s d ks)
  unfolding flush_keys
  flush_keys-Keeps exists dbid s d [] e = e
  flush_keys-Keeps exists dbid s d (k ∷ ks) e =
      flush_keys-Keeps exists dbid (flush_key exists dbid s d k) d ks
        (elim (Bool-cases (is_flushed dbid k && exists k)) [
          | inl hit ↦ rw hit (ground arith)
          | inr miss ↦ rw miss e
        ])

  pub flush_clients-Keeps :
      (exists : Key → Bool) (dbid : Option ℕ) (s : Server D Cmd R) (cs : List ℕ)
      → Keeps s (flush_clients exists dbid s cs)
  unfolding flush_clients
  flush_clients-Keeps exists dbid s [] e = e
  flush_clients-Keeps exists dbid s (d ∷ ds) e =
      flush_clients-Keeps exists dbid (flush_keys exists dbid s d (s.client d).watched_keys) ds
        (flush_keys-Keeps exists dbid s d (s.client d).watched_keys e)

  pub call-Keeps : (s : Server D Cmd R) (d : ℕ) (cmd : Cmd) → Keeps s (call table s d cmd)
  unfolding call run_proc
  call-Keeps s d cmd e = touch_each-Keeps (run_proc table s d cmd) _ (ground arith)

  pub exec_each-Keeps :
      (s : Server D Cmd R) (d : ℕ) (cmds : List Cmd) (p : Bool)
      → Keeps s (exec_each table s d cmds p).0
  unfolding exec_each
  exec_each-Keeps s d [] p e = e
  exec_each-Keeps s d (cmd ∷ cmds) p e =
      exec_each-Keeps (call table (announce table s cmd p) d cmd) d cmds
        (p || not (table.readonly cmd)) (call-Keeps (announce table s cmd p) d cmd e)

  pub exec_command-Keeps : (s : Server D Cmd R) (d : ℕ) → d ≢ c → Keeps s (exec_command table s d)
  unfolding exec_command
  exec_command-Keeps s d ne e =
      let x = s.client d in
      let ready = add_reply (unwatch_all_keys s d) d (bulk_len (length x.commands)) in
      let done = exec_each table ready d x.commands false in
      elim (Bool-cases (not x.multi)) [
        | inl h ↦ rw h e
        | inr h ↦ elim (Bool-cases (x.dirty_cas || x.dirty_exec)) [
          | inl dirty ↦ rw h (rw dirty (discard_transaction-Keeps _ d ne e))
          | inr clean ↦
              let kept = exec_each-Keeps ready d x.commands false (unwatch_all_keys-Keeps s d e) in
              let last = discard_transaction-Keeps done.0 d ne kept in rw h (rw clean last)
        ]
      ]
