-- ===== src/Multi/Abort.antt =====
-- EXEC after a watched key was touched, or after an error while queueing.
use redis_allocators.Prelude.{
  ℕ, ◌≡◌, ◌≢◌, refl, ap, Bool, true, ◌||◌, Option, List, [], ◌∷◌, ◌++◌, if◌then◌else◌, arith,
  Bool-cases, inl, inr,
}
use redis_allocators.Prelude.Eq.{pair_eq, list_eq, nat_eq, count}
use redis_allocators.Multi.{
  Key, Server, exec_abort, null_bulk, add_reply, flag_transaction, touch_watched_key,
  queue_multi_command, multi_command, discard_command, watch_command, unwatch_command,
  touch_watched_keys_on_flush, unwatch_all_keys,
}
use redis_allocators.Multi.Exec.{Commands, call, exec_command}
use redis_allocators.Multi.Valid.{IsValid}
use redis_allocators.Multi.Clean.{
  reset_client, marked, touch_watched_key_lem, discard_transaction_lem,
}
use redis_allocators.Multi.Trace.{
  Keeps, put_client-Keeps, watch_each-Keeps, unwatch_all_keys-Keeps, discard_transaction-Keeps,
  flush_clients-Keeps, call-Keeps, exec_command-Keeps,
}

module _ {D Cmd R : Type 0} (table : Commands D Cmd R) (c : ℕ) where
  -- No command runs: the keyspace stays, the only reply says so, and the client starts afresh.
  abbrev pub Aborts : Server D Cmd R → Server D Cmd R → Type 0
  Aborts s t =
      (t.keyspace ≡ s.keyspace)
      × (t.sent ≡ s.sent ++ ((c, if (s.client c).dirty_exec then exec_abort else null_bulk) ∷ []))
      × (t.client c ≡ reset_client (s.client c))

  -- EXEC in a transaction that is marked or flagged runs no command.
  pub exec_command-Aborts :
      (s : Server D Cmd R)
      → (s.client c).multi ≡ true
      → ((s.client c).dirty_cas || (s.client c).dirty_exec) ≡ true
      → Aborts s (exec_command table s c)
  unfolding exec_command
  exec_command-Aborts s multi dirty =
      let (rest, client, others) =
        discard_transaction_lem
          (add_reply s c (if (s.client c).dirty_exec then exec_abort else null_bulk)) c in
      rw multi (rw dirty (rest.0, rest.1, client))

  -- What may happen before the client's EXEC: anything by other clients, and from the client itself
  -- all but DISCARD, UNWATCH and EXEC.
  pub data Meanwhile : Server D Cmd R → Server D Cmd R → Type 0 where
    calls : (s : Server D Cmd R) (d : ℕ) (cmd : Cmd) → Meanwhile s (call table s d cmd)
    queues : (s : Server D Cmd R) (d : ℕ) (cmd : Cmd) → Meanwhile s (queue_multi_command s d cmd)
    opens : (s : Server D Cmd R) (d : ℕ) → Meanwhile s (multi_command s d)
    flags : (s : Server D Cmd R) (d : ℕ) → Meanwhile s (flag_transaction s d)
    watches :
        (s : Server D Cmd R) (d : ℕ) (keys : List (List ℕ)) → Meanwhile s (watch_command s d keys)
    flushes :
        (s : Server D Cmd R) (exists : Key → Bool) (dbid : Option ℕ)
        → Meanwhile s (touch_watched_keys_on_flush exists dbid s)
    discards : (s : Server D Cmd R) (d : ℕ) → d ≢ c → Meanwhile s (discard_command s d)
    unwatches : (s : Server D Cmd R) (d : ℕ) → d ≢ c → Meanwhile s (unwatch_command s d)
    executes : (s : Server D Cmd R) (d : ℕ) → d ≢ c → Meanwhile s (exec_command table s d)

  pub data Later (s : Server D Cmd R) : Server D Cmd R → Type 0 where
    here : Later s s
    next : {t u : Server D Cmd R} → Later s t → Meanwhile t u → Later s u

  Meanwhile-Keeps : {s t : Server D Cmd R} → Meanwhile s t → Keeps table c s t
  unfolding queue_multi_command multi_command flag_transaction watch_command discard_command
      unwatch_command touch_watched_keys_on_flush
  Meanwhile-Keeps (calls s d cmd) e = call-Keeps table c s d cmd e
  Meanwhile-Keeps (queues s d cmd) e = put_client-Keeps table c s d _ (inr refl) e
  Meanwhile-Keeps (opens s d) e = elim (Bool-cases (s.client d).multi) [
    | inl h ↦ rw h e
    | inr h ↦ rw h (put_client-Keeps table c s d _ (inr refl) e)
  ]
  Meanwhile-Keeps (flags s d) e = elim (Bool-cases (s.client d).multi) [
    | inl h ↦ rw h (put_client-Keeps table c s d _ (inr refl) e)
    | inr h ↦ rw h e
  ]
  Meanwhile-Keeps (watches s d keys) e = elim (Bool-cases (s.client d).multi) [
    | inl h ↦ rw h e
    | inr h ↦ rw h (watch_each-Keeps table c s d keys e)
  ]
  Meanwhile-Keeps (flushes s exists dbid) e = flush_clients-Keeps table c exists dbid s s.clients e
  Meanwhile-Keeps (discards s d ne) e = elim (Bool-cases (s.client d).multi) [
    | inl h ↦ rw h (discard_transaction-Keeps table c s d ne e)
    | inr h ↦ rw h e
  ]
  Meanwhile-Keeps (unwatches s d ne) e =
      put_client-Keeps table c (unwatch_all_keys s d) d _ (inl ne)
        (unwatch_all_keys-Keeps table c s d e)
  Meanwhile-Keeps (executes s d ne) e = exec_command-Keeps table c s d ne e

  Later-Keeps : {s t : Server D Cmd R} → Later s t → Keeps table c s t
  Later-Keeps here e = e
  Later-Keeps (next before step) e = Meanwhile-Keeps step (Later-Keeps before e)

  -- The promise of WATCH: a client that watches a key when it is touched, and then neither discards
  -- nor unwatches, runs no command of its transaction with EXEC, whatever happens in between.
  pub touched-Aborts :
      (s t : Server D Cmd R) (k : Key)
      → IsValid s
      → count k (s.client c).watched_keys ≢ 0
      → Later (touch_watched_key s k) t
      → (t.client c).multi ≡ true
      → Aborts t (exec_command table t c)
  touched-Aborts s t k valid watched later multi =
      let (rest, client) = touch_watched_key_lem s k valid in
      let hit : (touch_watched_key s k).client c ≡ marked (s.client c) = ground (arith, client c) in
      let dirty = Later-Keeps later (ap (λ x. x.dirty_cas) hit) in
      exec_command-Aborts t multi (ground arith)
