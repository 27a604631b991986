-- ===== src/Multi/Reach.antt =====
-- The steps of the clients that multi.c serves, and the states they reach.
use redis_allocators.Prelude.{
  ℕ, ◌≡◌, refl, Bool, true, false, ◌&&◌, ◌||◌, Option, List, [], ◌∷◌, length, Bool-cases, inl, inr,
  arith,
}
use redis_allocators.Multi.{
  Key, Server, bulk_len, add_reply, queue_multi_command, watch_for_key, watch_each, watch_command,
  unwatch_all_keys, unwatch_command, discard_transaction, discard_command, flag_transaction,
  multi_command, mark, is_flushed, flush_key, flush_keys, flush_clients, touch_watched_key,
  touch_watched_keys_on_flush,
}
use redis_allocators.Multi.Exec.{
  Commands, touch_each, run_proc, call, announce, exec_each, exec_command,
}
use redis_allocators.Multi.Valid.{
  IsValid, put_client-IsValid, watch_for_key-IsValid, unwatch_all_keys-IsValid,
  discard_transaction-IsValid, touch_watched_key-IsValid,
}

module _ {D Cmd R : Type 0} where
  pub watch_each-IsValid :
      (s : Server D Cmd R) (c : ℕ) (keys : List (List ℕ))
      → IsValid s
      → IsValid (watch_each s c keys)
  unfolding watch_each
  watch_each-IsValid s c [] valid = valid
  watch_each-IsValid s c (key ∷ rest) valid =
      watch_each-IsValid (watch_for_key s c key) c rest (watch_for_key-IsValid s c key valid)

  touch_each-IsValid : (s : Server D Cmd R) (ks : List Key) → IsValid s → IsValid (touch_each s ks)
  unfolding touch_each
  touch_each-IsValid s [] valid = valid
  touch_each-IsValid s (k ∷ rest) valid =
      touch_each-IsValid (touch_watched_key s k) rest (touch_watched_key-IsValid s k valid)

  mark-IsValid : (s : Server D Cmd R) (c : ℕ) → IsValid s → IsValid (mark s c)
  mark-IsValid s c valid = put_client-IsValid s c _ valid refl (valid.idle c)

  flush_keys-IsValid :
      (exists : Key → Bool) (dbid : Option ℕ) (s : Server D Cmd R) (c : ℕ) (ks : List Key)
      → IsValid s
      → IsValid (flush_keys exists dbid s c ks)
  unfolding flush_keys
  flush_keys-IsValid exists dbid s c [] valid = valid
  flush_keys-IsValid exists dbid s c (k ∷ rest) valid =
      flush_keys-IsValid exists dbid (flush_key exists dbid s c k) c rest
        (elim (Bool-cases (is_flushed dbid k && exists k)) [
          | inl e ↦ rw e (mark-IsValid s c valid)
          | inr e ↦ rw e valid
        ])

  flush_clients-IsValid :
      (exists : Key → Bool) (dbid : Option ℕ) (s : Server D Cmd R) (cs : List ℕ)
      → IsValid s
      → IsValid (flush_clients exists dbid s cs)
  unfolding flush_clients
  flush_clients-IsValid exists dbid s [] valid = valid
  flush_clients-IsValid exists dbid s (c ∷ rest) valid =
      flush_clients-IsValid exists dbid (flush_keys exists dbid s c (s.client c).watched_keys) rest
        (flush_keys-IsValid exists dbid s c (s.client c).watched_keys valid)

module _ {D Cmd R : Type 0} (table : Commands D Cmd R) where
  call-IsValid : (s : Server D Cmd R) (c : ℕ) (cmd : Cmd) → IsValid s → IsValid (call table s c cmd)
  unfolding call run_proc
  call-IsValid s c cmd valid =
      touch_each-IsValid (run_proc table s c cmd) _
        (put_client-IsValid s c _ valid refl (valid.idle c))

  exec_each-IsValid :
      (s : Server D Cmd R) (c : ℕ) (cmds : List Cmd) (b : Bool)
      → IsValid s
      → IsValid (exec_each table s c cmds b).0
  unfolding exec_each
  exec_each-IsValid s c [] b valid = valid
  exec_each-IsValid s c (cmd ∷ rest) b valid =
      exec_each-IsValid (call table (announce table s cmd b) c cmd) c rest _
        (call-IsValid (announce table s cmd b) c cmd valid)

  pub exec_command-IsValid :
      (s : Server D Cmd R) (c : ℕ) → IsValid s → IsValid (exec_command table s c)
  unfolding exec_command
  exec_command-IsValid s c valid = elim (Bool-cases (s.client c).multi) [
    | inr e ↦ rw e valid
    | inl e ↦
        let x = s.client c in
        elim (Bool-cases (x.dirty_cas || x.dirty_exec)) [
          | inl d ↦ rw (e, d) (discard_transaction-IsValid _ c valid)
          | inr d ↦
              rw (e, d)
                (discard_transaction-IsValid _ c (
                  exec_each-IsValid
                    (add_reply (unwatch_all_keys s c) c (bulk_len (length x.commands))) c x.commands
                    false (unwatch_all_keys-IsValid s c valid)))
        ]
  ]

  -- One step of the server for the client `c`: a command outside MULTI, one that MULTI queues, a
  -- refusal, the five commands of multi.c, a client that goes, and a flush.
  pub data Step (exists : D → Key → Bool) : Server D Cmd R → Server D Cmd R → Type 0 where
    calls : (s : Server D Cmd R) (c : ℕ) (cmd : Cmd) → Step exists s (call table s c cmd)
    queues :
        (s : Server D Cmd R) (c : ℕ) (cmd : Cmd)
        → (s.client c).multi ≡ true
        → Step exists s (queue_multi_command s c cmd)
    flags : (s : Server D Cmd R) (c : ℕ) → Step exists s (flag_transaction s c)
    multi : (s : Server D Cmd R) (c : ℕ) → Step exists s (multi_command s c)
    exec : (s : Server D Cmd R) (c : ℕ) → Step exists s (exec_command table s c)
    discard : (s : Server D Cmd R) (c : ℕ) → Step exists s (discard_command s c)
    watch :
        (s : Server D Cmd R) (c : ℕ) (keys : List (List ℕ)) → Step exists s (watch_command s c keys)
    unwatch : (s : Server D Cmd R) (c : ℕ) → Step exists s (unwatch_command s c)
    goes : (s : Server D Cmd R) (c : ℕ) → Step exists s (discard_transaction s c)
    flush :
        (s : Server D Cmd R) (dbid : Option ℕ)
        → Step exists s (touch_watched_keys_on_flush (exists s.keyspace) dbid s)

  Step-IsValid :
      {exists : D → Key → Bool} {s t : Server D Cmd R} → Step exists s t → IsValid s → IsValid t
  unfolding queue_multi_command flag_transaction multi_command discard_command watch_command
      unwatch_command touch_watched_keys_on_flush
  Step-IsValid (calls s c cmd) valid = call-IsValid s c cmd valid
  Step-IsValid (queues s c cmd m) valid = put_client-IsValid s c _ valid refl (λ e. ground arith)
  Step-IsValid (flags s c) valid = elim (Bool-cases (s.client c).multi) [
    | inl e ↦ rw e (put_client-IsValid s c _ valid refl (λ n. ground arith))
    | inr e ↦ rw e valid
  ]
  Step-IsValid (multi s c) valid = elim (Bool-cases (s.client c).multi) [
    | inl e ↦ rw e valid
    | inr e ↦ rw e (put_client-IsValid s c _ valid refl (λ n. ground arith))
  ]
  Step-IsValid (exec s c) valid = exec_command-IsValid s c valid
  Step-IsValid (discard s c) valid = elim (Bool-cases (s.client c).multi) [
    | inl e ↦ rw e (discard_transaction-IsValid s c valid)
    | inr e ↦ rw e valid
  ]
  Step-IsValid (watch s c keys) valid = elim (Bool-cases (s.client c).multi) [
    | inl e ↦ rw e valid
    | inr e ↦ rw e (watch_each-IsValid s c keys valid)
  ]
  Step-IsValid (unwatch s c) valid =
      let clear = unwatch_all_keys-IsValid s c valid in
      put_client-IsValid (unwatch_all_keys s c) c _ clear refl (clear.idle c)
  Step-IsValid (goes s c) valid = discard_transaction-IsValid s c valid
  Step-IsValid {exists} (flush s dbid) valid =
      flush_clients-IsValid (exists s.keyspace) dbid s s.clients valid

  pub data IsReached (exists : D → Key → Bool) (s : Server D Cmd R) : Server D Cmd R → Type 0 where
    start : IsReached exists s s
    after : (t u : Server D Cmd R) → IsReached exists s t → Step exists t u → IsReached exists s u

  -- Whatever the clients do from a valid state, the lists of watched keys and the tables of the
  -- databases hold the same pairs, each once, no list in a table is empty, and a client outside MULTI
  -- has nothing queued and no error flag.
  pub reached-IsValid :
      (exists : D → Key → Bool) (s t : Server D Cmd R)
      → IsValid s
      → IsReached exists s t
      → IsValid t
  reached-IsValid exists s t valid start = valid
  reached-IsValid exists s t valid (after mid _ before step) =
      Step-IsValid step (reached-IsValid exists s mid valid before)
