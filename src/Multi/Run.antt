-- ===== src/Multi/Run.antt =====
-- EXEC of a transaction that nothing has spoilt.
use redis_allocators.Prelude.{
  ℕ, ◌+◌, ◌≡◌, refl, ap, ap₂, sym, ◌∙◌, Bool, true, false, not, ◌&&◌, ◌||◌, List, [], ◌∷◌, ◌++◌,
  if◌then◌else◌, arith, map, append_assoc, append-nil, length,
}
use redis_allocators.Multi.{
  Client, Server, Reply, bulk_len, answer, add_reply, discard_transaction, unwatch_all_keys,
}
use redis_allocators.Multi.Exec.{Commands, run_proc, call, announce, exec_each, exec_command}
use redis_allocators.Multi.Clean.{touch_each_lem, unwatch_all_keys_lem, discard_transaction_lem}

module _ {D Cmd R : Type 0} (table : Commands D Cmd R) where
  -- The commands by themselves, one after the other: the keyspace, the client's database, and the
  -- replies.
  unfoldable pub replay : List Cmd → ℕ → D → D × ℕ × List R
  replay [] db keyspace = (keyspace, db, [])
  replay (cmd ∷ rest) db keyspace =
      let o = table.proc cmd db keyspace in
      let (keyspace', db', replies) = replay rest o.db o.keyspace in
      (keyspace', db', o.reply ∷ replies)

  unfoldable pub some_write : List Cmd → Bool
  some_write [] = false
  some_write (cmd ∷ rest) = not (table.readonly cmd) || some_write rest

  call_lem :
      (s : Server D Cmd R) (c : ℕ) (cmd : Cmd)
      → let o = table.proc cmd (s.client c).db s.keyspace in
        let t = call table s c cmd in
        (t.keyspace ≡ o.keyspace)
        × ((t.client c).db ≡ o.db)
        × (t.sent ≡ s.sent ++ ((c, answer o.reply) ∷ []))
        × (t.multis ≡ s.multis)
  unfolding call run_proc
  call_lem s c cmd =
      let o = table.proc cmd (s.client c).db s.keyspace in
      let (rest, client, tables) = touch_each_lem (run_proc table s c cmd) o.touched in
      (rest.0, ground (arith, client c), ap (λ l. l ++ ((c, answer o.reply) ∷ [])) rest.1, rest.3)

  pub answers : ℕ → List R → List (ℕ × Reply R)
  answers c = map (λ r. (c, answer r))

  exec_each_lem :
      (s : Server D Cmd R) (c : ℕ) (cmds : List Cmd) (p : Bool)
      → let (t, q) = exec_each table s c cmds p in
        let (keyspace, db, replies) = replay cmds (s.client c).db s.keyspace in
        (t.keyspace ≡ keyspace)
        × ((t.client c).db ≡ db)
        × (t.sent ≡ s.sent ++ answers c replies)
        × (t.multis ≡ s.multis + (if not p && some_write cmds then 1 else 0))
        × (q ≡ (p || some_write cmds))
  unfolding exec_each replay answers some_write
  exec_each_lem s c [] p = (refl, refl, sym (append-nil s.sent), ground arith, ground arith)
  exec_each_lem s c (cmd ∷ rest) p =
      let s₁ = announce table s cmd p in
      let s₂ = call table s₁ c cmd in
      let w = not (table.readonly cmd) in
      let o = table.proc cmd (s.client c).db s.keyspace in
      let (keyspace, db, sent, multis) = call_lem s₁ c cmd in
      let (keyspace', db', sent', multis', q) = exec_each_lem s₂ c rest (p || w) in
      let same : replay rest (s₂.client c).db s₂.keyspace ≡ replay rest o.db o.keyspace =
        ap₂ (replay rest) db keyspace in
      let replies = (replay rest o.db o.keyspace).2 in
      (
        keyspace' ∙ ap (λ r. r.0) same,
        db' ∙ ap (λ r. r.1) same,
        sent'
            ∙ ap₂ (λ l r. l ++ answers c r) sent (ap (λ r. r.2) same)
            ∙ append_assoc s.sent ((c, answer o.reply) ∷ []) (answers c replies),
        ground arith,
        q ∙ ground arith,
      )

  -- EXEC in a transaction that is neither marked nor flagged runs all queued commands in their
  -- order, with nothing in between: the keyspace and the replies are those of the commands by
  -- themselves. MULTI is propagated once, if one of them writes, and the client starts afresh, in
  -- the database that the last command has selected.
  abbrev pub RunsAll : Server D Cmd R → ℕ → Server D Cmd R → Type 0
  RunsAll s c t =
      let x = s.client c in
      let (keyspace, db, replies) = replay x.commands x.db s.keyspace in
      (t.keyspace ≡ keyspace)
      × (t.sent ≡ s.sent ++ ((c, bulk_len (length x.commands)) ∷ answers c replies))
      × (t.multis ≡ s.multis + (if some_write x.commands then 1 else 0))
      × ((t.client c).db ≡ db)
      × ((t.client c).multi ≡ false)
      × ((t.client c).commands ≡ [])
      × ((t.client c).watched_keys ≡ [])

  pub exec_command-RunsAll :
      (s : Server D Cmd R) (c : ℕ)
      → (s.client c).multi ≡ true
      → ((s.client c).dirty_cas || (s.client c).dirty_exec) ≡ false
      → RunsAll s c (exec_command table s c)
  unfolding exec_command
  exec_command-RunsAll s c multi clean =
      let x = s.client c in
      let u = add_reply (unwatch_all_keys s c) c (bulk_len (length x.commands)) in
      let (rest, client, others) = unwatch_all_keys_lem s c in
      let t = (exec_each table u c x.commands false).0 in
      let (keyspace, db, sent, multis, q) = exec_each_lem u c x.commands false in
      let (rest', client', others') = discard_transaction_lem t c in
      let same : replay x.commands (u.client c).db u.keyspace ≡ replay x.commands x.db s.keyspace =
        ap₂ (replay x.commands) (ap (λ (y : Client Cmd). y.db) client) rest.0 in
      let bulk : List (ℕ × Reply R) = (c, bulk_len (length x.commands)) ∷ [] in
      let total : RunsAll s c (discard_transaction t c) = (
        rest'.0 ∙ keyspace ∙ ap (λ r. r.0) same,
        rest'.1
            ∙ sent
            ∙ ap₂ (λ l r. (l ++ bulk) ++ answers c r) rest.1 (ap (λ r. r.2) same)
            ∙ append_assoc s.sent bulk (answers c (replay x.commands x.db s.keyspace).2),
        rest'.3 ∙ multis ∙ ap (λ m. m + (if some_write x.commands then 1 else 0)) rest.3,
        ap (λ (y : Client Cmd). y.db) client' ∙ db ∙ ap (λ r. r.1) same,
        ap (λ (y : Client Cmd). y.multi) client',
        ap (λ (y : Client Cmd). y.commands) client',
        ap (λ (y : Client Cmd). y.watched_keys) client',
      ) in
      rw multi (rw clean total)
