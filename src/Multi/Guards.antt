-- ===== src/Multi/Guards.antt =====
-- What the guards of `processCommand` let through, and which refusals spoil a transaction.
use redis_allocators.Prelude.{
  ◌≡◌, refl, sym, ◌∙◌, subst, Bool, true, false, not, ◌&&◌, ◌||◌, some, ◌⊎◌, ◌↔◌, if◌then◌else◌,
  Bool-cases, Option-cases, inl, inr,
}
use redis_allocators.Multi.Safe.{
  Among, at_once, IsSafe, not_queued_sound, not_queued_complete, arity_guard, auth_guard,
  memory_guard, disk_guard, slaves_guard, readonly_guard, subscriber_guard, fresh_guard,
  loaded_guard, script_guard,
}
use redis_allocators.Multi.Process.{
  Command, Request, Flags, Config, Rejection, unknown_command, wrong_arity, noauth, oom, bgsave,
  aof_write, noreplicas, roslave, pubsub_context, masterdown, still_loading, slow_script, Verdict,
  closes, queues, calls, refuses, arity_fails, disk_problem, few_slaves, is_ping, is_auth,
  in_pubsub, in_slow_script, not_queued, judge, process_command,
}

-- The refusals after which EXEC still runs what has been queued.
abbrev pub is_forgiven : Rejection → Bool
is_forgiven Rejection.roslave = true
is_forgiven Rejection.pubsub_context = true
is_forgiven Rejection.still_loading = true
is_forgiven Rejection.unknown_command = false
is_forgiven Rejection.wrong_arity = false
is_forgiven Rejection.noauth = false
is_forgiven Rejection.oom = false
is_forgiven Rejection.bgsave = false
is_forgiven Rejection.aof_write = false
is_forgiven Rejection.noreplicas = false
is_forgiven Rejection.masterdown = false
is_forgiven Rejection.slow_script = false

-- What holds of a verdict.
abbrev pub IsFlagged : Verdict → Type 0
IsFlagged closes = Unit
IsFlagged queues = Unit
IsFlagged calls = Unit
IsFlagged (refuses e flags) = flags ≡ not (is_forgiven e)

-- What holds of the verdict on a command that the table has.
abbrev pub Admits : Config → Flags → Request → Command → Verdict → Type 0
Admits g f r cmd closes = ⊥
Admits g f r cmd queues = IsSafe g f r cmd × (f.multi ≡ true) × ¬ Among cmd.proc at_once
Admits g f r cmd calls = IsSafe g f r cmd × (f.multi ≡ true → Among cmd.proc at_once)
Admits g f r cmd (refuses e flags) = flags ≡ not (is_forgiven e)

-- `Admits`, kept folded.
pub record Holds (g : Config) (f : Flags) (r : Request) (cmd : Command) (v : Verdict) : Type 0 where
  pub holds : Admits g f r cmd v

module _ {g : Config} {f : Flags} {r : Request} {cmd : Command} where
  -- A guard that keeps its equation, and refuses.
  guarded :
      (b : Bool) (e : Rejection) (flags : Bool) (w : Verdict)
      → flags ≡ not (is_forgiven e)
      → (b ≡ false → Holds g f r cmd w)
      → Holds g f r cmd (if b then refuses e flags else w)
  guarded true e flags w same next = record { holds = same }
  guarded false e flags w same next = next refl

judge-Holds :
    (g : Config) (f : Flags) (r : Request) (cmd : Command) → Holds g f r cmd (judge g f r cmd)
unfolding judge
judge-Holds g f r cmd = guarded (arity_fails cmd.arity r.argc) wrong_arity true _ refl (λ arity.
    guarded (g.requirepass && not f.authenticated && not (is_auth cmd.proc)) noauth true _ refl
      (λ authenticated.
        guarded (g.maxmemory && cmd.denyoom && g.out_of_memory) oom true _ refl (λ memory.
          guarded (disk_problem g && not g.masterhost && (cmd.write || is_ping cmd.proc))
            (if g.aof_last_write_err then aof_write else bgsave) true _
            (disk_flagged g.aof_last_write_err)
            (λ disk. guarded (few_slaves g && cmd.write) noreplicas true _ refl (λ slaves.
              guarded (g.masterhost && g.repl_slave_ro && not f.master && cmd.write) roslave false _
                refl
                (λ readonly.
                  guarded (f.pubsub && not (in_pubsub cmd.proc)) pubsub_context false _ refl
                    (λ subscriber.
                      guarded
                        (g.masterhost
                          && not g.repl_connected
                          && not g.repl_serve_stale_data
                          && not cmd.stale)
                        masterdown true _ refl
                        (λ fresh.
                          guarded (g.loading && not cmd.loading) still_loading false _ refl
                            (λ loaded.
                              guarded (g.lua_timedout && not (in_slow_script cmd.proc r))
                                slow_script true _ refl
                                (λ script. last f.multi (not_queued cmd.proc) refl refl (record {
                                  arity = (arity_guard cmd.arity r.argc).0 arity;
                                  authenticated =
                                      (auth_guard g.requirepass f.authenticated cmd.proc).0
                                        authenticated;
                                  memory =
                                      (memory_guard g.maxmemory cmd.denyoom g.out_of_memory).0
                                        memory;
                                  disk = (disk_guard g cmd.write cmd.proc).0 disk;
                                  slaves = (slaves_guard g cmd.write).0 slaves;
                                  readonly =
                                      (readonly_guard g.masterhost g.repl_slave_ro f.master
                                          cmd.write).0
                                        readonly;
                                  subscriber = (subscriber_guard f.pubsub cmd.proc).0 subscriber;
                                  fresh =
                                      (fresh_guard g.masterhost g.repl_connected
                                          g.repl_serve_stale_data cmd.stale).0
                                        fresh;
                                  loaded = (loaded_guard g.loading cmd.loading).0 loaded;
                                  script = (script_guard g.lua_timedout cmd.proc r).0 script;
                                })))))))))))
  where
    disk_flagged : (b : Bool) → true ≡ not (is_forgiven (if b then aof_write else bgsave))
    disk_flagged true = refl
    disk_flagged false = refl

    waits : Among cmd.proc at_once → not_queued cmd.proc ≡ false → ⊥
    waits one en = let same = not_queued_complete cmd.proc one in cc

    last :
        (b n : Bool)
        → f.multi ≡ b
        → not_queued cmd.proc ≡ n
        → IsSafe g f r cmd
        → Holds g f r cmd (if b && not n then queues else calls)
    last true true eb en safe = record { holds = (safe, λ _. not_queued_sound cmd.proc en) }
    last true false eb en safe = record { holds = (safe, eb, λ one. waits one en) }
    last false n eb en safe = record { holds = (safe, λ e. absurd (cc)) }

-- The outcomes of `processCommand`: an unknown command is refused and flags the transaction.
process_command-cases :
    (g : Config) (f : Flags) (r : Request)
    → (process_command g f r ≡ closes)
      ⊎ (process_command g f r ≡ refuses unknown_command true)
      ⊎ ((cmd : Command) × (r.quit ≡ false)
          × (r.cmd ≡ some cmd)
          × (process_command g f r ≡ judge g f r cmd))
unfolding process_command
process_command-cases g f r = elim (Bool-cases r.quit) [
  | inl e ↦ rw e (inl refl)
  | inr e ↦ elim (Option-cases r.cmd) [
    | inl n ↦ rw (e, n) (inr (inl refl))
    | inr found ↦ inr (inr (found.0, e, found.1, simp (e, found.1)))
  ]
]

-- A safe command passes all guards.
judge_passes :
    (g : Config) (f : Flags) (r : Request) (cmd : Command)
    → IsSafe g f r cmd
    → judge g f r cmd ≡ (if f.multi && not (not_queued cmd.proc) then queues else calls)
unfolding judge
judge_passes g f r cmd safe =
    rw
      (
        (arity_guard cmd.arity r.argc).1 safe.arity,
        (auth_guard g.requirepass f.authenticated cmd.proc).1 safe.authenticated,
        (memory_guard g.maxmemory cmd.denyoom g.out_of_memory).1 safe.memory,
        (disk_guard g cmd.write cmd.proc).1 safe.disk,
        (slaves_guard g cmd.write).1 safe.slaves,
        (readonly_guard g.masterhost g.repl_slave_ro f.master cmd.write).1 safe.readonly,
        (subscriber_guard f.pubsub cmd.proc).1 safe.subscriber,
        (fresh_guard g.masterhost g.repl_connected g.repl_serve_stale_data cmd.stale).1 safe.fresh,
        (loaded_guard g.loading cmd.loading).1 safe.loaded,
        (script_guard g.lua_timedout cmd.proc r).1 safe.script,
        judge,
      )
      refl

-- A command of the table that may run.
abbrev pub IsAdmitted : Config → Flags → Request → Command → Type 0
IsAdmitted g f r cmd = (r.quit ≡ false) × (r.cmd ≡ some cmd) × IsSafe g f r cmd

module _ (g : Config) (f : Flags) (r : Request) where
  -- A verdict on a command that is called or queued.
  let_through :
      (v : Verdict)
      → process_command g f r ≡ v
      → (v ≡ closes → ⊥)
      → (v ≡ refuses unknown_command true → ⊥)
      → (cmd : Command) × (r.quit ≡ false) × (r.cmd ≡ some cmd) × Admits g f r cmd v
  let_through v h not_closed known = elim (process_command-cases g f r) [
    | inl e ↦ absurd (not_closed (sym h ∙ e))
    | inr (inl e) ↦ absurd (known (sym h ∙ e))
    | inr (inr found) ↦ (
      found.0,
      found.1,
      found.2,
      subst (Admits g f r found.0) (sym found.3 ∙ h) (judge-Holds g f r found.0).holds,
    )
  ]

  verdict_of :
      (cmd : Command)
      → IsAdmitted g f r cmd
      → process_command g f r ≡ (if f.multi && not (not_queued cmd.proc) then queues else calls)
  unfolding process_command
  verdict_of cmd (quit, found, safe) = simp (quit, found) (judge_passes g f r cmd safe)

  waiting :
      (cmd : Command)
      → f.multi ≡ true
      → ¬ Among cmd.proc at_once
      → (if f.multi && not (not_queued cmd.proc) then queues else calls) ≡ queues
  waiting cmd multi later = elim (Bool-cases (not_queued cmd.proc)) [
    | inl e ↦ absurd (later (not_queued_sound cmd.proc e))
    | inr e ↦ rw (multi, e) refl
  ]

  called :
      (cmd : Command)
      → (f.multi ≡ true → Among cmd.proc at_once)
      → (if f.multi && not (not_queued cmd.proc) then queues else calls) ≡ calls
  called cmd now = elim (Bool-cases f.multi) [
    | inl e ↦ let same = not_queued_complete cmd.proc (now e) in rw (e, same) refl
    | inr e ↦ rw e refl
  ]

-- `processCommand` queues a command exactly if it is in the command table and may run (`IsSafe`: the
-- number of its arguments, the password, memory, disk and slaves, the subscriptions of the client, a
-- link to the master, the load and slow scripts allow it), and the client is inside MULTI and the
-- command is not EXEC, DISCARD, MULTI or WATCH. It calls a command exactly if it is in the table and
-- may run, and is one of these four if the client is inside MULTI.
pub process_command-Accepts :
    (g : Config) (f : Flags) (r : Request)
    → ((process_command g f r ≡ queues)
        ↔ ((cmd : Command) × IsAdmitted g f r cmd × (f.multi ≡ true) × ¬ Among cmd.proc at_once))
      × ((process_command g f r ≡ calls)
          ↔ ((cmd : Command) × IsAdmitted g f r cmd × (f.multi ≡ true → Among cmd.proc at_once)))
process_command-Accepts g f r = (
  (
    λ h.
        let (cmd, quit, found, ok) = let_through g f r queues h (λ e. cc) (λ e. cc) in
        (cmd, (quit, found, ok.0), ok.1, ok.2),
    λ (cmd, admitted, multi, later). verdict_of g f r cmd admitted ∙ waiting g f r cmd multi later,
  ),
  (
    λ h.
        let (cmd, quit, found, ok) = let_through g f r calls h (λ e. cc) (λ e. cc) in
        (cmd, (quit, found, ok.0), ok.1),
    λ (cmd, admitted, now). verdict_of g f r cmd admitted ∙ called g f r cmd now,
  ),
)

-- `processCommand` flags the transaction when it refuses a command, unless the reason is a read-only
-- slave, the Pub/Sub context or a server that still loads: these three leave the transaction as it is.
pub process_command-IsFlagged :
    (g : Config) (f : Flags) (r : Request) (e : Rejection) (flags : Bool)
    → process_command g f r ≡ refuses e flags
    → flags ≡ not (is_forgiven e)
process_command-IsFlagged g f r e flags ev = elim (process_command-cases g f r) [
  | inl ec ↦ let same = sym ec ∙ ev in absurd (subst Closed same tt)
  | inr (inl eu) ↦ subst IsFlagged (sym eu ∙ ev) refl
  | inr (inr found) ↦
      subst (Admits g f r found.0) (sym found.3 ∙ ev) (judge-Holds g f r found.0).holds
]
  where
    Closed : Verdict → Type 0
    Closed closes = Unit
    Closed queues = ⊥
    Closed calls = ⊥
    Closed (refuses e flags) = ⊥

    IsFlagged : Verdict → Type 0
    IsFlagged closes = Unit
    IsFlagged queues = Unit
    IsFlagged calls = Unit
    IsFlagged (refuses e flags) = flags ≡ not (is_forgiven e)
