-- ===== src/Multi/Safe.antt =====
-- What the guards of `processCommand` are for: the commands that may run, and each guard against it.
use redis_allocators.Prelude.{
  ℕ, suc, ◌≡◌, ◌≢◌, refl, ap, ◌<◌, ◌≤◌, ◌↔◌, Bool, true, false, not, ◌&&◌, ◌||◌, ◌⊎◌, List, [], ◌∷◌,
  ltb, ◌==◌, arith, Bool-cases, inl, inr,
}
use redis_allocators.Prelude.Int.{ℤ, pos, negsuc}
use redis_allocators.Multi.Process.{
  Proc, Command, Request, Flags, Config, arity_fails, disk_problem, few_slaves, is_ping, is_auth,
  in_pubsub, in_slow_script, not_queued,
}

-- One of these functions.
abbrev pub Among : Proc → List Proc → Type 0
Among p [] = ⊥
Among p (q ∷ l) = (p ≡ q) ⊎ Among p l

-- The commands that a client inside MULTI runs at once.
abbrev pub at_once : List Proc
at_once = Proc.exec ∷ Proc.discard ∷ Proc.multi ∷ Proc.watch ∷ []

-- The commands of a client that has subscribed.
abbrev pub for_subscribers : List Proc
for_subscribers =
    Proc.ping ∷ Proc.subscribe ∷ Proc.unsubscribe ∷ Proc.psubscribe ∷ Proc.punsubscribe ∷ []

-- AUTH, REPLCONF, SHUTDOWN NOSAVE and SCRIPT KILL.
abbrev pub IsUrgent : Proc → Request → Type 0
IsUrgent p r =
    (p ≡ Proc.auth)
    ⊎ (p ≡ Proc.replconf)
    ⊎ ((p ≡ Proc.shutdown) × (r.argc ≡ 2) × (r.initial ≡ b'n'))
    ⊎ ((p ≡ Proc.script) × (r.argc ≡ 2) × (r.initial ≡ b'k'))

-- What the table says of the number of arguments.
abbrev pub HasArity : (arity : ℤ) (argc : ℕ) → Type 0
HasArity (pos n) argc = 0 < n → argc ≡ n
HasArity (negsuc n) argc = suc n ≤ argc

-- The last write of the append only file has gone well, and the last background save too if writes
-- are to stop behind a failed one and there are save points.
abbrev pub Persists : Config → Type 0
Persists g =
    (g.aof_last_write_err ≡ false)
    × (g.stop_writes_on_bgsave_err ≡ true → 0 < g.saveparamslen → g.lastbgsave_err ≡ false)

-- A command that may run, or wait for EXEC.
pub record IsSafe (g : Config) (f : Flags) (r : Request) (cmd : Command) : Type 0 where
  pub arity : HasArity cmd.arity r.argc
  pub authenticated : g.requirepass ≡ true → (f.authenticated ≡ true) ⊎ (cmd.proc ≡ Proc.auth)
  pub memory : g.maxmemory ≡ true → cmd.denyoom ≡ true → g.out_of_memory ≡ false
  pub disk : (cmd.write ≡ true) ⊎ (cmd.proc ≡ Proc.ping) → g.masterhost ≡ false → Persists g
  pub slaves :
      cmd.write ≡ true
      → g.masterhost ≡ false
      → g.repl_min_slaves_to_write ≢ 0
      → g.repl_min_slaves_max_lag ≢ 0
      → g.repl_min_slaves_to_write ≤ g.good_slaves
  pub readonly : cmd.write ≡ true → g.masterhost ≡ true → g.repl_slave_ro ≡ true → f.master ≡ true
  pub subscriber : f.pubsub ≡ true → Among cmd.proc for_subscribers
  pub fresh :
      g.masterhost ≡ true
      → g.repl_connected ≡ false
      → g.repl_serve_stale_data ≡ false
      → cmd.stale ≡ true
  pub loaded : g.loading ≡ true → cmd.loading ≡ true
  pub script : g.lua_timedout ≡ true → IsUrgent cmd.proc r

is_auth_sound : (p : Proc) → is_auth p ≡ true → p ≡ Proc.auth
is_auth_sound Proc.auth h = refl
is_auth_sound p h = cc

is_ping_sound : (p : Proc) → is_ping p ≡ true → p ≡ Proc.ping
is_ping_sound Proc.ping h = refl
is_ping_sound p h = cc

pub not_queued_sound : (p : Proc) → not_queued p ≡ true → Among p at_once
not_queued_sound Proc.exec h = inl refl
not_queued_sound Proc.discard h = inr (inl refl)
not_queued_sound Proc.multi h = inr (inr (inl refl))
not_queued_sound Proc.watch h = inr (inr (inr (inl refl)))
not_queued_sound p h = cc

pub not_queued_complete : (p : Proc) → Among p at_once → not_queued p ≡ true
not_queued_complete p (inl e) = ap not_queued e
not_queued_complete p (inr (inl e)) = ap not_queued e
not_queued_complete p (inr (inr (inl e))) = ap not_queued e
not_queued_complete p (inr (inr (inr (inl e)))) = ap not_queued e
not_queued_complete p (inr (inr (inr (inr h)))) = absurd h

in_pubsub_sound : (p : Proc) → in_pubsub p ≡ true → Among p for_subscribers
in_pubsub_sound Proc.ping h = inl refl
in_pubsub_sound Proc.subscribe h = inr (inl refl)
in_pubsub_sound Proc.unsubscribe h = inr (inr (inl refl))
in_pubsub_sound Proc.psubscribe h = inr (inr (inr (inl refl)))
in_pubsub_sound Proc.punsubscribe h = inr (inr (inr (inr (inl refl))))
in_pubsub_sound p h = cc

in_pubsub_complete : (p : Proc) → Among p for_subscribers → in_pubsub p ≡ true
in_pubsub_complete p (inl e) = ap in_pubsub e
in_pubsub_complete p (inr (inl e)) = ap in_pubsub e
in_pubsub_complete p (inr (inr (inl e))) = ap in_pubsub e
in_pubsub_complete p (inr (inr (inr (inl e)))) = ap in_pubsub e
in_pubsub_complete p (inr (inr (inr (inr (inl e))))) = ap in_pubsub e
in_pubsub_complete p (inr (inr (inr (inr (inr h))))) = absurd h

both_equal : (a b m n : ℕ) → ((a == m && b == n) ≡ true) ↔ ((a ≡ m) × (b ≡ n))
both_equal a b m n = (λ h. (ground arith, ground arith), λ h. ground arith)

in_slow_script_sound : (p : Proc) (r : Request) → in_slow_script p r ≡ true → IsUrgent p r
in_slow_script_sound Proc.auth r h = inl refl
in_slow_script_sound Proc.replconf r h = inr (inl refl)
in_slow_script_sound Proc.shutdown r h =
    let same = (both_equal r.argc r.initial 2 b'n').0 h in inr (inr (inl (refl, same.0, same.1)))
in_slow_script_sound Proc.script r h =
    let same = (both_equal r.argc r.initial 2 b'k').0 h in inr (inr (inr (refl, same.0, same.1)))
in_slow_script_sound p r h = cc

in_slow_script_complete : (p : Proc) (r : Request) → IsUrgent p r → in_slow_script p r ≡ true
in_slow_script_complete p r (inl e) = rw e refl
in_slow_script_complete p r (inr (inl e)) = rw e refl
in_slow_script_complete p r (inr (inr (inl (e, argc, initial)))) =
    rw e ((both_equal r.argc r.initial 2 b'n').1 (argc, initial))
in_slow_script_complete p r (inr (inr (inr (e, argc, initial)))) =
    rw e ((both_equal r.argc r.initial 2 b'k').1 (argc, initial))

pub arity_guard : (arity : ℤ) (argc : ℕ) → (arity_fails arity argc ≡ false) ↔ HasArity arity argc
arity_guard (pos n) argc = (
  λ e h. ground arith,
  λ h. elim (Bool-cases (ltb 0 n)) [
    | inl e ↦ let same = h (ground arith) in ground arith
    | inr e ↦ rw e refl
  ],
)
arity_guard (negsuc n) argc = (λ e. ground arith, λ h. ground arith)

pub auth_guard :
    (a b : Bool) (p : Proc)
    → ((a && not b && not (is_auth p)) ≡ false) ↔ (a ≡ true → (b ≡ true) ⊎ (p ≡ Proc.auth))
auth_guard false b p = (λ e h. absurd (cc), λ h. refl)
auth_guard true true p = (λ e h. inl refl, λ h. refl)
auth_guard true false p = (
  λ e h. inr (is_auth_sound p (ground arith)),
  λ h. elim (h refl) [ inl e ↦ absurd (cc) | inr e ↦ ap (λ q. not (is_auth q)) e ],
)

pub memory_guard : (a b c : Bool) → ((a && b && c) ≡ false) ↔ (a ≡ true → b ≡ true → c ≡ false)
memory_guard true true c = (λ e h h'. e, λ h. h refl refl)
memory_guard true false c = (λ e h h'. absurd (cc), λ h. refl)
memory_guard false b c = (λ e h h'. absurd (cc), λ h. refl)

-- A conjunction that is false, by what makes it true.
refuted : (b : Bool) → (b ≡ true → ⊥) → b ≡ false
refuted false h = refl
refuted true h = absurd (h refl)

asks_disk : (w : Bool) (p : Proc) → ((w || is_ping p) ≡ true) ↔ ((w ≡ true) ⊎ (p ≡ Proc.ping))
asks_disk true p = (λ h. inl refl, λ h. refl)
asks_disk false p =
    (λ h. inr (is_ping_sound p h), λ h. elim h [ inl e ↦ absurd (cc) | inr e ↦ ap is_ping e ])

disk_problem_iff : (g : Config) → (disk_problem g ≡ false) ↔ Persists g
disk_problem_iff g =
    let bgsave =
      memory_guard g.stop_writes_on_bgsave_err (ltb 0 g.saveparamslen) g.lastbgsave_err in
    (
      λ h. (ground arith, λ s n. bgsave.0 (ground arith) s (ground arith)),
      λ h. let first = h.0 in let second = bgsave.1 (λ s n. h.1 s (ground arith)) in ground arith,
    )

pub disk_guard :
    (g : Config) (w : Bool) (p : Proc)
    → ((disk_problem g && not g.masterhost && (w || is_ping p)) ≡ false)
      ↔ ((w ≡ true) ⊎ (p ≡ Proc.ping) → g.masterhost ≡ false → Persists g)
disk_guard g w p = (
  λ e h master. let asked = (asks_disk w p).1 h in (disk_problem_iff g).0 (ground arith),
  λ h. refuted _ (λ e.
      let fine = (disk_problem_iff g).1 (h ((asks_disk w p).0 (ground arith)) (ground arith)) in
      ground arith),
)

pub slaves_guard :
    (g : Config) (w : Bool)
    → ((few_slaves g && w) ≡ false) ↔ (
        w ≡ true
        → g.masterhost ≡ false
        → g.repl_min_slaves_to_write ≢ 0
        → g.repl_min_slaves_max_lag ≢ 0
        → g.repl_min_slaves_to_write ≤ g.good_slaves)
slaves_guard g w = (
  λ e h master some_slaves some_lag.
      let wanted : (g.repl_min_slaves_to_write == 0) ≡ false = ground arith in
      let lag : (g.repl_min_slaves_max_lag == 0) ≡ false = ground arith in ground arith,
  λ h. refuted _ (λ e.
      let enough = h (ground arith) (ground arith) (λ z. ground arith) (λ z. ground arith) in
      ground arith),
)

pub readonly_guard :
    (m ro ma w : Bool)
    → ((m && ro && not ma && w) ≡ false) ↔ (w ≡ true → m ≡ true → ro ≡ true → ma ≡ true)
readonly_guard m ro ma w = (
  λ e h h' h''. ground arith,
  λ h. refuted _ (λ e. let same = h (ground arith) (ground arith) (ground arith) in ground arith),
)

pub fresh_guard :
    (m c s st : Bool)
    → ((m && not c && not s && not st) ≡ false) ↔ (m ≡ true → c ≡ false → s ≡ false → st ≡ true)
fresh_guard m c s st = (
  λ e h h' h''. ground arith,
  λ h. refuted _ (λ e. let same = h (ground arith) (ground arith) (ground arith) in ground arith),
)

pub loaded_guard : (a b : Bool) → ((a && not b) ≡ false) ↔ (a ≡ true → b ≡ true)
loaded_guard a b =
    (λ e h. ground arith, λ h. refuted _ (λ e. let same = h (ground arith) in ground arith))

pub subscriber_guard :
    (a : Bool) (p : Proc)
    → ((a && not (in_pubsub p)) ≡ false) ↔ (a ≡ true → Among p for_subscribers)
subscriber_guard a p =
    let guard = loaded_guard a (in_pubsub p) in
    (λ e h. in_pubsub_sound p (guard.0 e h), λ h. guard.1 (λ e. in_pubsub_complete p (h e)))

pub script_guard :
    (a : Bool) (p : Proc) (r : Request)
    → ((a && not (in_slow_script p r)) ≡ false) ↔ (a ≡ true → IsUrgent p r)
script_guard a p r =
    let guard = loaded_guard a (in_slow_script p r) in
    (
      λ e h. in_slow_script_sound p r (guard.0 e h),
      λ h. guard.1 (λ e. in_slow_script_complete p r (h e)),
    )
