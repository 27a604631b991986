-- ===== src/Slowlog.antt =====
-- slowlog.c: the log of slow commands, newest first, with a bound on its length.
pub mod Bounded
pub mod Args
use redis_allocators.Prelude.{
  ℕ, zero, suc, ◌+◌, ◌-◌, ◌<◌, Bool, true, false, not, ◌&&◌, Option, none, some, List, [], ◌∷◌,
  ◌==◌, ltb, leb, if◌then◌else◌, length, take,
}
use redis_allocators.Prelude.Int.{ℤ, pos, negsuc, ltb_ℤ}

-- An argument of a command: a string in raw encoding, or another object.
pub data Arg : Type 0 where
  raw : List ℕ → Arg
  other : ℕ → Arg

-- What the log keeps: the argument itself, or one of the two texts of `sdscatprintf`, "... (%d more
-- arguments)" and the first bytes with "... (%lu more bytes)".
pub data LogArg : Type 0 where
  kept : Arg → LogArg
  more_arguments : ℕ → LogArg
  more_bytes : List ℕ → ℕ → LogArg

abbrev pub slowlog_entry_max_argc : ℕ
slowlog_entry_max_argc = 32

abbrev pub slowlog_entry_max_string : ℕ
slowlog_entry_max_string = 128

-- `slowlogEntry`; `argc` is the length of `argv`.
pub record Entry : Type 0 where
  pub argv : List LogArg
  pub id : ℕ
  pub duration : ℤ
  pub time : ℕ

-- The part of the server's state that the log has. Lengths and identifiers stay below `2 ^ 63`.
pub record Slowlog : Type 0 where
  pub entries : List Entry
  pub entry_id : ℕ
  pub log_slower_than : ℤ
  pub max_len : ℕ

unfoldable pub log_arg : Arg → LogArg
log_arg (raw s) =
    if ltb slowlog_entry_max_string (length s)
    then more_bytes (take slowlog_entry_max_string s) (length s - slowlog_entry_max_string)
    else kept (raw s)
log_arg (other o) = kept (other o)

-- The loop over the arguments, with the number of rounds left.
unfoldable pub log_args : ℕ → ℕ → ℕ → List Arg → List LogArg
log_args zero slargc argc args = []
log_args (suc left) slargc argc [] = []
log_args (suc left) slargc argc (a ∷ args) =
    (if not (slargc == argc) && left == 0 then more_arguments (argc - slargc + 1) else log_arg a)
    ∷ log_args left slargc argc args

-- `slowlogCreateEntry`, for the time that `time()` returns.
unfoldable pub create_entry : List Arg → ℤ → ℕ → ℕ → Entry
create_entry argv duration now id =
    let argc = length argv in
    let slargc = if ltb slowlog_entry_max_argc argc then slowlog_entry_max_argc else argc in
    record { argv = log_args slargc slargc argc argv; id = id; duration = duration; time = now }

-- `listDelNode(list, listLast(list))`
unfoldable pub delete_last : List Entry → List Entry
delete_last [] = []
delete_last (e ∷ []) = []
delete_last (e ∷ f ∷ rest) = e ∷ delete_last (f ∷ rest)

-- The loop that removes old entries; each round makes the log shorter.
unfoldable pub trim : ℕ → ℕ → List Entry → List Entry
trim zero max_len es = es
trim (suc rounds) max_len es =
    let rest = trim rounds max_len (delete_last es) in if ltb max_len (length es) then rest else es

-- `slowlogPushEntryIfNeeded`
unfoldable pub push_entry_if_needed : Slowlog → List Arg → ℤ → ℕ → Slowlog
push_entry_if_needed s argv duration now =
    let logged = not (ltb_ℤ duration s.log_slower_than) in
    let es = if logged then create_entry argv duration now s.entry_id ∷ s.entries else s.entries in
    if ltb_ℤ s.log_slower_than (pos 0) then s else record s {
      entries = trim (length es) s.max_len es;
      entry_id = if logged then s.entry_id + 1 else s.entry_id;
    }

-- `slowlogReset`
unfoldable pub reset : Slowlog → Slowlog
reset s = record s { entries = trim (length s.entries) 0 s.entries }
