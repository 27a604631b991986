-- ===== src/Keyspace/Session.antt =====
-- Commands in a row, each under the settings of its moment.
use redis_allocators.Prelude.{
  true, false, arith, if◌then◌else◌, length, ℕ, ◌≡◌, refl, Bool, Option, none, some, List, [], ◌∷◌,
}
use redis_allocators.Prelude.Int.{ℤ, pos}
use redis_allocators.Keyspace.Interface.{Text, Dictionary}
use redis_allocators.Keyspace.Spec.{Contents}
use redis_allocators.Keyspace.Yields.{Yields}
use redis_allocators.Keyspace.Shows.{Shows}
use redis_allocators.Keyspace.Removals.{exists_command-Yields, del_command-Yields}
use redis_allocators.Keyspace.Moves.{rename_generic-Yields, move_command-Yields}
use redis_allocators.Keyspace.Times.{
  expire_generic-Yields, expire_command-Yields, ttl_generic-Yields, persist_command-Yields,
}
use redis_allocators.Keyspace.Options.{no_options, read_options, set_command}
use redis_allocators.Keyspace.Spelled.{set_as, set_command_any-Yields}
use redis_allocators.Keyspace.Sets.{set_generic-Yields}
use redis_allocators.Keyspace.Timed.{
  expire_generic, expire_command, ttl_generic, persist_command, set_generic,
}
use redis_allocators.Keyspace.Commands.{
  del_command, exists_command, rename_generic, move_command, select_db,
}
use redis_allocators.Keyspace.Described.{
  reply, timed, del, exists, rename, move_into, expire_key, ttl, persist, set_key_to,
}
use redis_allocators.Keyspace.Strings.{get_command, getset_command, mget_command, mset_generic}
use redis_allocators.Keyspace.Multiples.{mget_command-Yields, mset_generic-Yields}
use redis_allocators.Keyspace.Texts.{
  get, getset, mget_all, mset, get_command-Yields, getset_command-Yields,
}
use redis_allocators.Keyspace.Numbers.{
  Libc, Objects, incr_command, decr_command, incrby_command, decrby_command,
}
use redis_allocators.Keyspace.Sums.{increase, increase_by, number_of, negated}
use redis_allocators.Keyspace.Increments.{
  incr_decr_command-Yields, incrby_command-Yields, decrby_command-Yields,
}
use redis_allocators.Keyspace.State.{minus_one, Robj, multi_bulk_len, Reply, Setting, Server}
use redis_allocators.Keyspace.{Step}

pub data Command : Type 0 where
  do_del : ℕ → List Text → Command
  do_exists : ℕ → Text → Command
  do_rename : ℕ → Text → Text → (nx : Bool) → Command
  do_move : ℕ → Text → Option ℤ → Command
  do_expire : ℕ → Text → Option ℤ → (seconds : Bool) → Command
  do_expireat : ℕ → Text → Option ℤ → (seconds : Bool) → Command
  do_ttl : ℕ → Text → (output_ms : Bool) → Command
  do_persist : ℕ → Text → Command
  do_get : ℕ → Text → Command
  do_getset : ℕ → Text → Robj → Command
  do_mget : ℕ → List Text → Command
  do_mset : ℕ → List (Text × Robj) → (dangling nx : Bool) → Command
  do_incr : Libc → Objects → ℕ → Text → (down : Bool) → Command
  do_incrby do_decrby : Libc → Objects → ℕ → Text → (arg : Robj) → Command
  do_set_args : Libc → ℕ → Text → Robj → (args : List Text) → Command
  do_set : ℕ → Text → Robj → Option (Option ℤ) → (seconds nx xx : Bool) → Reply → Reply → Command

-- What a command promises.
abbrev pub promised : Setting → Command → Contents → Contents
promised c (do_del d ks) x = del c x d ks
promised c (do_exists d k) x = exists c x d k
promised c (do_rename d k k' nx) x = rename c x d k k' nx
promised c (do_move d k dbid) x = move_into c x d k (select_db c dbid)
promised c (do_expire d k n seconds) x = expire_key c (timed x) d k n (c.mstime x.readings) seconds
promised c (do_expireat d k n seconds) x = expire_key c x d k n (pos 0) seconds
promised c (do_ttl d k output_ms) x = ttl c x d k output_ms
promised c (do_persist d k) x = persist c x d k
promised c (do_get d k) x = (get c x d k).1
promised c (do_getset d k v) x = getset c x d k v
promised c (do_mget d ks) x = mget_all c (reply x (multi_bulk_len (length ks))) d ks
promised c (do_mset d l dangling nx) x = mset c x d l dangling nx
promised c (do_incr libc objects d k down) x =
    increase c libc objects x d k (if down then minus_one else pos 1)
promised c (do_incrby libc objects d k arg) x =
    increase_by c libc objects x d k (number_of libc objects arg)
promised c (do_decrby libc objects d k arg) x =
    increase_by c libc objects x d k (negated (number_of libc objects arg))
promised c (do_set_args libc d k v args) x = set_as c libc x d k v (read_options args no_options)
promised c (do_set d k v e seconds nx xx r r') x = set_key_to c x d k v e seconds nx xx r r'

unfoldable pub promised_all : List (Setting × Command) → Contents → Contents
promised_all [] x = x
promised_all (e ∷ l) x = promised_all l (promised e.0 e.1 x)

module _ {D E : Type 0} (keys : Dictionary D Robj) (deadlines : Dictionary E ℤ) where
  abbrev pub perform : (c : Setting) → Command → Step keys deadlines c Unit
  perform c (do_del d ks) = del_command keys deadlines c d ks
  perform c (do_exists d k) = exists_command keys deadlines c d k
  perform c (do_rename d k k' nx) = rename_generic keys deadlines c d k k' nx
  perform c (do_move d k dbid) = move_command keys deadlines c d k dbid
  perform c (do_expire d k n seconds) = expire_command keys deadlines c d k n seconds
  perform c (do_expireat d k n seconds) = expire_generic keys deadlines c d k n (pos 0) seconds
  perform c (do_ttl d k output_ms) = ttl_generic keys deadlines c d k output_ms
  perform c (do_persist d k) = persist_command keys deadlines c d k
  perform c (do_get d k) = get_command keys deadlines c d k
  perform c (do_getset d k v) = getset_command keys deadlines c d k v
  perform c (do_mget d ks) = mget_command keys deadlines c d ks
  perform c (do_mset d l dangling nx) = mset_generic keys deadlines c d l dangling nx
  perform c (do_incr libc objects d k down) =
      if down
      then decr_command keys deadlines c libc objects d k
      else incr_command keys deadlines c libc objects d k
  perform c (do_incrby libc objects d k arg) = incrby_command keys deadlines c libc objects d k arg
  perform c (do_decrby libc objects d k arg) = decrby_command keys deadlines c libc objects d k arg
  perform c (do_set_args libc d k v args) = set_command keys deadlines c libc d k v args
  perform c (do_set d k v e seconds nx xx r r') =
      set_generic keys deadlines c d k v e seconds nx xx r r'

  -- `none` if a command aborts.
  unfoldable pub perform_all : List (Setting × Command) → Server D E → Option (Server D E)
  perform_all [] s = some s
  perform_all (e ∷ l) s = elim (perform e.0 e.1 s) [ none ↦ none | some r ↦ perform_all l r.1 ]

  perform-Yields :
      (c : Setting) (cmd : Command) {s : Server D E} {x : Contents}
      → Shows keys deadlines s x
      → Yields keys deadlines c (perform c cmd) s tt (promised c cmd x)
  perform-Yields c (do_del d ks) shows = del_command-Yields shows d ks
  perform-Yields c (do_exists d k) shows = exists_command-Yields shows d k
  perform-Yields c (do_rename d k k' nx) shows = rename_generic-Yields shows d k k' nx
  perform-Yields c (do_move d k dbid) shows = move_command-Yields shows d k dbid
  perform-Yields c (do_expire d k n seconds) shows = expire_command-Yields shows d k n seconds
  perform-Yields c (do_expireat d k n seconds) shows =
      expire_generic-Yields shows d k n (pos 0) seconds
  perform-Yields c (do_ttl d k output_ms) shows = ttl_generic-Yields shows d k output_ms
  perform-Yields c (do_persist d k) shows = persist_command-Yields shows d k
  perform-Yields c (do_get d k) shows = get_command-Yields shows d k
  perform-Yields c (do_getset d k v) shows = getset_command-Yields shows d k v
  perform-Yields c (do_mget d ks) shows = mget_command-Yields shows d ks
  perform-Yields c (do_mset d l dangling nx) shows = mset_generic-Yields shows d l dangling nx
  perform-Yields c (do_incr libc objects d k true) {s = s} {x = x} shows =
      incr_decr_command-Yields libc objects s x d k minus_one shows (omega arith)
  perform-Yields c (do_incr libc objects d k false) {s = s} {x = x} shows =
      incr_decr_command-Yields libc objects s x d k (pos 1) shows (omega arith)
  perform-Yields c (do_incrby libc objects d k arg) {s = s} {x = x} shows =
      incrby_command-Yields libc objects s x d k arg shows
  perform-Yields c (do_decrby libc objects d k arg) {s = s} {x = x} shows =
      decrby_command-Yields libc objects s x d k arg shows
  perform-Yields c (do_set_args libc d k v args) shows =
      set_command_any-Yields libc d k v args shows
  perform-Yields c (do_set d k v e seconds nx xx r r') shows =
      set_generic-Yields shows d k v e seconds nx xx r r'

  -- From a server that shows contents, no sequence of commands aborts, whatever the settings and the
  -- times: the server then shows what the commands promise.
  pub perform_all-Shows :
      (l : List (Setting × Command)) (s : Server D E) (x : Contents)
      → Shows keys deadlines s x
      → (s' : Server D E) × (perform_all l s ≡ some s') × Shows keys deadlines s' (promised_all l x)
  unfolding perform_all promised_all
  perform_all-Shows [] s x shows = (s, refl, shows)
  perform_all-Shows (e ∷ l) s x shows =
      let first = perform-Yields e.0 e.1 shows in
      let (s', runs, shown) = perform_all-Shows l first.after (promised e.0 e.1 x) first.shows in
      (s', (rw (first.runs, perform_all) runs), shown)
