-- ===== src/Tests/Flush.antt =====
-- FLUSHALL at a server with one key.
use redis_allocators.Prelude.{
  ℕ, ◌+◌, ◌<◌, ◌≡◌, ◌^◌, refl, sym, ap, ◌∙◌, true, false, Option, none, some, arith,
}
use redis_allocators.Prelude.Int.{ℤ, pos, ◌+ℤ◌, ◌-ℤ◌, ◌*ℤ◌}
use redis_allocators.Dict.Table.{
  Dict, create, expand_if_needed, expand, skip_empty, next_power, next_power_loop,
}
use redis_allocators.Dict.{
  find, find_entry, add, add_raw, replace, replace_raw, set_entry, generic_delete,
  step_if_rehashing, rehash_step, rehash, rehash_bucket, move_chain,
}
use redis_allocators.Dict.Chains.{find_in, assign_in, erase_in}
use redis_allocators.Keyspace.Interface.{Text}
use redis_allocators.Keyspace.State.{Robj, Server, ok, nullbulk}
use redis_allocators.Keyspace.Fresh.{fresh}
use redis_allocators.Keyspace.Timed.{set_generic}
use redis_allocators.Keyspace.Commands.{to_int64}
use redis_allocators.Keyspace.{
  find_key, find_deadline, add_key, replace_key, delete_key, replace_deadline, delete_deadline,
  tell, make_dirty, mstime, touch, lookup_key, get_expire, db_delete, propagate_expire,
  expire_if_needed, lookup_key_read, lookup_key_write, db_add, db_overwrite, db_exists,
  remove_expire, set_expire, set_key,
}
use redis_allocators.Keyspace.Flush.{Saving, flushall_command}
use redis_allocators.Keyspace.Yields.{Yields}
use redis_allocators.Keyspace.Emptied.{sizes}
use redis_allocators.Keyspace.Flushed.{flushed_all, flushall_command-Yields}
use redis_allocators.Tests.Keyspace.{now_and_then, values, times, one_key, stored, server, key_a}

abbrev saving : Saving
saving = record { rdb_child = true; save_points = true; saves = true }

-- The changes so far, and the entries.
abbrev changes : Server (Dict Text Robj) (Dict Text ℤ) → ℕ
changes s = s.dirty + sizes values s.db 16 0

changes_of : Option (Unit {0} × Server (Dict Text Robj) (Dict Text ℤ)) → ℕ
changes_of none = 0
changes_of (some (_, s)) = changes s

-- SET with a deadline has made one change, and the dictionary has one entry.
run_changes :
    changes_of (
      set_generic values times now_and_then 0 key_a 5
        (some (some (pos 10)))
        true
        false
        false
        ok
        nullbulk
        fresh)
    ≡ 2
unfolding changes_of sizes to_int64 set_generic find_key find_deadline add_key replace_key
    delete_key replace_deadline delete_deadline tell make_dirty mstime touch lookup_key get_expire
    db_delete propagate_expire expire_if_needed lookup_key_read lookup_key_write db_add db_overwrite
    db_exists remove_expire set_expire set_key create find find_entry add add_raw replace
    replace_raw set_entry generic_delete expand_if_needed expand step_if_rehashing rehash_step
    rehash rehash_bucket move_chain skip_empty next_power next_power_loop find_in assign_in erase_in
    ◌+ℤ◌ ◌-ℤ◌ ◌*ℤ◌
run_changes = refl

server_changes : changes server ≡ 2
unfolding changes_of
server_changes = sym (ap changes_of stored.runs) ∙ run_changes

few_changes : one_key.dirty + sizes values server.db 16 0 < 2 ^ 31
few_changes = let same = stored.shows.dirty in omega (arith, server_changes, same)

flushall_command-Yields_example :
    Yields values times now_and_then
      (flushall_command values times now_and_then saving)
      server
      tt
      (flushed_all now_and_then saving one_key (sizes values server.db 16 0))
flushall_command-Yields_example = flushall_command-Yields saving stored.shows (λ on. few_changes)
