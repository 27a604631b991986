-- ===== src/Tests/Keyspace.antt =====
-- db.c at concrete inputs: a run of commands, and the theorems at a server with one key.
use redis_allocators.Prelude.{
  ◌<◌, ◌==◌, ℕ, ◌+◌, ◌*◌, ◌%◌, ◌^◌, arith, ◌≡◌, ◌⊎◌, refl, true, false, Option, none, some, List,
  [], ◌∷◌, length,
}
use redis_allocators.Prelude.Int.{ℤ, pos, negsuc, ltb_ℤ, ◌+ℤ◌, ◌-ℤ◌, ◌*ℤ◌}
use redis_allocators.Dict.Table.{
  Dict, create, expand_if_needed, expand, skip_empty, next_power, next_power_loop,
}
use redis_allocators.Dict.{
  find, find_entry, add, add_raw, replace, replace_raw, set_entry, generic_delete,
  step_if_rehashing, rehash_step, rehash, rehash_bucket, move_chain,
}
use redis_allocators.Dict.Chains.{find_in, assign_in, erase_in}
use redis_allocators.Prelude.Eq.{nat_eq, list_eq, count}
use redis_allocators.Keyspace.Interface.{Text, Dictionary}
use redis_allocators.Keyspace.Tables.{of_dict}
use redis_allocators.Keyspace.Spec.{Contents, expire}
use redis_allocators.Keyspace.Yields.{Yields}
use redis_allocators.Keyspace.Shows.{Shows}
use redis_allocators.Keyspace.Expiry.{expire_if_needed-Yields}
use redis_allocators.Keyspace.Moves.{rename_generic-Yields}
use redis_allocators.Keyspace.Sets.{set_generic-Yields}
use redis_allocators.Keyspace.Timed.{set_generic, ttl_generic, persist_command}
use redis_allocators.Keyspace.Commands.{del_command, to_int64, rename_generic, exists_command}
use redis_allocators.Keyspace.Described.{rename, set_key_to}
use redis_allocators.Keyspace.Session.{
  Command, do_set, do_mset, do_get, do_getset, do_rename, do_ttl, do_exists, do_persist,
  perform_all, promised_all, perform_all-Shows,
}
use redis_allocators.Keyspace.Fresh.{fresh, nothing, fresh-Shows, lookup_key_read-fresh}
use redis_allocators.Keyspace.Gone.{del_command-gone}
use redis_allocators.Keyspace.Strings.{
  get_generic, get_command, getset_command, busy_keys, mset_each, mset_generic,
}
use redis_allocators.Keyspace.State.{
  Robj, Reply, bulk, wrongtypeerr, ok, cone, czero, nullbulk, integer, Event, replied, Setting,
  Server,
}
use redis_allocators.Keyspace.{
  mstime, find_key, find_deadline, add_key, replace_key, delete_key, replace_deadline,
  delete_deadline, tell, make_dirty, touch, lookup_key, get_expire, db_delete, propagate_expire,
  expire_if_needed, lookup_key_read, lookup_key_write, db_add, db_overwrite, db_exists,
  remove_expire, set_expire, set_key,
}

-- The clock goes on by 4 seconds between its readings.
abbrev pub now_and_then : Setting
now_and_then = record {
  dict_can_resize = true;
  loading = false;
  masterhost = false;
  lua_caller = false;
  lua_time_start = pos 0;
  aof_on = true;
  saving = false;
  lruclock = 7;
  dbnum = 16;
  mstime = λ n. pos (1000 + n * 4000);
  is_list = λ _. false;
  is_string = λ v. v == 5;
}

abbrev pub by_length : Text → ℕ
by_length k = length k % 2 ^ 31

pub by_length_small : (k : Text) → by_length k < 2 ^ 31
by_length_small k = omega arith

abbrev pub values : Dictionary (Dict Text Robj) Robj
values = of_dict by_length by_length_small Robj

abbrev pub times : Dictionary (Dict Text ℤ) ℤ
times = of_dict by_length by_length_small ℤ

abbrev pub key_a : Text
key_a = b'a' ∷ []

abbrev pub key_b : Text
key_b = b'b' ∷ []

abbrev pub replies : List Event → List Reply
replies [] = []
replies (replied r ∷ l) = r ∷ replies l
replies (_ ∷ l) = replies l

abbrev pub replies_of : Option (Server (Dict Text Robj) (Dict Text ℤ)) → Option (List Reply)
replies_of none = none
replies_of (some s) = some (replies s.events)

abbrev script : List (Setting × Command)
script =
    (now_and_then, do_set 0 key_a 5 (some (some (pos 10))) true false false ok nullbulk)
    ∷ (now_and_then, do_rename 0 key_a key_b false)
    ∷ (now_and_then, do_ttl 0 key_b false)
    ∷ (now_and_then, do_exists 0 key_b)
    ∷ (now_and_then, do_mset 0 ((key_a, 5) ∷ (key_b, 6) ∷ []) false true)
    ∷ (now_and_then, do_mset 0 ((key_b, 7) ∷ []) false true)
    ∷ (now_and_then, do_get 0 key_a)
    ∷ (now_and_then, do_getset 0 key_b 5)
    ∷ []

-- The deadline goes along with RENAME, and the key expires in the end. MSETNX sets all keys or none.
script_replies :
    replies_of (perform_all values times script fresh)
    ≡ some (ok ∷ ok ∷ integer (pos 0) ∷ czero ∷ cone ∷ czero ∷ bulk 5 ∷ wrongtypeerr ∷ [])
unfolding perform_all get_generic get_command getset_command busy_keys mset_each mset_generic
    to_int64 rename_generic set_generic ttl_generic exists_command find_key find_deadline add_key
    replace_key delete_key replace_deadline delete_deadline tell make_dirty mstime touch lookup_key
    get_expire db_delete propagate_expire expire_if_needed lookup_key_read lookup_key_write db_add
    db_overwrite db_exists remove_expire set_expire set_key create find find_entry add add_raw
    replace replace_raw set_entry generic_delete expand_if_needed expand step_if_rehashing
    rehash_step rehash rehash_bucket move_chain skip_empty next_power next_power_loop find_in
    assign_in erase_in ◌+ℤ◌ ◌-ℤ◌ ◌*ℤ◌ persist_command
script_replies = refl

-- PERSIST of a key that has expired, and has not been looked up since: the key stays for ever.
abbrev late_script : List (Setting × Command)
late_script =
    (now_and_then, do_set 0 key_a 5 (some (some (pos 10))) false false false ok nullbulk)
    ∷ (now_and_then, do_persist 0 key_a)
    ∷ (now_and_then, do_ttl 0 key_a false)
    ∷ (now_and_then, do_exists 0 key_a)
    ∷ []

late_replies :
    replies_of (perform_all values times late_script fresh)
    ≡ some (ok ∷ cone ∷ integer (negsuc 0) ∷ cone ∷ [])
unfolding perform_all to_int64 rename_generic set_generic ttl_generic exists_command find_key
    find_deadline add_key replace_key delete_key replace_deadline delete_deadline tell make_dirty
    mstime touch lookup_key get_expire db_delete propagate_expire expire_if_needed lookup_key_read
    lookup_key_write db_add db_overwrite db_exists remove_expire set_expire set_key create find
    find_entry add add_raw replace replace_raw set_entry generic_delete expand_if_needed expand
    step_if_rehashing rehash_step rehash rehash_bucket move_chain skip_empty next_power
    next_power_loop find_in assign_in erase_in ◌+ℤ◌ ◌-ℤ◌ ◌*ℤ◌ persist_command
late_replies = refl

-- A server with one key, which has a deadline.
abbrev pub one_key : Contents
one_key =
    set_key_to now_and_then nothing 0 key_a 5 (some (some (pos 10))) true false false ok nullbulk

abbrev pub stored :
    Yields values times now_and_then
      (set_generic values times now_and_then 0 key_a 5
        (some (some (pos 10)))
        true
        false
        false
        ok
        nullbulk)
      fresh
      tt
      one_key
stored =
    set_generic-Yields (fresh-Shows by_length by_length_small) 0 key_a 5 (some (some (pos 10))) true
      false false ok nullbulk

abbrev pub server : Server (Dict Text Robj) (Dict Text ℤ)
server = stored.after

expire_if_needed-Yields_example :
    Yields values times now_and_then
      (expire_if_needed values times now_and_then 0 key_a)
      server
      (expire now_and_then one_key 0 key_a).0
      (expire now_and_then one_key 0 key_a).1
expire_if_needed-Yields_example = expire_if_needed-Yields stored.shows 0 key_a

rename_generic-Yields_example :
    Yields values times now_and_then
      (rename_generic values times now_and_then 0 key_a key_b true)
      server
      tt
      (rename now_and_then one_key 0 key_a key_b true)
rename_generic-Yields_example = rename_generic-Yields stored.shows 0 key_a key_b true

perform_all-Shows_example :
    (s : Server (Dict Text Robj) (Dict Text ℤ)) × (perform_all values times script server ≡ some s)
    × Shows values times s (promised_all script one_key)
perform_all-Shows_example = perform_all-Shows values times script server one_key stored.shows

lookup_key_read-fresh_example :
    (o : Option Robj) × (s : Server (Dict Text Robj) (Dict Text ℤ)) × (lookup_key_read values times
        now_and_then 0 key_a server
      ≡ some (o, s))
    × (values.view (s.db 0).dict key_a ≡ o)
    × ((when : ℤ)
        → times.view (s.db 0).expires key_a ≡ some when
        → (ltb_ℤ when (pos 0) ≡ true) ⊎ (ltb_ℤ when (pos (1000 + server.readings * 4000)) ≡ false))
lookup_key_read-fresh_example =
    lookup_key_read-fresh values times now_and_then server one_key 0 key_a stored.shows refl refl

del_command-gone_example :
    (s : Server (Dict Text Robj) (Dict Text ℤ)) × (del_command values times now_and_then 0
        (key_b ∷ key_a ∷ [])
        server
      ≡ some (tt, s))
    × ((k : Text) → 0 < count k (key_b ∷ key_a ∷ []) → values.view (s.db 0).dict k ≡ none)
del_command-gone_example =
    del_command-gone values times now_and_then server one_key 0 (key_b ∷ key_a ∷ []) stored.shows
