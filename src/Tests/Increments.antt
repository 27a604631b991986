-- ===== src/Tests/Increments.antt =====
-- INCR and DECRBY at concrete inputs, over objects that tell their number.
use redis_allocators.Prelude.{
  ◌+◌, ◌*◌, ◌/◌, ◌%◌, ◌^◌, ◌-◌, ◌==◌, ◌≡◌, refl, subst, true, false, not, some, List, [], ◌∷◌,
  if◌then◌else◌, arith, Bool-cases, inl, inr,
}
use redis_allocators.Prelude.Int.{ℤ, pos, negsuc, ◌+ℤ◌, ◌-ℤ◌, ◌*ℤ◌}
use redis_allocators.Util.Decimal.{IsInt64}
use redis_allocators.Rdb.{Object, raw, int}
use redis_allocators.Keyspace.Interface.{Text}
use redis_allocators.Keyspace.Numbers.{
  Objects, Libc, llong_min, llong_max, overflows, incr_decr_command,
}
use redis_allocators.Keyspace.Overflow.{overflows-fits, fits, fits-IsInt64}
use redis_allocators.Keyspace.State.{Robj, colon, crlf, plain, would_overflow, Setting, Server}
use redis_allocators.Keyspace.{
  mstime, find_key, find_deadline, add_key, replace_key, delete_key, replace_deadline,
  delete_deadline, tell, make_dirty, touch, lookup_key, get_expire, db_delete, propagate_expire,
  expire_if_needed, lookup_key_read, lookup_key_write, db_add, db_overwrite, db_exists,
  remove_expire, set_expire, set_key,
}
use redis_allocators.Dict.Table.{
  Dict, create, expand_if_needed, expand, skip_empty, next_power, next_power_loop,
}
use redis_allocators.Dict.{
  find, find_entry, add, add_raw, replace, replace_raw, set_entry, generic_delete,
  step_if_rehashing, rehash_step, rehash, rehash_bucket, move_chain,
}
use redis_allocators.Dict.Chains.{find_in, assign_in, erase_in}
use redis_allocators.Keyspace.Commands.{to_int64}
use redis_allocators.Keyspace.Fresh.{fresh}
use redis_allocators.Keyspace.Spec.{deadline_of, read, expire}
use redis_allocators.Keyspace.Increments.{incr_decr_command-Adds}
use redis_allocators.Keyspace.Session.{Command, do_incr, do_decrby, perform_all}
use redis_allocators.Tests.Keyspace.{
  now_and_then, values, times, key_a, replies_of, one_key, stored, server,
}

abbrev number : Robj → ℤ
number o = if o % 2 == 0 then pos (o / 2) else negsuc (o / 2)

abbrev text_of : Robj → Object
text_of o = if fits (number o) then int (number o) else raw []

abbrev object_of : ℤ → Robj
object_of (pos n) = n * 2
object_of (negsuc n) = n * 2 + 1

number-object_of : (v : ℤ) → number (object_of v) ≡ v
number-object_of (pos n) = ground arith
number-object_of (negsuc n) = ground arith

text_of-object_of : (v : ℤ) → IsInt64 v → text_of (object_of v) ≡ int v
text_of-object_of v small =
    let room : fits v ≡ true = ground arith in rw (number-object_of v, room) refl

text_of-in_range : (o : Robj) (v : ℤ) → text_of o ≡ int v → IsInt64 v
text_of-in_range o v h = elim (Bool-cases (fits (number o))) [
  | inl room ↦
      let same : int (number o) ≡ int v = rw room at h in
      let same' : number o ≡ v = cc in subst IsInt64 same' (fits-IsInt64 (number o) room)
  | inr over ↦ let no_number : raw [] ≡ int v = rw over at h in cc
]

abbrev objects : Objects
objects = record {
  string = text_of;
  shared = λ n. n * 2;
  created = object_of;
  string-shared = λ n small. text_of-object_of (pos n) (omega arith);
  string-created = text_of-object_of;
  in_range = text_of-in_range;
}

-- A `strtoll` that reads no digits.
abbrev pub libc : Libc
libc = record {
  strtoll = record { value = λ _. pos 0; stop = λ _. 0; in_range = λ _. omega arith };
  erange = λ _. false;
  isspace = λ b. b == 32;
}

abbrev strings : Setting
strings = record now_and_then { is_string = λ _. true }

-- What the replies say about 0 - LLONG_MIN: the sum with LLONG_MIN is stored.
abbrev least_script : List (Setting × Command)
least_script =
    (strings, do_decrby libc objects 0 key_a (object_of llong_min))
    ∷ (strings, do_incr libc objects 0 key_a true)
    ∷ (strings, do_incr libc objects 0 key_a false)
    ∷ []

least_replies :
    replies_of (perform_all values times least_script fresh)
    ≡ some (
        colon
        ∷ plain (object_of llong_min)
        ∷ crlf
        ∷ would_overflow
        ∷ colon
        ∷ plain (object_of (negsuc (2 ^ 63 - 2)))
        ∷ crlf
        ∷ [])
unfolding perform_all incr_decr_command to_int64 find_key find_deadline add_key replace_key
    delete_key replace_deadline delete_deadline tell make_dirty mstime touch lookup_key get_expire
    db_delete propagate_expire expire_if_needed lookup_key_read lookup_key_write db_add db_overwrite
    db_exists remove_expire set_expire set_key create find find_entry add add_raw replace
    replace_raw set_entry generic_delete expand_if_needed expand step_if_rehashing rehash_step
    rehash rehash_bucket move_chain skip_empty next_power next_power_loop find_in assign_in erase_in
    ◌+ℤ◌ ◌-ℤ◌ ◌*ℤ◌
least_replies = refl

-- The object 5 holds -3.
incr_decr_command-Adds_example :
    (s : Server (Dict Text Robj) (Dict Text ℤ)) × (v : Robj) × (incr_decr_command values times
        strings libc objects 0 key_a
        (pos 7)
        server
      ≡ some (tt, s))
    × (values.view (s.db 0).dict key_a ≡ some v)
    × (text_of v ≡ int (pos 4))
    × (times.view (s.db 0).expires key_a
        ≡ deadline_of ((read strings one_key 0 key_a).1.keys 0 key_a))
unfolding expire to_int64 ◌+ℤ◌ ◌-ℤ◌ ◌*ℤ◌
incr_decr_command-Adds_example =
    incr_decr_command-Adds values times strings libc objects server one_key 0 key_a (pos 7)
      (negsuc 2) stored.shows (omega arith) refl refl refl

overflows-fits_example : overflows (pos 1) llong_max ≡ not (fits (llong_max +ℤ pos 1))
overflows-fits_example = overflows-fits (pos 1) llong_max (omega arith) (omega arith)
