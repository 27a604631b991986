-- ===== src/Tests/Slowlog.antt =====
-- slowlog.c: a log of two entries, and the theorems at it.
use redis_allocators.Prelude.{◌≤◌, ◌≡◌, refl, true, List, [], ◌∷◌, length, take, map}
use redis_allocators.Prelude.Int.{pos}
use redis_allocators.Slowlog.{
  Arg, raw, other, Slowlog, create_entry, push_entry_if_needed, trim, delete_last,
}
use redis_allocators.Slowlog.Bounded.{
  push_entry_if_needed-take, push_entry_if_needed-descending, descending,
}

abbrev empty : Slowlog
empty = record { entries = []; entry_id = 7; log_slower_than = pos 100; max_len = 2 }

abbrev get : List Arg
get = raw (0x47 ∷ 0x45 ∷ 0x54 ∷ []) ∷ other 1 ∷ []

abbrev three_calls : Slowlog
three_calls =
    push_entry_if_needed
      (push_entry_if_needed (push_entry_if_needed empty get (pos 100) 1) get (pos 300) 2) get
      (pos 200) 3

ids : map (λ e. e.id) three_calls.entries ≡ 9 ∷ 8 ∷ []
unfolding push_entry_if_needed create_entry trim delete_last
ids = refl

push_entry_if_needed-take_example :
    (push_entry_if_needed empty get (pos 500) 4).entries
    ≡ take 2 (create_entry get (pos 500) 4 7 ∷ [])
push_entry_if_needed-take_example = push_entry_if_needed-take empty get (pos 500) 4 refl

ordered : descending 7 [] ≡ true
unfolding descending
ordered = refl

push_entry_if_needed-descending_example :
    let s' = push_entry_if_needed empty get (pos 500) 4 in
    (descending s'.entry_id s'.entries ≡ true) × (length s'.entries ≤ 2)
push_entry_if_needed-descending_example =
    push_entry_if_needed-descending empty get (pos 500) 4 refl ordered
