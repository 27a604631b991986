-- ===== src/Tests/Dict.antt =====
-- dict.c: a dictionary that grows and rehashes while it is filled, and the theorems at it.
use redis_allocators.Prelude.{
  ℕ, ◌≡◌, ◌<◌, ◌≤◌, ◌⊎◌, ◌*◌, ◌^◌, ◌%◌, refl, true, false, none, some, ◌==◌, arith, ap,
}
use redis_allocators.Dict.Keys.{DictType}
use redis_allocators.Dict.Chains.{find_in, erase_in}
use redis_allocators.Dict.Valid.{IsValid, view, create-IsValid}
use redis_allocators.Dict.Rehash.{Keeps, rehash_finishes}
use redis_allocators.Dict.Grow.{next_power_lem, resize-Keeps}
use redis_allocators.Dict.Update.{Adds, Updates, is_none, add-Adds, add_indexed-Adds}
use redis_allocators.Dict.Small.{IsSmall, ready, hash-HasIndex}
use redis_allocators.Dict.Delete.{Deletes, generic_delete-Deletes}
use redis_allocators.Dict.Replace.{replace-Updates}
use redis_allocators.Dict.Table.{
  Dict, create, resize, expand_if_needed, is_rehashing, next_power, skip_empty, expand,
  next_power_loop,
}
use redis_allocators.Dict.{
  add, replace, generic_delete, rehash, add_raw, step_if_rehashing, rehash_step, rehash_bucket,
  move_chain, find_entry,
}

eq_refl : (a : ℕ) → (a == a) ≡ true
eq_refl a = ground arith

eq_symm : (a b : ℕ) → (a == b) ≡ (b == a)
eq_symm a b = ground arith

eq_trans : (a b c : ℕ) → (a == b) ≡ true → (b == c) ≡ true → (a == c) ≡ true
eq_trans a b c h h' = ground arith

remainder_eq : (a b : ℕ) → (a == b) ≡ true → a % 2 ^ 32 ≡ b % 2 ^ 32
remainder_eq a b h = let same : a ≡ b = ground arith in ap (λ n. n % 2 ^ 32) same

instance abbrev Numbers : DictType ℕ ℕ
Numbers = record {
  hash = λ k. k % 2 ^ 32;
  compare_keys = λ a b. a == b;
  key_dup = λ k. k;
  val_dup = λ v. v;
  compare_refl = eq_refl;
  compare_symm = eq_symm;
  compare_trans = eq_trans;
  hash_compare = remainder_eq;
  compare_dup = eq_refl;
}

abbrev one : Dict ℕ ℕ
one = (add true create 1 10).0

abbrev four : Dict ℕ ℕ
four = (add true (add true (add true one 5 50).0 2 20).0 9 90).0

-- The fifth key makes the table grow and starts a rehashing.
abbrev five : Dict ℕ ℕ
five = (add true four 3 30).0

-- A delete makes a round of the rehashing, and removes from the table that has the key.
abbrev without_nine : Dict ℕ ℕ
without_nine = (generic_delete five 9).0

runs : (is_rehashing four ≡ false) × (is_rehashing five ≡ true) × (view five 3 ≡ some 30)
unfolding find_in add add_raw create step_if_rehashing rehash_step rehash rehash_bucket move_chain
    skip_empty expand_if_needed expand next_power next_power_loop find_entry
runs = (refl, refl, refl)

deleted :
    (view without_nine 9 ≡ none) × (view without_nine 5 ≡ some 50) × (without_nine.ht0.used ≡ 1)
unfolding find_in add add_raw create step_if_rehashing rehash_step rehash rehash_bucket move_chain
    skip_empty expand_if_needed expand next_power next_power_loop find_entry erase_in generic_delete
deleted = (refl, refl, refl)

created : IsSmall (create {K = ℕ} {V = ℕ})
unfolding create
created = record { first = omega arith; second = omega arith; entries = omega arith }

add-Adds_example : Adds (view (create {K = ℕ} {V = ℕ})) 1 10 (add true create 1 10)
add-Adds_example = add-Adds true create 1 10 create-IsValid.0 created

one-IsSmall : IsSmall one
unfolding add add_raw create step_if_rehashing expand_if_needed expand next_power next_power_loop
    find_entry find_in
one-IsSmall = record { first = omega arith; second = omega arith; entries = omega arith }

generic_delete-Deletes_example : Deletes (view one) 1 (generic_delete one 1)
generic_delete-Deletes_example = generic_delete-Deletes one 1 add-Adds_example.0

replace-Updates_example :
    Updates one 1 (some 11) (replace true one 1 11).0
    × ((replace true one 1 11).1 ≡ is_none (view one 1))
replace-Updates_example = replace-Updates true one 1 11 add-Adds_example.0 one-IsSmall

-- A key with a short hash is added to a valid dictionary.
add-IsValid :
    (d : Dict ℕ ℕ) (k v : ℕ) → IsValid d → k % 2 ^ 32 < 2 ^ 31 → IsValid (add true d k v).0
add-IsValid d k v valid short =
    (add_indexed-Adds true d k v valid (hash-HasIndex (ready true d) k short)).0

five-IsValid : IsValid five
five-IsValid =
    add-IsValid four 3 30
      (add-IsValid (add true (add true one 5 50).0 2 20).0 9 90
        (add-IsValid (add true one 5 50).0 2 20
          (add-IsValid one 5 50 add-Adds_example.0 (omega arith)) (omega arith))
        (omega arith))
      (omega arith)

five_used : five.ht0.used ≡ 4
unfolding add add_raw create step_if_rehashing rehash_step rehash rehash_bucket move_chain
    skip_empty expand_if_needed expand next_power next_power_loop find_entry find_in
five_used = refl

rehash_finishes_example : (rehash 5 five).0.rehashidx ≡ none
rehash_finishes_example = rehash_finishes 5 five five-IsValid (omega (arith, five_used))

resize-Keeps_example : Keeps one (resize true one).0
resize-Keeps_example = resize-Keeps true one add-Adds_example.0

next_power_lem_example :
    ((j : ℕ) × (next_power 5 ≡ 2 ^ j))
    × (5 ≤ next_power 5)
    × ((next_power 5 ≡ 4) ⊎ (next_power 5 < 2 * 5))
next_power_lem_example = next_power_lem 5 (omega arith)
