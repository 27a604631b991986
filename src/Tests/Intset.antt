-- ===== src/Tests/Intset.antt =====
-- intset.c: runs through all three widths, and the theorems at a small set.
use redis_allocators.Prelude.{◌≡◌, refl, [], ◌∷◌, ◌^◌, arith}
use redis_allocators.Prelude.Int.{pos, negsuc}
use redis_allocators.Prelude.Memory.{Memory, read_le, write_le}
use redis_allocators.Intset.{
  Intset, new, add, remove, get, set, get_encoded, set_encoded, signed, pattern_of, value_encoding,
  search, search_loop, upgrade_and_add, upgrade_loop, resize, move_tail,
}
use redis_allocators.Intset.Model.{cells}
use redis_allocators.Intset.Valid.{IsValid, elements}
use redis_allocators.Intset.Refine.{new-IsValid, add-insert, remove-erase, Adds, Removes}

abbrev garbage : Memory
garbage = λ _. 0xaa

abbrev one : Intset
one = (add (new garbage) (pos 5)).0

abbrev two : Intset
two = (add one (pos 3)).0

abbrev three : Intset
three = (add two (negsuc 70000)).0

abbrev four : Intset
four = (add three (pos (2 ^ 40))).0

widened_twice : elements four ≡ negsuc 70000 ∷ pos 3 ∷ pos 5 ∷ pos (2 ^ 40) ∷ []
unfolding elements cells add new get set get_encoded set_encoded signed pattern_of value_encoding
    search search_loop upgrade_and_add upgrade_loop resize move_tail read_le write_le
widened_twice = refl

removed : elements (remove four (pos 3)).0 ≡ negsuc 70000 ∷ pos 5 ∷ pos (2 ^ 40) ∷ []
unfolding elements cells add new get set get_encoded set_encoded signed pattern_of value_encoding
    search search_loop upgrade_and_add upgrade_loop resize move_tail read_le write_le remove
removed = refl

new-IsValid_example : IsValid (new garbage) × (elements (new garbage) ≡ [])
new-IsValid_example = new-IsValid garbage

new_len : (new garbage).len ≡ 0
unfolding new
new_len = refl

add-insert_example : Adds (new garbage) (pos 5) (add (new garbage) (pos 5))
add-insert_example =
    add-insert (new garbage) (pos 5) new-IsValid_example.0 (omega (arith, new_len)) (omega arith)

remove-erase_example : Removes one (pos 5) (remove one (pos 5))
remove-erase_example = remove-erase one (pos 5) add-insert_example.0
