-- ===== src/Intset/Refine.antt =====
-- The operations of intset.c keep the invariant and are those of a sorted list without repetitions.
use redis_allocators.Prelude.{
  ℕ, ◌+◌, ◌*◌, ◌^◌, ◌≤◌, ◌<◌, ◌≡◌, refl, sym, ap, ap₂, subst, ◌∙◌, inl, inr, Bool, true, false, not,
  [], leb, arith, dec_lt,
}
use redis_allocators.Prelude.Int.{ℤ, ◌<ℤ◌}
use redis_allocators.Prelude.Memory.{Memory}
use redis_allocators.Intset.{Intset, get, value_encoding, search, add, remove, find, new}
use redis_allocators.Intset.Cell.{Fits, half_range, get_encoded-Fits}
use redis_allocators.Intset.Search.{Split, Answers, search-Located}
use redis_allocators.Intset.Model.{
  contains, insert, erase, cells, insert_old, erase_absent, cells-AllBelow,
}
use redis_allocators.Intset.Valid.{
  IsValid, elements, elements-insert, elements-erase, Inserted-IsSorted, old_elements,
}
use redis_allocators.Intset.Upgrade.{
  Upgraded, upgrade-Upgraded, value_encoding-IsEncoding, wide_enough, encoding_of_Fits,
}
use redis_allocators.Intset.Grow.{
  put, put-Inserted, put-IsValid, add_wide, add_old, add_new, contains_answer,
}
use redis_allocators.Intset.Shrink.{taken, taken-Removed, taken-IsValid, remove_old, remove_absent}

-- `intsetNew` returns a valid empty set, whatever the allocated block holds.
pub new-IsValid : (garbage : Memory) → IsValid (new garbage) × (elements (new garbage) ≡ [])
unfolding new elements cells
new-IsValid garbage = (
  record {
    width = inl refl;
    sorted = λ i j p q. absurd (omega arith);
    small = omega arith;
    granted = refl;
  },
  refl,
)

-- What `intsetAdd` promises of its result.
abbrev pub Adds : Intset → ℤ → Intset × Bool → Type 0
Adds s v (t, success) =
    IsValid t × (elements t ≡ insert v (elements s)) × (success ≡ not (contains v (elements s)))

-- What `intsetRemove` promises of its result.
abbrev pub Removes : Intset → ℤ → Intset × Bool → Type 0
Removes s v (t, success) =
    IsValid t × (elements t ≡ erase v (elements s)) × (success ≡ contains v (elements s))

module _ (s : Intset) (v : ℤ) (valid : IsValid s) where
  member-Fits : (p : ℕ) → get s p ≡ v → value_encoding v ≤ s.encoding
  unfolding get
  member-Fits p e = encoding_of_Fits s.encoding v valid.width (
      subst (Fits (half_range s.encoding)) e (get_encoded-Fits s.contents p s.encoding valid.width))

  answer : Answers s v (search s v)
  answer = search-Located s v valid.sorted valid.small

  -- `intsetFind` decides membership.
  pub find-contains : find s v ≡ contains v (elements s)
  unfolding find
  find-contains = elim answer [
    | inl h ↦
        let a : leb (value_encoding v) s.encoding ≡ true =
          let w = member-Fits _ h.2 in ground arith in
        rw (a, contains_answer s v _ _ valid.sorted answer) (ground arith)
    | inr h ↦ rw (contains_answer s v _ _ valid.sorted answer) (ground arith)
  ]

  found_at : (found : Bool) → (search s v).0 ≡ found → search s v ≡ (found, (search s v).1)
  found_at found e = ap (λ b. (b, (search s v).1)) e

  absent : (p : ℕ) → Split s v p → contains v (elements s) ≡ false
  absent p split = contains_answer s v false p valid.sorted (inr (refl, split))

  upgrade-Adds : {t : Intset} → s.len + 1 < 2 ^ 28 → Upgraded s t v → Adds s v (t, true)
  upgrade-Adds {t} room u =
      let ins = u.inserted in
      (
        record {
          width = rw u.encoding (value_encoding-IsEncoding v);
          sorted = Inserted-IsSorted s v u.place t valid.sorted u.split ins;
          small = rw ins.longer room;
          granted = u.allocated ∙ ap₂ ◌*◌ (sym ins.longer) (sym u.encoding);
        },
        elements-insert s v u.place t u.split ins,
        rw (absent u.place u.split),
      )

  old-Adds : (p : ℕ) → p < s.len → get s p ≡ v → Adds s v (s, false)
  old-Adds p fit e =
      let list = old_elements s v p fit e in
      let low =
        cells-AllBelow (get s) v 0 p
          (λ j _ q. subst (λ x. get s j <ℤ x) e (valid.sorted j p (omega arith) fit)) in
      (
        valid,
        list ∙ sym (insert_old v _ _ low) ∙ ap (insert v) (sym list),
        rw (contains_answer s v true p valid.sorted (inl (refl, fit, e))),
      )

  new-Adds :
      (p : ℕ)
      → s.len + 1 < 2 ^ 28
      → Fits (half_range s.encoding) v
      → Split s v p
      → Adds s v (put s v p, true)
  new-Adds p room fits split = (
    put-IsValid s v p valid split fits room,
    elements-insert s v p (put s v p) split (put-Inserted s v p valid split fits),
    rw (absent p split),
  )

  -- `intsetAdd` of a 64 bit value keeps the invariant, inserts the value into the sorted list, and
  -- reports success exactly for a value that was not there.
  pub add-insert : s.len + 1 < 2 ^ 28 → Fits (2 ^ 63) v → Adds s v (add s v)
  add-insert room long = elim (dec_lt s.encoding (value_encoding v)) [
    | yes wide ↦
        subst (Adds s v) (sym (add_wide s v wide))
          (upgrade-Adds room (upgrade-Upgraded s v valid room long wide))
    | no narrow ↦
        let fits = wide_enough s.encoding v valid.width long (omega arith) in
        elim answer [
          | inl h ↦
              subst (Adds s v) (sym (add_old s v _ (omega arith) (found_at true h.0)))
                (old-Adds _ h.1 h.2)
          | inr h ↦
              subst (Adds s v) (sym (add_new s v _ (omega arith) (found_at false h.0)))
                (new-Adds _ room fits h.1)
        ]
  ]

  -- `intsetRemove` keeps the invariant, erases the value from the list, and reports success exactly
  -- for a value that was there.
  pub remove-erase : Removes s v (remove s v)
  remove-erase = elim answer [
    | inl h ↦
        let p = (search s v).1 in
        subst (Removes s v) (sym (remove_old s v p (member-Fits p h.2) (found_at true h.0))) (
          taken-IsValid s p valid h.1,
          elements-erase s v p (taken s p) h.1 h.2 valid.sorted (taken-Removed s p valid h.1),
          sym (contains_answer s v true p valid.sorted (inl (refl, h.1, h.2))),
        )
    | inr h ↦
        subst (Removes s v) (sym (remove_absent s v _ (found_at false h.0)))
          (valid, sym (erase_absent v (elements s) (absent _ h.1)), sym (absent _ h.1))
  ]
