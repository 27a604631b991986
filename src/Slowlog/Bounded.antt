-- ===== src/Slowlog/Bounded.antt =====
-- The bound on the log, and what is left of it.
use redis_allocators.Prelude.{
  ℕ, zero, suc, ◌+◌, ◌-◌, ◌≤◌, ◌<◌, ◌≡◌, refl, ap, ◌∙◌, sym, Bool, true, false, ◌&&◌, List, [], ◌∷◌,
  ltb, if◌then◌else◌, length, length-take, take, arith, Bool-cases, inl, inr,
}
use redis_allocators.Prelude.Int.{ℤ, pos, ltb_ℤ}
use redis_allocators.Slowlog.{
  Arg, Entry, Slowlog, create_entry, delete_last, trim, push_entry_if_needed,
}

length-delete_last : (es : List Entry) → length (delete_last es) ≡ length es - 1
unfolding delete_last
length-delete_last [] = refl
length-delete_last (e ∷ []) = refl
length-delete_last (e ∷ f ∷ rest) = let n = length-delete_last (f ∷ rest) in omega arith

take-delete_last : (n : ℕ) (es : List Entry) → n < length es → take n (delete_last es) ≡ take n es
unfolding delete_last
take-delete_last n [] h = absurd (omega arith)
take-delete_last zero (e ∷ []) h = refl
take-delete_last (suc n) (e ∷ []) h = absurd (omega arith)
take-delete_last zero (e ∷ f ∷ rest) h = refl
take-delete_last (suc n) (e ∷ f ∷ rest) h =
    ap (λ l. e ∷ l) (take-delete_last n (f ∷ rest) (omega arith))

take_all : (n : ℕ) (es : List Entry) → length es ≤ n → take n es ≡ es
take_all zero [] h = refl
take_all (suc n) [] h = refl
take_all zero (e ∷ es) h = absurd (omega arith)
take_all (suc n) (e ∷ es) h = ap (λ l. e ∷ l) (take_all n es (omega arith))

pub trim-take : (rounds n : ℕ) (es : List Entry) → length es ≤ rounds → trim rounds n es ≡ take n es
unfolding trim
trim-take zero n es h = sym (take_all n es (omega arith))
trim-take (suc rounds) n es h = elim (Bool-cases (ltb n (length es))) [
  | inl e ↦
      let shorter = length-delete_last es in
      rw (e, trim)
        (trim-take rounds n (delete_last es) (ground arith) ∙ take-delete_last n es (ground arith))
  | inr e ↦ rw (e, trim) (sym (take_all n es (ground arith)))
]

-- While the log is enabled, a call adds an entry in front for a slow command, and then keeps the
-- newest `max_len` entries, in their order.
pub push_entry_if_needed-take :
    (s : Slowlog) (argv : List Arg) (duration : ℤ) (now : ℕ)
    → ltb_ℤ s.log_slower_than (pos 0) ≡ false
    → (push_entry_if_needed s argv duration now).entries
      ≡ take s.max_len (
          if ltb_ℤ duration s.log_slower_than
          then s.entries
          else create_entry argv duration now s.entry_id ∷ s.entries)
unfolding push_entry_if_needed
push_entry_if_needed-take s argv duration now enabled =
    elim (Bool-cases (ltb_ℤ duration s.log_slower_than)) [
      | inl e ↦
          rw (enabled, push_entry_if_needed) (rw e (trim-take _ s.max_len s.entries (omega arith)))
      | inr e ↦ rw (enabled, push_entry_if_needed) (rw e (trim-take _ s.max_len _ (omega arith)))
    ]

-- The identifiers go down from the next one.
unfoldable pub descending : ℕ → List Entry → Bool
descending n [] = true
descending n (e ∷ es) = ltb e.id n && descending e.id es

descending-take :
    (k n : ℕ) (es : List Entry) → descending n es ≡ true → descending n (take k es) ≡ true
unfolding descending
descending-take zero n es h = refl
descending-take (suc k) n [] h = refl
descending-take (suc k) n (e ∷ es) h = ground (arith, descending-take k e.id es)

descending-create_entry :
    (argv : List Arg) (duration : ℤ) (now n : ℕ) (es : List Entry)
    → descending n es ≡ true
    → descending (n + 1) (create_entry argv duration now n ∷ es) ≡ true
unfolding descending create_entry
descending-create_entry argv duration now n es h =
    let before : ltb n (n + 1) ≡ true = ground arith in rw before h

-- While the log is enabled, identifiers go down from the next one and stay so, and the log has at
-- most `max_len` entries after a call.
pub push_entry_if_needed-descending :
    (s : Slowlog) (argv : List Arg) (duration : ℤ) (now : ℕ)
    → ltb_ℤ s.log_slower_than (pos 0) ≡ false
    → descending s.entry_id s.entries ≡ true
    → let s' = push_entry_if_needed s argv duration now in
      (descending s'.entry_id s'.entries ≡ true) × (length s'.entries ≤ s.max_len)
unfolding push_entry_if_needed
push_entry_if_needed-descending s argv duration now enabled ordered =
    elim (Bool-cases (ltb_ℤ duration s.log_slower_than)) [
      | inl e ↦
          let kept = trim-take (length s.entries) s.max_len s.entries (omega arith) in
          rw (enabled, push_entry_if_needed)
            (rw e (
              rw kept (
                descending-take s.max_len s.entry_id s.entries ordered,
                omega (arith, length-take s.max_len s.entries),
              )))
      | inr e ↦
          let es = create_entry argv duration now s.entry_id ∷ s.entries in
          let kept = trim-take (length es) s.max_len es (omega arith) in
          rw (enabled, push_entry_if_needed)
            (rw e (
              rw kept (
                descending-take s.max_len (s.entry_id + 1) es
                    (descending-create_entry argv duration now s.entry_id s.entries ordered),
                omega (arith, length-take s.max_len es),
              )))
    ]
