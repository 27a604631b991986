-- ===== src/Keyspace/Gone.antt =====
-- DEL removes each key that it names, whatever expires in between.
use redis_allocators.Prelude.{
  ℕ, ◌+◌, ◌<◌, ◌≡◌, refl, sym, ap, subst, ◌∙◌, true, false, not, ◌&&◌, ◌||◌, Option, none, some,
  List, [], ◌∷◌, ◌==◌, if◌then◌else◌, arith, Bool-cases, inl, inr,
}
use redis_allocators.Prelude.Eq.{nat_eq, list_eq, count, count_cons}
use redis_allocators.Prelude.Int.{ℤ, pos, ltb_ℤ}
use redis_allocators.Keyspace.Interface.{Text, same_text, Dictionary}
use redis_allocators.Keyspace.Spec.{
  Contents, value_of, deadline_of, write, clock, expire_at, expire,
}
use redis_allocators.Keyspace.Shows.{Shows, same_text-eq}
use redis_allocators.Keyspace.Deadlines.{keys-write}
use redis_allocators.Keyspace.Removals.{del_command-Yields, no_value}
use redis_allocators.Keyspace.Commands.{del_command}
use redis_allocators.Keyspace.Described.{dirtied, notified_del, has_key, del_keys}
use redis_allocators.Keyspace.State.{Robj, Setting, Server}

-- The key has no value.
abbrev pub Absent : Contents → ℕ → Text → Type 0
Absent x d k = value_of (x.keys d k) ≡ none

write-Absent : (x : Contents) (d : ℕ) (j k : Text) → Absent x d k → Absent (write x d j none) d k
write-Absent x d j k gone =
    let here : d == d ≡ true = ground arith in
    elim (Bool-cases (same_text k j)) [ inl e ↦ rw here (rw e refl) | inr e ↦ rw here (rw e gone) ]

named_later :
    (k j : Text) (ks : List Text) → same_text k j ≡ false → 0 < count k (j ∷ ks) → 0 < count k ks
named_later k j ks other named =
    let rest : 0 < (if false then 1 else 0) + count k ks = rw (count_cons k j ks, other) at named in
    omega arith

module _ (c : Setting) where
  expire_at-Absent :
      (x : Contents) (d : ℕ) (j k : Text) (o : Option ℤ)
      → Absent x d k
      → Absent (expire_at c x d j o).1 d k
  expire_at-Absent x d j k none gone = gone
  expire_at-Absent x d j k (some when) gone = elim (Bool-cases (ltb_ℤ when (pos 0) || c.loading)) [
    | inl e ↦ simp e gone
    | inr e ↦ elim (Bool-cases (ltb_ℤ when (clock c x).0 && not c.masterhost)) [
      | inl late ↦ simp (e, late) (write-Absent x d j k gone)
      | inr early ↦ simp (e, early) gone
    ]
  ]

  expire-Absent : (x : Contents) (d : ℕ) (j k : Text) → Absent x d k → Absent (expire c x d j).1 d k
  unfolding expire
  expire-Absent x d j k gone = expire_at-Absent x d j k (deadline_of (x.keys d j)) gone

  del_keys-Absent :
      (x : Contents) (d : ℕ) (ks : List Text) (n : ℕ) (k : Text)
      → Absent x d k
      → Absent (del_keys c x d ks n).1 d k
  unfolding del_keys
  del_keys-Absent x d [] n k gone = gone
  del_keys-Absent x d (j ∷ ks) n k gone =
      let x' = (expire c x d j).1 in
      let gone' = expire-Absent x d j k gone in
      elim (Bool-cases (has_key x' d j)) [
        | inl e ↦ rw e (
            del_keys-Absent (dirtied (notified_del (write x' d j none) d j)) d ks (n + 1) k
              (write-Absent x' d j k gone'))
        | inr e ↦ rw e (del_keys-Absent x' d ks n k gone')
      ]

  del_keys-gone :
      (x : Contents) (d : ℕ) (ks : List Text) (n : ℕ) (k : Text)
      → 0 < count k ks
      → Absent (del_keys c x d ks n).1 d k
  unfolding del_keys count
  del_keys-gone x d [] n k named = absurd (omega arith)
  del_keys-gone x d (j ∷ ks) n k named =
      let x' = (expire c x d j).1 in
      let y = write x' d j none in
      elim (Bool-cases (same_text k j)) [
        | inl same ↦ elim (Bool-cases (has_key x' d j)) [
          | inl e ↦ rw e (
              del_keys-Absent (dirtied (notified_del y d j)) d ks (n + 1) k (
                subst (Absent y d) (sym (same_text-eq k j same))
                  (ap value_of (keys-write x' d j none))))
          | inr e ↦ rw e (
              del_keys-Absent x' d ks n k (
                subst (Absent x' d) (sym (same_text-eq k j same))
                  (no_value (value_of (x'.keys d j)) e)))
        ]
        | inr other ↦
            let later = named_later k j ks other named in
            elim (Bool-cases (has_key x' d j)) [
              | inl e ↦ rw e (del_keys-gone (dirtied (notified_del y d j)) d ks (n + 1) k later)
              | inr e ↦ rw e (del_keys-gone x' d ks n k later)
            ]
      ]

module _ {D E : Type 0} (keys : Dictionary D Robj) (deadlines : Dictionary E ℤ) (c : Setting) where
  -- DEL runs without an abort, and behind it none of the keys that it names has a value.
  pub del_command-gone :
      (s : Server D E) (x : Contents) (d : ℕ) (ks : List Text)
      → Shows keys deadlines s x
      → (s' : Server D E) × (del_command keys deadlines c d ks s ≡ some (tt, s'))
        × ((k : Text) → 0 < count k ks → keys.view (s'.db d).dict k ≡ none)
  del_command-gone s x d ks shows =
      let y = del_command-Yields shows d ks in
      (y.after, y.runs, λ k named. (y.shows.dbs d).values k ∙ del_keys-gone c x d ks 0 k named)
