-- ===== src/Keyspace/Deadlines.antt =====
-- getExpire and dbDelete do what their descriptions say.
use redis_allocators.Prelude.{
  ℕ, ◌≡◌, refl, sym, ap, subst, fun_ext, ◌∙◌, true, false, not, Option, none, some, ◌==◌,
  if◌then◌else◌, arith, Bool-cases, inl, inr,
}
use redis_allocators.Prelude.Int.{ℤ}
use redis_allocators.Dict.Update.{is_none}
use redis_allocators.Keyspace.Interface.{Text, put, same_text, Dictionary}
use redis_allocators.Keyspace.Tables.{same_text_refl}
use redis_allocators.Keyspace.Steps.{◌>>=◌, pure}
use redis_allocators.Keyspace.Spec.{Entry, Contents, value_of, deadline_of, write}
use redis_allocators.Keyspace.Yields.{
  Yields, Yields-bind, Yields-both, Yields-gets, Yields-cast, find_key-Yields,
}
use redis_allocators.Keyspace.Shows.{Shows}
use redis_allocators.Keyspace.Signals.{pure-Yields}
use redis_allocators.Keyspace.Calls.{
  persisted, find_deadline-Yields, delete_key-Yields, delete_deadline-Yields, no_deadlines,
  value_of-persisted, deadline_of-persisted,
}
use redis_allocators.Keyspace.State.{Robj, Setting, Server, minus_one}
use redis_allocators.Keyspace.{
  find_deadline, delete_key, delete_deadline, db_delete, get_expire, checked_deadline,
}

pub keys-write : (x : Contents) (d : ℕ) (k : Text) (e : Option Entry) → (write x d k e).keys d k ≡ e
keys-write x d k e = let here : d == d ≡ true = ground arith in rw here (rw (same_text_refl k) refl)

put-put :
    (m : Text → Option Entry) (k : Text) (e e' : Option Entry) → put (put m k e) k e' ≡ put m k e'
put-put m k e e' =
    fun_ext λ q. elim (Bool-cases (same_text q k)) [ inl h ↦ rw h refl | inr h ↦ rw h refl ]

pub write-write :
    (x : Contents) (d : ℕ) (k : Text) (e e' : Option Entry)
    → write (write x d k e) d k e' ≡ write x d k e'
write-write x d k e e' =
    let same : (write (write x d k e) d k e').keys ≡ (write x d k e').keys = fun_ext λ i.
      elim (Bool-cases (i == d)) [
        | inl h ↦
            let here : d == d ≡ true = ground arith in rw h (rw here (put-put (x.keys d) k e e'))
        | inr h ↦ rw h refl
      ] in
    ap (λ (f : ℕ → Text → Option Entry). record x { keys = f }) same

abbrev pub or_minus_one : Option ℤ → ℤ
or_minus_one none = minus_one
or_minus_one (some t) = t

pub has_value :
    (o : Option Entry) (t : ℤ) → deadline_of o ≡ some t → (v : Robj) × (value_of o ≡ some v)
has_value none t h = cc
has_value (some e) t h = (e.0, refl)

module _ {D E : Type 0} {keys : Dictionary D Robj} {deadlines : Dictionary E ℤ} {c : Setting} where
  module _ {s : Server D E} {x : Contents} (shows : Shows keys deadlines s x) (d : ℕ)
      (k : Text) where
    pub get_expire-Yields :
        Yields keys deadlines c
          (get_expire keys deadlines c d k)
          s
          (or_minus_one (deadline_of (x.keys d k)))
          x
    unfolding get_expire
    get_expire-Yields =
        Yields-gets (λ s. deadlines.size (s.db d).expires == 0)
          (λ empty.
            if empty
            then pure minus_one
            else (find_deadline keys deadlines c d k >>= checked_deadline keys deadlines c d k))
          (Yields-both (deadlines.size (s.db d).expires == 0)
            (λ empty.
              let gone = no_deadlines shows d k empty in
              subst (λ o. Yields keys deadlines c (pure minus_one) s (or_minus_one o) x) (sym gone)
                (pure-Yields shows minus_one))
            (λ _.
              Yields-bind (find_deadline keys deadlines c d k)
                (checked_deadline keys deadlines c d k) (find_deadline-Yields shows d k)
                (λ s' shows'. checked s' shows' (deadline_of (x.keys d k)) refl)))
      where
        checked :
            (s' : Server D E)
            → Shows keys deadlines s' x
            → (o : Option ℤ) → deadline_of (x.keys d k) ≡ o
            → Yields keys deadlines c
                (checked_deadline keys deadlines c d k o)
                s'
                (or_minus_one o)
                x
        checked s' shows' none e = pure-Yields shows' minus_one
        checked s' shows' (some when) e =
            let (v, there) = has_value (x.keys d k) when e in
            Yields-bind _ _ (find_key-Yields shows' d k)
              (λ s'' shows''. rw there (pure-Yields shows'' when))

    -- The two deletions of `dbDelete` remove the entry; the result tells whether it was there.
    pub db_delete-Yields :
        Yields keys deadlines c
          (db_delete keys deadlines c d k)
          s
          (not (is_none (value_of (x.keys d k))))
          (write x d k none)
    unfolding db_delete
    db_delete-Yields =
        Yields-gets (λ s. deadlines.size (s.db d).expires == 0)
          (λ empty. (if empty then pure false else delete_deadline keys deadlines c d k) >>= λ _.
            delete_key keys deadlines c d k)
          (elim (Bool-cases (deadlines.size (s.db d).expires == 0)) [
            | inl empty ↦ rw empty (
                Yields-bind _ (λ _. delete_key keys deadlines c d k) (pure-Yields shows false)
                  (λ s' shows'. delete_key-Yields shows' d k (no_deadlines shows d k empty)))
            | inr full ↦ rw full (
                Yields-bind _ (λ _. delete_key keys deadlines c d k)
                  (delete_deadline-Yields shows d k)
                  (λ s' shows'.
                    let e = x.keys d k in
                    let here = keys-write x d k (persisted e) in
                    Yields-cast
                      (ap (λ o. not (is_none (value_of o))) here
                        ∙ ap (λ o. not (is_none o)) (value_of-persisted e))
                      (write-write x d k (persisted e) none)
                      (delete_key-Yields shows' d k
                        (ap deadline_of here ∙ deadline_of-persisted e))))
          ])
