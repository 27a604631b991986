-- ===== src/Keyspace/Removals.antt =====
-- DEL and EXISTS do what their descriptions say.
use redis_allocators.Prelude.{
  ℕ, ◌+◌, ◌≡◌, refl, sym, ap, subst, fun_ext, ◌∙◌, false, not, Option, none, some, List, [], ◌∷◌,
  ◌==◌, if◌then◌else◌, arith, Bool-cases, inl, inr,
}
use redis_allocators.Prelude.Int.{ℤ, pos}
use redis_allocators.Dict.Update.{is_none}
use redis_allocators.Keyspace.Interface.{Text, put, same_text, Dictionary}
use redis_allocators.Keyspace.Steps.{◌>>=◌}
use redis_allocators.Keyspace.Spec.{Entry, Contents, value_of, write, expire}
use redis_allocators.Keyspace.Yields.{Yields, Yields-bind, Yields-then, Yields-if}
use redis_allocators.Keyspace.Shows.{Shows, same_text-eq}
use redis_allocators.Keyspace.Signals.{tell-Yields, pure-Yields, make_dirty-Yields}
use redis_allocators.Keyspace.Deadlines.{db_delete-Yields}
use redis_allocators.Keyspace.Expiry.{expire_if_needed-Yields}
use redis_allocators.Keyspace.Refine.{db_exists-Yields}
use redis_allocators.Keyspace.Commands.{del_each, del_command, exists_command, add_reply}
use redis_allocators.Keyspace.Described.{dirtied, notified_del, has_key, del_keys, del, exists}
use redis_allocators.Keyspace.State.{Robj, czero, cone, integer, Setting, Server}
use redis_allocators.Keyspace.{db_exists}

entry_none : (o : Option Entry) → value_of o ≡ none → o ≡ none
entry_none none h = refl
entry_none (some e) h = cc

pub no_value : (o : Option Robj) → not (is_none o) ≡ false → o ≡ none
no_value none h = refl
no_value (some v) h = cc

-- A key is written as it stands.
pub write_same :
    (x : Contents) (d : ℕ) (k : Text) (e : Option Entry) → x.keys d k ≡ e → write x d k e ≡ x
write_same x d k e here =
    let same : (write x d k e).keys ≡ x.keys = fun_ext λ i. elim (Bool-cases (i == d)) [
      | inl h ↦ let at : i ≡ d = ground arith in rw h (sym (ap x.keys at ∙ sym (fun_ext at_key)))
      | inr h ↦ rw h refl
    ] in
    ap (λ (f : ℕ → Text → Option Entry). record x { keys = f }) same
  where
    at_key : (q : Text) → put (x.keys d) k e q ≡ x.keys d q
    at_key q = elim (Bool-cases (same_text q k)) [
      | inl h ↦ rw h (sym (ap (x.keys d) (same_text-eq q k h) ∙ here))
      | inr h ↦ rw h refl
    ]

-- A key that is not there is removed.
pub write_absent :
    (x : Contents) (d : ℕ) (k : Text) → value_of (x.keys d k) ≡ none → write x d k none ≡ x
write_absent x d k gone = write_same x d k none (entry_none (x.keys d k) gone)

module _ {D E : Type 0} {keys : Dictionary D Robj} {deadlines : Dictionary E ℤ} {c : Setting} where
  module _ {s : Server D E} {x : Contents} (shows : Shows keys deadlines s x) (d : ℕ) where
    pub exists_command-Yields :
        (k : Text)
        → Yields keys deadlines c (exists_command keys deadlines c d k) s tt (exists c x d k)
    unfolding exists_command
    exists_command-Yields k =
        Yields-bind _
          (λ _. db_exists keys deadlines c d k >>= λ there.
            add_reply keys deadlines c (if there then cone else czero))
          (expire_if_needed-Yields shows d k)
          (λ s₁ shows₁.
            Yields-bind _ (λ there. add_reply keys deadlines c (if there then cone else czero))
              (db_exists-Yields shows₁ d k) (λ s₂ shows₂. tell-Yields shows₂ _))

  del_each-Yields :
      (d : ℕ) (ks : List Text) (n : ℕ) {s : Server D E} {x : Contents}
      → Shows keys deadlines s x
      → Yields keys deadlines c
          (del_each keys deadlines c d ks n)
          s
          (del_keys c x d ks n).0
          (del_keys c x d ks n).1
  unfolding del_each del_keys
  del_each-Yields d [] n shows = pure-Yields shows n
  del_each-Yields d (k ∷ ks) n {x = x} shows =
      let x₁ = (expire c x d k).1 in
      let told = notified_del (write x₁ d k none) d k in
      Yields-bind _ _ (expire_if_needed-Yields shows d k) (λ s₁ shows₁.
        Yields-bind _ _ (db_delete-Yields shows₁ d k) (λ s₂ shows₂.
          Yields-if (has_key x₁ d k) {r = del_keys c (dirtied told) d ks (n + 1)}
            {r' = del_keys c x₁ d ks n}
            (λ _. Yields-then _ _ (tell-Yields shows₂ _) (λ s₃ shows₃.
              Yields-then _ _ (tell-Yields shows₃ _) (λ s₄ shows₄.
                Yields-then _ _ (make_dirty-Yields shows₄)
                  (λ s₅ shows₅. del_each-Yields d ks (n + 1) shows₅))))
            (λ gone. del_each-Yields d ks n (
              subst (Shows keys deadlines s₂)
                (write_absent x₁ d k (no_value (value_of (x₁.keys d k)) gone)) shows₂))))

  module _ {s : Server D E} {x : Contents} (shows : Shows keys deadlines s x) (d : ℕ) where
    pub del_command-Yields :
        (ks : List Text)
        → Yields keys deadlines c (del_command keys deadlines c d ks) s tt (del c x d ks)
    unfolding del_command
    del_command-Yields ks =
        Yields-bind _ (λ deleted. add_reply keys deadlines c (integer (pos deleted)))
          (del_each-Yields d ks 0 shows) (λ s₁ shows₁. tell-Yields shows₁ _)
