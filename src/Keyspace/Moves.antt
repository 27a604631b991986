-- ===== src/Keyspace/Moves.antt =====
-- DEL, EXISTS, RENAME and MOVE do what their descriptions say.
use redis_allocators.Prelude.{
  ℕ, ◌≡◌, refl, sym, ap, Bool, true, false, not, ◌&&◌, Option, none, some, ◌==◌, if◌then◌else◌,
}
use redis_allocators.Prelude.Int.{ℤ, eqb_ℤ}
use redis_allocators.Dict.Update.{is_none}
use redis_allocators.Keyspace.Interface.{Text, same_text, Dictionary}
use redis_allocators.Keyspace.Steps.{◌>>=◌, ◌>>◌, pure}
use redis_allocators.Keyspace.Spec.{
  Entry, Contents, value_of, deadline_of, write, say_if, expire, read,
}
use redis_allocators.Keyspace.Yields.{Yields, Yields-bind, Yields-then, Yields-choose, Yields-cast}
use redis_allocators.Keyspace.Shows.{Shows}
use redis_allocators.Keyspace.Signals.{tell-Yields, pure-Yields, make_dirty-Yields}
use redis_allocators.Keyspace.Deadlines.{
  keys-write, write-write, db_delete-Yields, get_expire-Yields, or_minus_one,
}
use redis_allocators.Keyspace.Refine.{lookup_key_write-Yields, db_add-Yields, set_expire-Yields}
use redis_allocators.Keyspace.Commands.{
  rename_value, rename_found, rename_generic, move_value, move_found, move_to, move_command,
  add_reply, select_db,
}
use redis_allocators.Keyspace.Described.{
  reply, placed, renamed, rename_from, rename, moved, move_from, move_into,
}
use redis_allocators.Keyspace.State.{
  Robj, czero, cone, list_ready, replied, minus_one, Setting, Server,
}
use redis_allocators.Keyspace.{db_delete, db_add, set_expire, make_dirty}
use redis_allocators.Keyspace.Removals.{write_same, write_absent}

module _ {D E : Type 0} {keys : Dictionary D Robj} {deadlines : Dictionary E ℤ} {c : Setting} where
  module _ {s : Server D E} {x : Contents} (shows : Shows keys deadlines s x) (d : ℕ) where
    -- The key that RENAME writes is cleared.
    clear-Yields :
        (k : Text) (old : Option Robj)
        → value_of (x.keys d k) ≡ old
        → Yields keys deadlines c
            (if is_none old then pure tt else (db_delete keys deadlines c d k >>= λ _. pure tt))
            s
            tt
            (write x d k none)
    clear-Yields k none gone =
        Yields-cast refl (sym (write_absent x d k gone)) (pure-Yields shows tt)
    clear-Yields k (some v) there =
        Yields-bind _ (λ _. pure tt) (db_delete-Yields shows d k)
          (λ s₁ shows₁. pure-Yields shows₁ tt)

    -- A cleared key takes the value.
    place-Yields :
        (k : Text) (v : Robj)
        → x.keys d k ≡ none
        → Yields keys deadlines c (db_add keys deadlines c d k v) s tt (placed c x d k v none)
    place-Yields k v gone = db_add-Yields shows d k v (ap value_of gone)

    -- The deadline goes along.
    carry-Yields :
        (k : Text) (v : Robj) (expire : ℤ)
        → x.keys d k ≡ some (v, none)
        → Yields keys deadlines c
            (if eqb_ℤ expire minus_one then pure tt else set_expire keys deadlines c d k expire)
            s
            tt
            (write x d k (some (v, if eqb_ℤ expire minus_one then none else some expire)))
    carry-Yields k v expire there = decide (eqb_ℤ expire minus_one)
      where
        decide :
            (b : Bool)
            → Yields keys deadlines c
                (if b then pure tt else set_expire keys deadlines c d k expire)
                s
                tt
                (write x d k (some (v, if b then none else some expire)))
        decide true =
            Yields-cast refl (sym (write_same x d k (some (v, none)) there)) (pure-Yields shows tt)
        decide false = set_expire-Yields shows d k v expire (ap value_of there)

  module _ {s : Server D E} {x : Contents} (shows : Shows keys deadlines s x) (d : ℕ)
      (k k' : Text) where
    rename_value-Yields :
        (v : Robj) (expire : ℤ) (nx : Bool) (old : Option Robj)
        → value_of (x.keys d k') ≡ old
        → Yields keys deadlines c (rename_value keys deadlines c d k k' v expire nx old) s tt (
            if nx && not (is_none old)
            then reply x czero
            else renamed c x d k k' v (if eqb_ℤ expire minus_one then none else some expire) nx)
    rename_value-Yields v expire nx old there =
        let y₁ = write x d k' none in
        let y₂ = placed c x d k' v none in
        let r = list_ready d k' in
        let e : Option Entry = some (v, if eqb_ℤ expire minus_one then none else some expire) in
        Yields-choose (nx && not (is_none old)) (tell-Yields shows (replied czero)) (
          Yields-then _ _ (clear-Yields shows d k' old there) (λ s₁ shows₁.
            Yields-then _ _
              (Yields-cast refl
                (ap (λ y. say_if (c.is_list v) y r) (write-write x d k' none (some (v, none))))
                (place-Yields shows₁ d k' v (keys-write x d k' none)))
              (λ s₂ shows₂.
                Yields-then _ _
                  (Yields-cast refl
                    (ap (λ y. say_if (c.is_list v) y r) (write-write x d k' (some (v, none)) e))
                    (carry-Yields shows₂ d k' v expire (keys-write x d k' (some (v, none)))))
                  (λ s₃ shows₃. Yields-bind _ _ (db_delete-Yields shows₃ d k) (λ s₄ shows₄.
                    Yields-then _ _ (tell-Yields shows₄ _) (λ s₅ shows₅.
                      Yields-then _ _ (tell-Yields shows₅ _) (λ s₆ shows₆.
                        Yields-then _ _ (tell-Yields shows₆ _) (λ s₇ shows₇.
                          Yields-then _ _ (tell-Yields shows₇ _) (λ s₈ shows₈.
                            Yields-then _ _ (make_dirty-Yields shows₈)
                              (λ s₉ shows₉. tell-Yields shows₉ _))))))))))

  module _ {s : Server D E} {x : Contents} (shows : Shows keys deadlines s x) (d : ℕ) where
    rename_found-Yields :
        (k k' : Text) (nx : Bool) (o : Option Robj)
        → Yields keys deadlines c
            (rename_found keys deadlines c d k k' nx o)
            s
            tt
            (rename_from c x d k k' nx o)
    rename_found-Yields k k' nx none = tell-Yields shows _
    rename_found-Yields k k' nx (some v) =
        let e = or_minus_one (deadline_of (x.keys d k)) in
        Yields-bind _ _ (get_expire-Yields shows d k) (λ s₁ shows₁.
          Yields-bind _ (rename_value keys deadlines c d k k' v e nx)
            (lookup_key_write-Yields shows₁ d k')
            (λ s₂ shows₂. rename_value-Yields shows₂ d k k' v e nx (read c x d k').0 refl))

    move_value-Yields :
        (d' : ℕ) (k : Text) (v : Robj) (old : Option Robj)
        → value_of (x.keys d' k) ≡ old
        → Yields keys deadlines c
            (move_value keys deadlines c d d' k v old)
            s
            tt
            (moved c x d d' k v old)
    move_value-Yields d' k v (some old) there = tell-Yields shows _
    move_value-Yields d' k v none gone =
        Yields-then _ _ (db_add-Yields shows d' k v gone) (λ s₁ shows₁.
          Yields-bind _ (λ _. make_dirty keys deadlines c >> add_reply keys deadlines c cone)
            (db_delete-Yields shows₁ d k)
            (λ s₂ shows₂.
              Yields-then _ _ (make_dirty-Yields shows₂) (λ s₃ shows₃. tell-Yields shows₃ _)))

  module _ {s : Server D E} {x : Contents} (shows : Shows keys deadlines s x) (d : ℕ) where
    move_found-Yields :
        (d' : ℕ) (k : Text) (o : Option Robj)
        → Yields keys deadlines c
            (move_found keys deadlines c d d' k o)
            s
            tt
            (move_from c x d d' k o)
    move_found-Yields d' k none = tell-Yields shows _
    move_found-Yields d' k (some v) =
        Yields-bind _ (move_value keys deadlines c d d' k v) (lookup_key_write-Yields shows d' k)
          (λ s₁ shows₁. move_value-Yields shows₁ d d' k v (read c x d' k).0 refl)

    -- RENAME and RENAMENX run without an abort: the value and the deadline go from the one key to the
    -- other, or the command replies why not.
    pub rename_generic-Yields :
        (k k' : Text) (nx : Bool)
        → Yields keys deadlines c
            (rename_generic keys deadlines c d k k' nx)
            s
            tt
            (rename c x d k k' nx)
    unfolding rename_generic
    rename_generic-Yields k k' nx = Yields-choose (same_text k k') (tell-Yields shows _) (
        Yields-bind _ (rename_found keys deadlines c d k k' nx) (lookup_key_write-Yields shows d k)
          (λ s₁ shows₁. rename_found-Yields shows₁ d k k' nx (read c x d k).0))

  module _ {s : Server D E} {x : Contents} (shows : Shows keys deadlines s x) (d : ℕ) where
    move_to-Yields :
        (k : Text) (o : Option ℕ)
        → Yields keys deadlines c (move_to keys deadlines c d k o) s tt (move_into c x d k o)
    move_to-Yields k none = tell-Yields shows _
    move_to-Yields k (some d') = Yields-choose (d == d') (tell-Yields shows _) (
        Yields-bind _ (move_found keys deadlines c d d' k) (lookup_key_write-Yields shows d k)
          (λ s₁ shows₁. move_found-Yields shows₁ d d' k (read c x d k).0))

    -- MOVE runs without an abort, and does what it promises.
    pub move_command-Yields :
        (k : Text) (dbid : Option ℤ)
        → Yields keys deadlines c
            (move_command keys deadlines c d k dbid)
            s
            tt
            (move_into c x d k (select_db c dbid))
    unfolding move_command
    move_command-Yields k dbid = move_to-Yields k (select_db c dbid)
