-- ===== src/Keyspace/Yields.antt =====
-- Steps that run to their end without an abort.
use redis_allocators.Prelude.{ℕ, ◌≡◌, refl, subst, Bool, true, false, some, if◌then◌else◌}
use redis_allocators.Prelude.Int.{ℤ}
use redis_allocators.Keyspace.Interface.{Text, Dictionary}
use redis_allocators.Keyspace.Steps.{◌>>=◌, ◌>>◌, gets}
use redis_allocators.Keyspace.Spec.{Contents, value_of}
use redis_allocators.Keyspace.State.{Robj, Setting, Server, put_dict}
use redis_allocators.Keyspace.{Step, find_key}
use redis_allocators.Keyspace.Shows.{Shows, stepped_dict}

module _ {D E : Type 0} (keys : Dictionary D Robj) (deadlines : Dictionary E ℤ) (c : Setting) where
  -- A step runs to its end without an abort, with this result and these contents.
  pub record Yields {A : Type 0} (m : Step keys deadlines c A) (s : Server D E) (r : A)
      (x : Contents) : Type 0 where
    pub after : Server D E
    pub runs : m s ≡ some (r, after)
    pub shows : Shows keys deadlines after x

module _ {D E : Type 0} {keys : Dictionary D Robj} {deadlines : Dictionary E ℤ} {c : Setting} where
  pub Yields-bind :
      {A B : Type 0} (m : Step keys deadlines c A) (f : A → Step keys deadlines c B)
      {s : Server D E} {r : A} {x : Contents} {r' : B} {x' : Contents}
      → Yields keys deadlines c m s r x
      → ((s' : Server D E) → Shows keys deadlines s' x → Yields keys deadlines c (f r) s' r' x')
      → Yields keys deadlines c (m >>= f) s r' x'
  Yields-bind m f y rest =
      let next = rest y.after y.shows in
      record { after = next.after; runs = rw y.runs next.runs; shows = next.shows }

  pub Yields-then :
      {B : Type 0} (m : Step keys deadlines c Unit) (m' : Step keys deadlines c B) {s : Server D E}
      {x : Contents} {r : B} {x' : Contents}
      → Yields keys deadlines c m s tt x
      → ((s' : Server D E) → Shows keys deadlines s' x → Yields keys deadlines c m' s' r x')
      → Yields keys deadlines c (m >> m') s r x'
  Yields-then m m' y rest =
      let next = rest y.after y.shows in
      record { after = next.after; runs = rw y.runs next.runs; shows = next.shows }

  pub Yields-cast :
      {A : Type 0} {m : Step keys deadlines c A} {s : Server D E} {r r' : A} {x x' : Contents}
      → r ≡ r'
      → x ≡ x'
      → Yields keys deadlines c m s r x
      → Yields keys deadlines c m s r' x'
  Yields-cast {m = m} {s = s} {r' = r'} {x = x} e e' y =
      subst (Yields keys deadlines c m s r') e' (subst (λ a. Yields keys deadlines c m s a x) e y)

  pub Yields-if :
      {A : Type 0} (b : Bool) {m n : Step keys deadlines c A} {s : Server D E} {r r' : A × Contents}
      → (b ≡ true → Yields keys deadlines c m s r.0 r.1)
      → (b ≡ false → Yields keys deadlines c n s r'.0 r'.1)
      → Yields keys deadlines c
          (if b then m else n)
          s
          (if b then r else r').0
          (if b then r else r').1
  Yields-if true y y' = y refl
  Yields-if false y y' = y' refl

  pub Yields-choose :
      {A : Type 0} (b : Bool) {m n : Step keys deadlines c A} {s : Server D E} {r : A}
      {x x' : Contents}
      → Yields keys deadlines c m s r x
      → Yields keys deadlines c n s r x'
      → Yields keys deadlines c (if b then m else n) s r (if b then x else x')
  Yields-choose true y y' = y
  Yields-choose false y y' = y'

  pub Yields-both :
      {A : Type 0} (b : Bool) {m n : Step keys deadlines c A} {s : Server D E} {r : A}
      {x : Contents}
      → (b ≡ true → Yields keys deadlines c m s r x)
      → (b ≡ false → Yields keys deadlines c n s r x)
      → Yields keys deadlines c (if b then m else n) s r x
  Yields-both true y y' = y refl
  Yields-both false y y' = y' refl

  pub Yields-gets :
      {A B : Type 0} (f : Server D E → A) (m : A → Step keys deadlines c B) {s : Server D E} {r : B}
      {x : Contents}
      → Yields keys deadlines c (m (f s)) s r x
      → Yields keys deadlines c (gets f >>= m) s r x
  Yields-gets f m y = record { after = y.after; runs = y.runs; shows = y.shows }

  module _ {s : Server D E} {x : Contents} (shows : Shows keys deadlines s x) (d : ℕ)
      (k : Text) where
    pub find_key-Yields :
        Yields keys deadlines c (find_key keys deadlines c d k) s (value_of (x.keys d k)) x
    unfolding find_key
    find_key-Yields =
        let b = shows.dbs d in
        let (sound, same, found) = keys.find_lem (s.db d).dict k b.sound in
        record {
          after = put_dict s d (keys.find (s.db d).dict k).0;
          runs = rw (found, b.values k) refl;
          shows = stepped_dict shows d (keys.find (s.db d).dict k).0 sound same;
        }
