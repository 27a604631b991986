-- ===== src/Keyspace/Texts.antt =====
-- GET, GETSET, MGET and MSET: what they promise, and that they do it.
use redis_allocators.Prelude.{
  ℕ, ◌+◌, ◌≡◌, refl, Bool, true, false, not, Option, none, some, List, [], ◌∷◌, ◌==◌, if◌then◌else◌,
  length, Bool-cases, inl, inr,
}
use redis_allocators.Prelude.Int.{ℤ}
use redis_allocators.Util.{codes}
use redis_allocators.Dict.Update.{is_none}
use redis_allocators.Keyspace.Interface.{Text, Dictionary}
use redis_allocators.Keyspace.Steps.{pure, ◌>>◌}
use redis_allocators.Keyspace.Spec.{Contents, say, read, set}
use redis_allocators.Keyspace.Yields.{Yields, Yields-bind, Yields-then, Yields-choose}
use redis_allocators.Keyspace.Shows.{Shows}
use redis_allocators.Keyspace.Signals.{tell-Yields, pure-Yields, make_dirty-Yields}
use redis_allocators.Keyspace.Refine.{lookup_key_read-Yields, set_key-Yields}
use redis_allocators.Keyspace.Described.{reply, dirtied}
use redis_allocators.Keyspace.Commands.{add_reply}
use redis_allocators.Keyspace.Strings.{
  get_found, get_generic, get_command, getset_command, mget_reply,
}
use redis_allocators.Keyspace.State.{
  Robj, Reply, ok, czero, cone, nullbulk, wrongtypeerr, wrong_number, bulk, notified, notify_string,
  Setting, Server,
}

module _ (c : Setting) where
  abbrev pub get_reply : Option Robj → Reply
  get_reply none = nullbulk
  get_reply (some v) = if not (c.is_string v) then wrongtypeerr else bulk v

  abbrev pub right_type : Option Robj → Bool
  right_type none = true
  right_type (some v) = c.is_string v

  abbrev pub get : Contents → ℕ → Text → Bool × Contents
  get x d k = (right_type (read c x d k).0, reply (read c x d k).1 (get_reply (read c x d k).0))

  abbrev pub set_notified : Contents → ℕ → Text → Robj → Contents
  set_notified x d k v = say (set c x d k v) (notified notify_string (codes "set") k d)

  abbrev pub getset : Contents → ℕ → Text → Robj → Contents
  getset x d k v =
      if not (get x d k).0 then (get x d k).1 else dirtied (set_notified (get x d k).1 d k v)

  abbrev pub mget_answer : Option Robj → Reply
  mget_answer none = nullbulk
  mget_answer (some v) = if c.is_string v then bulk v else nullbulk

  unfoldable pub mget_all : Contents → ℕ → List Text → Contents
  mget_all x d [] = x
  mget_all x d (k ∷ ks) = let (o, x') = read c x d k in mget_all (reply x' (mget_answer o)) d ks

  -- How many of the keys are there.
  unfoldable pub busy : Contents → ℕ → List (Text × Robj) → ℕ → ℕ × Contents
  busy x d [] n = (n, x)
  busy x d (e ∷ l) n = let (o, x') = read c x d e.0 in busy x' d l (if is_none o then n else n + 1)

  unfoldable pub set_all : Contents → ℕ → List (Text × Robj) → Contents
  set_all x d [] = x
  set_all x d (e ∷ l) = set_all (set_notified x d e.0 e.1) d l

  -- MSETNX sets all keys, or none if one of them is there.
  abbrev pub mset_from : Contents → ℕ → List (Text × Robj) → Bool → ℕ → Contents
  mset_from x d l nx n =
      let y = set_all x d l in
      if not (n == 0)
      then reply x czero
      else reply (record y { dirty = y.dirty + length l }) (if nx then cone else ok)

  abbrev pub busy_if : Contents → ℕ → List (Text × Robj) → Bool → ℕ × Contents
  busy_if x d l nx = if nx then busy x d l 0 else (0, x)

  abbrev pub mset : Contents → ℕ → List (Text × Robj) → (dangling nx : Bool) → Contents
  mset x d l dangling nx =
      if dangling
      then reply x wrong_number
      else mset_from (busy_if x d l nx).1 d l nx (busy_if x d l nx).0

pub mget_reply-answer : (c : Setting) (o : Option Robj) → mget_reply c o ≡ mget_answer c o
mget_reply-answer c none = refl
mget_reply-answer c (some v) = elim (Bool-cases (c.is_string v)) [
  | inl e ↦ simp e refl
  | inr e ↦ simp e refl
]

module _ {D E : Type 0} {keys : Dictionary D Robj} {deadlines : Dictionary E ℤ} {c : Setting} where
  get_found-Yields :
      (o : Option Robj) {s : Server D E} {x : Contents}
      → Shows keys deadlines s x
      → Yields keys deadlines c
          (get_found keys deadlines c o)
          s
          (right_type c o)
          (reply x (get_reply c o))
  get_found-Yields none shows =
      Yields-then _ _ (tell-Yields shows _) (λ s₁ shows₁. pure-Yields shows₁ true)
  get_found-Yields (some v) {s = s} {x = x} shows = decide (c.is_string v)
    where
      decide :
          (b : Bool)
          → Yields keys deadlines c
              (if not b
                then add_reply keys deadlines c wrongtypeerr >> pure false
                else add_reply keys deadlines c (bulk v) >> pure true)
              s
              b
              (reply x (if not b then wrongtypeerr else bulk v))
      decide true = Yields-then _ _ (tell-Yields shows _) (λ s₁ shows₁. pure-Yields shows₁ true)
      decide false = Yields-then _ _ (tell-Yields shows _) (λ s₁ shows₁. pure-Yields shows₁ false)

  module _ {s : Server D E} {x : Contents} (shows : Shows keys deadlines s x) (d : ℕ) where
    get_generic-Yields :
        (k : Text)
        → Yields keys deadlines c
            (get_generic keys deadlines c d k)
            s
            (get c x d k).0
            (get c x d k).1
    unfolding get_generic
    get_generic-Yields k =
        Yields-bind _ (get_found keys deadlines c) (lookup_key_read-Yields shows d k)
          (λ s₁ shows₁. get_found-Yields (read c x d k).0 shows₁)

    pub get_command-Yields :
        (k : Text) → Yields keys deadlines c (get_command keys deadlines c d k) s tt (get c x d k).1
    unfolding get_command
    get_command-Yields k =
        Yields-bind _ (λ _. pure tt) (get_generic-Yields k) (λ s₁ shows₁. pure-Yields shows₁ tt)

    pub getset_command-Yields :
        (k : Text) (v : Robj)
        → Yields keys deadlines c (getset_command keys deadlines c d k v) s tt (getset c x d k v)
    unfolding getset_command
    getset_command-Yields k v = Yields-bind _ _ (get_generic-Yields k) (λ s₁ shows₁.
        Yields-choose (not (get c x d k).0) (pure-Yields shows₁ tt) (
          Yields-then _ _ (set_key-Yields shows₁ d k v) (λ s₂ shows₂.
            Yields-then _ _ (tell-Yields shows₂ _) (λ s₃ shows₃. make_dirty-Yields shows₃))))
