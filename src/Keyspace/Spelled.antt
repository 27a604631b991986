-- ===== src/Keyspace/Spelled.antt =====
-- The options of SET as they are written, and that the command reads them back.
use redis_allocators.Prelude.{
  ℕ, ◌-◌, ◌≡◌, refl, ap, ◌∙◌, Bool, true, false, not, ◌||◌, Option, none, some, List, [], ◌∷◌,
  if◌then◌else◌,
}
use redis_allocators.Prelude.Int.{ℤ}
use redis_allocators.Keyspace.Interface.{Text, Dictionary}
use redis_allocators.Keyspace.Numbers.{Libc}
use redis_allocators.Keyspace.Options.{
  set_with, Options, no_options, is_word, read_option, read_options, expire_number, set_command,
}
use redis_allocators.Keyspace.Spec.{Contents}
use redis_allocators.Keyspace.Yields.{Yields, Yields-cast}
use redis_allocators.Keyspace.Shows.{Shows}
use redis_allocators.Keyspace.Signals.{tell-Yields}
use redis_allocators.Keyspace.Sets.{set_generic-Yields}
use redis_allocators.Keyspace.Described.{reply, set_key_to}
use redis_allocators.Keyspace.State.{Robj, ok, nullbulk, syntaxerr, Setting, Server}

-- An option, with the case of each of its letters.
pub data SetOption : Type 0 where
  only_new only_old : (u v : Bool) → SetOption
  seconds milliseconds : (u v : Bool) → Text → SetOption

abbrev pub cased : Bool → ℕ → ℕ
cased u x = if u then x - 32 else x

abbrev pub word : ℕ → ℕ → Bool → Bool → Text
word x y u v = cased u x ∷ cased v y ∷ []

-- The arguments in front of others.
abbrev pub written : SetOption → List Text → List Text
written (only_new u v) l = word b'n' b'x' u v ∷ l
written (only_old u v) l = word b'x' b'x' u v ∷ l
written (seconds u v t) l = word b'e' b'x' u v ∷ t ∷ l
written (milliseconds u v t) l = word b'p' b'x' u v ∷ t ∷ l

unfoldable pub written_all : List SetOption → List Text → List Text
written_all [] l = l
written_all (o ∷ os) l = written o (written_all os l)

-- What options mean: the last expiry counts.
abbrev pub meant : SetOption → Options → Options
meant (only_new u v) r = record r { nx = true }
meant (only_old u v) r = record r { xx = true }
meant (seconds u v t) r = record r { seconds = true; expire = some t }
meant (milliseconds u v t) r = record r { seconds = false; expire = some t }

unfoldable pub meant_all : List SetOption → Options → Options
meant_all [] r = r
meant_all (o ∷ os) r = meant_all os (meant o r)

-- What the loop does behind a round.
abbrev after_last : Option (Options × Bool) → Option Options
after_last o = elim o [ none ↦ none | some e ↦ some e.0 ]

abbrev after_one : Text → List Text → Option (Options × Bool) → Option Options
after_one next rest o = elim o [
  | none ↦ none
  | some (r', taken) ↦ elim taken [
    | true ↦ read_options rest r'
    | false ↦ read_options (next ∷ rest) r'
  ]
]

-- An option of one argument.
read_options-flag :
    (a : Text) (l : List Text) (r r' : Options)
    → ((next : Option Text) → read_option a next r ≡ some (r', false))
    → read_options (a ∷ l) r ≡ read_options l r'
unfolding read_options
read_options-flag a [] r r' e = ap after_last (e none)
read_options-flag a (next ∷ l) r r' e = ap (after_one next l) (e (some next))

read_options-written :
    (o : SetOption) (l : List Text) (r : Options)
    → read_options (written o l) r ≡ read_options l (meant o r)
unfolding read_options
read_options-written (only_new true true) l r =
    read_options-flag (word b'n' b'x' true true) l r (record r { nx = true }) (λ next. refl)
read_options-written (only_new true false) l r =
    read_options-flag (word b'n' b'x' true false) l r (record r { nx = true }) (λ next. refl)
read_options-written (only_new false true) l r =
    read_options-flag (word b'n' b'x' false true) l r (record r { nx = true }) (λ next. refl)
read_options-written (only_new false false) l r =
    read_options-flag (word b'n' b'x' false false) l r (record r { nx = true }) (λ next. refl)
read_options-written (only_old true true) l r =
    read_options-flag (word b'x' b'x' true true) l r (record r { xx = true }) (λ next. refl)
read_options-written (only_old true false) l r =
    read_options-flag (word b'x' b'x' true false) l r (record r { xx = true }) (λ next. refl)
read_options-written (only_old false true) l r =
    read_options-flag (word b'x' b'x' false true) l r (record r { xx = true }) (λ next. refl)
read_options-written (only_old false false) l r =
    read_options-flag (word b'x' b'x' false false) l r (record r { xx = true }) (λ next. refl)
read_options-written (seconds true true t) l r = refl
read_options-written (seconds true false t) l r = refl
read_options-written (seconds false true t) l r = refl
read_options-written (seconds false false t) l r = refl
read_options-written (milliseconds true true t) l r = refl
read_options-written (milliseconds true false t) l r = refl
read_options-written (milliseconds false true t) l r = refl
read_options-written (milliseconds false false t) l r = refl

-- SET reads every list of options back from its arguments, in whatever case they are written, and
-- goes on with the arguments behind them.
pub read_options-written_all :
    (os : List SetOption) (l : List Text) (r : Options)
    → read_options (written_all os l) r ≡ read_options l (meant_all os r)
unfolding written_all meant_all
read_options-written_all [] l r = refl
read_options-written_all (o ∷ os) l r =
    read_options-written o (written_all os l) r ∙ read_options-written_all os l (meant o r)

-- The arguments are options and nothing else.
pub read_options-options :
    (os : List SetOption) (r : Options) → read_options (written_all os []) r ≡ some (meant_all os r)
unfolding read_options
read_options-options os r = read_options-written_all os [] r

-- Whether an argument is none of the four words.
abbrev pub no_word : Text → Bool
no_word a =
    not (is_word b'n' b'x' a || is_word b'x' b'x' a || is_word b'e' b'x' a || is_word b'p' b'x' a)

none_of :
    (p q r s : Bool)
    → not (p || q || r || s) ≡ true
    → (p ≡ false) × (q ≡ false) × (r ≡ false) × (s ≡ false)
none_of false false false false h = (refl, refl, refl, refl)
none_of true q r s h = cc
none_of false true r s h = cc
none_of false false true s h = cc
none_of false false false true h = cc

-- Behind any options, an argument that is none of the four words is an error.
pub read_options-refuses :
    (os : List SetOption) (a : Text) (l : List Text) (r : Options)
    → no_word a ≡ true
    → read_options (written_all os (a ∷ l)) r ≡ none
unfolding read_options
read_options-refuses os a l r strange =
    read_options-written_all os (a ∷ l) r ∙ refused l (meant_all os r)
  where
    none_read :
        (is_word b'n' b'x' a ≡ false)
        × (is_word b'x' b'x' a ≡ false)
        × (is_word b'e' b'x' a ≡ false)
        × (is_word b'p' b'x' a ≡ false)
    none_read =
        none_of (is_word b'n' b'x' a) (is_word b'x' b'x' a) (is_word b'e' b'x' a)
          (is_word b'p' b'x' a) strange

    unread : (next : Option Text) (r : Options) → read_option a next r ≡ none
    unread none r = let (not_nx, not_xx, not_ex, not_px) = none_read in simp (not_nx, not_xx) refl
    unread (some t) r =
        let (not_nx, not_xx, not_ex, not_px) = none_read in
        simp (not_nx, not_xx, not_ex, not_px) refl

    refused : (l : List Text) (r : Options) → read_options (a ∷ l) r ≡ none
    refused [] r = ap after_last (unread none r)
    refused (next ∷ l) r = ap (after_one next l) (unread (some next) r)

-- SET with what has been read, an error for arguments that are no options.
abbrev pub set_as : Setting → Libc → Contents → ℕ → Text → Robj → Option Options → Contents
set_as c libc x d k v none = reply x syntaxerr
set_as c libc x d k v (some r) =
    set_key_to c x d k v (expire_number libc r.expire) r.seconds r.nx r.xx ok nullbulk

module _ {D E : Type 0} {keys : Dictionary D Robj} {deadlines : Dictionary E ℤ} {c : Setting} where
  set_with-Yields :
      (libc : Libc) (d : ℕ) (k : Text) (v : Robj) (o : Option Options) {s : Server D E}
      {x : Contents}
      → Shows keys deadlines s x
      → Yields keys deadlines c
          (set_with keys deadlines c libc d k v o)
          s
          tt
          (set_as c libc x d k v o)
  set_with-Yields libc d k v none shows = tell-Yields shows _
  set_with-Yields libc d k v (some r) shows =
      set_generic-Yields shows d k v (expire_number libc r.expire) r.seconds r.nx r.xx ok nullbulk

  -- SET runs without an abort, whatever its arguments.
  pub set_command_any-Yields :
      (libc : Libc) (d : ℕ) (k : Text) (v : Robj) (args : List Text) {s : Server D E} {x : Contents}
      → Shows keys deadlines s x
      → Yields keys deadlines c
          (set_command keys deadlines c libc d k v args)
          s
          tt
          (set_as c libc x d k v (read_options args no_options))
  unfolding set_command
  set_command_any-Yields libc d k v args shows =
      set_with-Yields libc d k v (read_options args no_options) shows

  -- From a server that shows contents SET with any options, in whatever case they are written,
  -- runs without an abort and does what they mean; the last expiry counts.
  pub set_command-Yields :
      (libc : Libc) (d : ℕ) (k : Text) (v : Robj) (os : List SetOption) {s : Server D E}
      {x : Contents}
      → Shows keys deadlines s x
      → let r = meant_all os no_options in
        Yields keys deadlines c
          (set_command keys deadlines c libc d k v (written_all os []))
          s
          tt
          (set_key_to c x d k v (expire_number libc r.expire) r.seconds r.nx r.xx ok nullbulk)
  set_command-Yields libc d k v os {s = s} {x = x} shows =
      Yields-cast refl (ap (set_as c libc x d k v) (read_options-options os no_options))
        (set_command_any-Yields libc d k v (written_all os []) shows)
