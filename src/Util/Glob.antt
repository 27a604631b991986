-- ===== src/Util/Glob.antt =====
-- util.c: `stringmatchlen`, glob-style matching over two texts that end with a terminator.
pub mod Tokens
pub mod Spelling
pub mod Agree
pub mod Total
use redis_allocators.Prelude.{
  ℕ, zero, suc, ◌+◌, ◌%◌, Bool, true, false, not, ◌&&◌, ◌||◌, Option, none, some, List, [], ◌∷◌,
  ltb, leb, ◌==◌, if◌then◌else◌, length,
}

-- A pointer into the string: at the bytes that are left and their terminator, or one past it. There
-- it may not be read or advanced.
pub data Place : Type 0 where
  at : List ℕ → Place
  past : Place

-- The results 1 and 0, and a read or a step outside of a text.
pub data Outcome : Type 0 where
  hit miss fault : Outcome

-- `char` is signed.
abbrev pub lt_char : ℕ → ℕ → Bool
lt_char a b = ltb ((a + 128) % 256) ((b + 128) % 256)

-- The loops over a run of `*`.
unfoldable pub drop_stars : List ℕ → List ℕ
drop_stars [] = []
drop_stars (x ∷ p) = if x == b'*' then drop_stars p else x ∷ p

-- The end of `stringmatchlen`, behind the loop.
abbrev pub at_end : List ℕ → Place → Outcome
at_end [] (at []) = hit
at_end [] s = miss
at_end (x ∷ p) s = miss

-- The loop of a `*` over the suffixes of the string.
unfoldable pub try_suffixes : (Place → Outcome) → List ℕ → Outcome
try_suffixes rest [] = miss
try_suffixes rest (c ∷ s) = elim (rest (at (c ∷ s))) [
  | hit ↦ hit
  | miss ↦ try_suffixes rest s
  | fault ↦ fault
]

abbrev pub try_from : (Place → Outcome) → Place → Outcome
try_from rest (at s) = try_suffixes rest s
try_from rest past = elim (rest past) [ hit ↦ hit | miss ↦ fault | fault ↦ fault ]

-- A round for a run of `*`, with the pattern behind it.
abbrev pub star_round : (List ℕ → Place → Outcome) → List ℕ → Place → Outcome
star_round go [] s = hit
star_round go (x ∷ p) s = try_from (go (x ∷ p)) s

-- `not`, and the pattern behind it.
abbrev pub negation : List ℕ → Bool × List ℕ
negation [] = (false, [])
negation (x ∷ p) = if x == b'^' then (true, p) else (false, x ∷ p)

-- `pattern[0]` and `string[0]` behind the test for a backslash.
abbrev pub unescaped : ℕ → List ℕ → ℕ × List ℕ
unescaped x [] = (x, [])
unescaped x (y ∷ p) = if x == b'\\' then (y, p) else (x, y ∷ p)

-- The end of a round: the string has been advanced, and `go` is the loop.
abbrev pub next : (Place → Outcome) → List ℕ → Place → Outcome
next go p (at []) = at_end (drop_stars p) (at [])
next go p (at (c ∷ s)) = go (at (c ∷ s))
next go p past = go past

-- A round for a byte of the string that has been tested.
abbrev pub advance : (Place → Outcome) → List ℕ → Place → Outcome
advance go p (at []) = next go p past
advance go p (at (c ∷ s)) = next go p (at s)
advance go p past = fault

-- A round for `?`.
abbrev pub any_byte : (Place → Outcome) → List ℕ → Place → Outcome
any_byte go p (at []) = miss
any_byte go p (at (c ∷ s)) = next go p (at s)
any_byte go p past = fault

-- `string[0]`
abbrev pub head : Place → Option ℕ
head (at []) = some 0
head (at (c ∷ s)) = some c
head past = none

abbrev pub if_matched : Bool → Outcome → Outcome
if_matched b rest = if b then rest else miss

-- A round for a class, with the result of its loop.
abbrev pub class_round :
    (List ℕ → Place → Outcome) → Bool → Option (Bool × List ℕ) → Place → Outcome
class_round go negative none s = fault
class_round go negative (some (match, p)) s =
    if_matched (if negative then not match else match) (advance (go p) p s)

module _ (tolower : ℕ → ℕ) (nocase : Bool) where
  abbrev pub same : ℕ → ℕ → Bool
  same a b = if not nocase then a == b else tolower a == tolower b

  -- A range of a class. The ends are swapped before the case is folded.
  unfoldable pub in_span : ℕ → ℕ → ℕ → Bool
  in_span start end c =
      let lo = if lt_char end start then end else start in
      let hi = if lt_char end start then start else end in
      let fold = λ (x : ℕ). if nocase then tolower x else x in
      not (lt_char (fold c) (fold lo)) && not (lt_char (fold hi) (fold c))

  -- The loop over a class for the byte `c`: whether it has matched, and the pattern behind the
  -- class, which is the end of the pattern if no `]` closes it. `none` is a read behind the
  -- terminator, after a backslash that ends the pattern.
  unfoldable pub class_loop : ℕ → Bool → List ℕ → Option (Bool × List ℕ)
  class_loop c match [] = some (match, [])
  class_loop c match (x ∷ []) =
      if x == b'\\'
      then none
      else if x == b']'
      then some (match, [])
      else some (match || same x c, [])
  class_loop c match (x ∷ y ∷ []) =
      let escaped = class_loop c (match || y == c) [] in
      let plain = class_loop c (match || same x c) (y ∷ []) in
      if x == b'\\' then escaped else if x == b']' then some (match, y ∷ []) else plain
  class_loop c match (x ∷ y ∷ z ∷ p) =
      let escaped = class_loop c (match || y == c) (z ∷ p) in
      let span = class_loop c (match || in_span x z c) p in
      let plain = class_loop c (match || same x c) (y ∷ z ∷ p) in
      if x == b'\\'
      then escaped
      else if x == b']'
      then some (match, y ∷ z ∷ p)
      else if y == b'-'
      then span
      else plain

  -- The loop of `stringmatchlen`; each round uses up a byte of the pattern.
  unfoldable pub match_loop : ℕ → List ℕ → Place → Outcome
  match_loop fuel [] s = at_end [] s
  match_loop zero (x ∷ p) s = fault
  match_loop (suc fuel) (x ∷ p) s =
      let star = star_round (match_loop fuel) (drop_stars p) s in
      let mark = any_byte (match_loop fuel p) p s in
      let class : Outcome = elim (head s) [
        | none ↦ fault
        | some c ↦
            class_round (match_loop fuel) (negation p).0 (class_loop c false (negation p).1) s
      ] in
      let byte : Outcome = elim (head s) [
        | none ↦ fault
        | some c ↦
            let (y, q) = unescaped x p in if_matched (same y c) (advance (match_loop fuel q) q s)
      ] in
      if x == b'*' then star else if x == b'?' then mark else if x == b'[' then class else byte

  -- `stringmatchlen`
  unfoldable pub stringmatchlen : List ℕ → List ℕ → Outcome
  stringmatchlen pattern string = match_loop (length pattern) pattern (at string)
