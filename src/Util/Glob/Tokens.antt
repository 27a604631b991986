-- ===== src/Util/Glob/Tokens.antt =====
-- Glob patterns as a language: a pattern spells tokens, and tokens describe texts.
use redis_allocators.Prelude.{
  ℕ, zero, suc, Bool, true, false, not, ◌&&◌, ◌||◌, Option, none, some, List, [], ◌∷◌, ◌==◌,
  if◌then◌else◌,
}
use redis_allocators.Util.Glob.{drop_stars, same, in_span, negation, unescaped}

-- A part of a class: a byte behind a backslash, a byte, or a range.
pub data Item : Type 0 where
  exactly plain : ℕ → Item
  span : ℕ → ℕ → Item

-- A run of `*`, a `?`, a class, or a byte.
pub data Token : Type 0 where
  many any : Token
  class : (negative : Bool) → List Item → Token
  byte : ℕ → Token

abbrev pub with_item : Item → Option (List Item × List ℕ) → Option (List Item × List ℕ)
with_item i none = none
with_item i (some (l, q)) = some (i ∷ l, q)

-- The items of a class, and the pattern behind it. A backslash that ends the pattern spells nothing.
unfoldable pub items : List ℕ → Option (List Item × List ℕ)
items [] = some ([], [])
items (x ∷ []) =
    if x == b'\\' then none else if x == b']' then some ([], []) else some (plain x ∷ [], [])
items (x ∷ y ∷ []) =
    let escaped = with_item (exactly y) (items []) in
    let bare = with_item (plain x) (items (y ∷ [])) in
    if x == b'\\' then escaped else if x == b']' then some ([], y ∷ []) else bare
items (x ∷ y ∷ z ∷ p) =
    let escaped = with_item (exactly y) (items (z ∷ p)) in
    let range = with_item (span x z) (items p) in
    let bare = with_item (plain x) (items (y ∷ z ∷ p)) in
    if x == b'\\'
    then escaped
    else if x == b']'
    then some ([], y ∷ z ∷ p)
    else if y == b'-'
    then range
    else bare

abbrev pub with_token : Token → Option (List Token) → Option (List Token)
with_token k none = none
with_token k (some t) = some (k ∷ t)

abbrev pub with_class :
    (List ℕ → Option (List Token)) → Bool → Option (List Item × List ℕ) → Option (List Token)
with_class rest negative none = none
with_class rest negative (some (l, r)) = with_token (class negative l) (rest r)

-- The tokens of a pattern that is no longer than the fuel.
unfoldable pub tokens : ℕ → List ℕ → Option (List Token)
tokens fuel [] = some []
tokens zero (x ∷ p) = none
tokens (suc fuel) (x ∷ p) =
    let star = with_token many (tokens fuel (drop_stars p)) in
    let mark = with_token any (tokens fuel p) in
    let bracket = with_class (tokens fuel) (negation p).0 (items (negation p).1) in
    let single = with_token (byte (unescaped x p).0) (tokens fuel (unescaped x p).1) in
    if x == b'*' then star else if x == b'?' then mark else if x == b'[' then bracket else single

module _ (tolower : ℕ → ℕ) (nocase : Bool) where
  abbrev pub has_item : ℕ → Item → Bool
  has_item c (exactly x) = x == c
  has_item c (plain x) = same tolower nocase x c
  has_item c (span x y) = in_span tolower nocase x y c

  unfoldable pub some_item : ℕ → List Item → Bool
  some_item c [] = false
  some_item c (i ∷ l) = has_item c i || some_item c l

  abbrev pub takes : Token → ℕ → Bool
  takes many c = true
  takes any c = true
  takes (class negative l) c = if negative then not (some_item c l) else some_item c l
  takes (byte x) c = same tolower nocase x c

  -- The texts that the tokens describe: `many` stands for any text, and every other token for one
  -- byte that it takes.
  unfoldable pub describes : List Token → List ℕ → Bool
  describes [] [] = true
  describes [] (c ∷ s) = false
  describes (many ∷ t) [] = describes t []
  describes (many ∷ t) (c ∷ s) = describes t (c ∷ s) || describes (many ∷ t) s
  describes (any ∷ t) [] = false
  describes (any ∷ t) (c ∷ s) = describes t s
  describes (class negative l ∷ t) [] = false
  describes (class negative l ∷ t) (c ∷ s) = takes (class negative l) c && describes t s
  describes (byte x ∷ t) [] = false
  describes (byte x ∷ t) (c ∷ s) = takes (byte x) c && describes t s
