-- ===== src/Util/Glob/Total.antt =====
-- `stringmatchlen` on patterns without a backslash: they all spell tokens, and no read leaves the texts.
use redis_allocators.Prelude.{
  ℕ, zero, suc, ◌≤◌, ◌≡◌, refl, Bool, true, false, not, ◌&&◌, Option, some, List, [], ◌∷◌, ◌==◌,
  length, Bool-cases, inl, inr, arith,
}
use redis_allocators.Util.Glob.{drop_stars, negation, unescaped, stringmatchlen}
use redis_allocators.Util.Glob.Tokens.{
  Item, plain, span, Token, many, any, class, byte, items, with_item, tokens, describes,
}
use redis_allocators.Util.Glob.Agree.{answer, takes_end-cons, stringmatchlen-describes}

-- No byte is a backslash.
unfoldable pub is_plain : List ℕ → Bool
is_plain [] = true
is_plain (x ∷ p) = not (x == b'\\') && is_plain p

is_plain-cons :
    (x : ℕ) (p : List ℕ) → is_plain (x ∷ p) ≡ true → (x == b'\\' ≡ false) × (is_plain p ≡ true)
unfolding is_plain
is_plain-cons x p ok = elim (Bool-cases (x == b'\\')) [
  | inl e ↦ let h : false ≡ true = rw e at ok in cc
  | inr e ↦ (e, (rw e at ok))
]

-- The result is there, and the rest of the pattern is plain and no longer than `n`.
data ItemsWithin (n : ℕ) (o : Option (List Item × List ℕ)) : Type 0 where
  within :
      (l : List Item) (r : List ℕ)
      → o ≡ some (l, r)
      → is_plain r ≡ true
      → length r ≤ n
      → ItemsWithin n o

with_item-ItemsWithin :
    {n : ℕ} (m : ℕ) (i : Item) (o : Option (List Item × List ℕ))
    → n ≤ m
    → ItemsWithin n o
    → ItemsWithin m (with_item i o)
with_item-ItemsWithin m i o le (within l r e ok short) =
    within (i ∷ l) r (rw e refl) ok (omega arith)

items-ItemsWithin : (p : List ℕ) → is_plain p ≡ true → ItemsWithin (length p) (items p)
unfolding items is_plain
items-ItemsWithin [] ok = within [] [] refl refl (omega arith)
items-ItemsWithin (x ∷ []) ok =
    let (no_escape, _) = is_plain-cons x [] ok in
    elim (Bool-cases (x == b']')) [
      | inl e ↦ within [] [] (rw (no_escape, e) refl) refl (omega arith)
      | inr e ↦ within (plain x ∷ []) [] (rw (no_escape, e) refl) refl (omega arith)
    ]
items-ItemsWithin (x ∷ y ∷ []) ok =
    let (no_escape, ok₁) = is_plain-cons x (y ∷ []) ok in
    elim (Bool-cases (x == b']')) [
      | inl e ↦ within [] (y ∷ []) (rw (no_escape, e) refl) ok₁ (omega arith)
      | inr e ↦
          rw (no_escape, e)
            (with_item-ItemsWithin 2 (plain x) (items (y ∷ [])) (omega arith)
              (items-ItemsWithin (y ∷ []) ok₁))
    ]
items-ItemsWithin (x ∷ y ∷ z ∷ p) ok =
    let (no_escape, ok₁) = is_plain-cons x (y ∷ z ∷ p) ok in
    let (_, ok₂) = is_plain-cons y (z ∷ p) ok₁ in
    let (_, ok₃) = is_plain-cons z p ok₂ in
    let n = length (x ∷ y ∷ z ∷ p) in
    let range = items-ItemsWithin p ok₃ in
    let bare = items-ItemsWithin (y ∷ z ∷ p) ok₁ in
    elim (Bool-cases (x == b']')) [
      | inl e ↦ within [] (y ∷ z ∷ p) (rw (no_escape, e) refl) ok₁ (omega arith)
      | inr e ↦ elim (Bool-cases (y == b'-')) [
        | inl e' ↦
            rw (no_escape, e, e') (with_item-ItemsWithin n (span x z) (items p) (omega arith) range)
        | inr e' ↦
            rw (no_escape, e, e')
              (with_item-ItemsWithin n (plain x) (items (y ∷ z ∷ p)) (omega arith) bare)
      ]
    ]

drop_stars-plain :
    (p : List ℕ)
    → is_plain p ≡ true
    → (is_plain (drop_stars p) ≡ true) × (length (drop_stars p) ≤ length p)
unfolding drop_stars is_plain
drop_stars-plain [] ok = (refl, (omega arith))
drop_stars-plain (x ∷ p) ok =
    let (_, ok₁) = is_plain-cons x p ok in
    let (ok₂, short) = drop_stars-plain p ok₁ in
    elim (Bool-cases (x == b'*')) [
      | inl e ↦ rw e (ok₂, (omega arith))
      | inr e ↦ rw e (ok, (omega arith))
    ]

negation-plain :
    (p : List ℕ)
    → is_plain p ≡ true
    → (is_plain (negation p).1 ≡ true) × (length (negation p).1 ≤ length p)
negation-plain [] ok = (ok, (omega arith))
negation-plain (x ∷ p) ok =
    let (_, ok₁) = is_plain-cons x p ok in
    elim (Bool-cases (x == b'^')) [
      | inl e ↦ rw e (ok₁, (omega arith))
      | inr e ↦ rw e (ok, (omega arith))
    ]

unescaped-plain : (x : ℕ) (p : List ℕ) → x == b'\\' ≡ false → (unescaped x p).1 ≡ p
unescaped-plain x [] e = refl
unescaped-plain x (y ∷ p) e = rw e refl

-- A pattern without a backslash spells tokens.
tokens-plain :
    (fuel : ℕ) (p : List ℕ)
    → is_plain p ≡ true
    → length p ≤ fuel
    → (t : List Token) × (tokens fuel p ≡ some t)
unfolding tokens
tokens-plain fuel [] ok enough = ([], refl)
tokens-plain zero (x ∷ p) ok enough = absurd (omega arith)
tokens-plain (suc fuel) (x ∷ p) ok enough =
    let (no_escape, ok₁) = is_plain-cons x p ok in
    elim (Bool-cases (x == b'*')) [
      | inl e ↦
          let (ok₂, short) = drop_stars-plain p ok₁ in
          let (t, h) = tokens-plain fuel (drop_stars p) ok₂ (omega arith) in
          (many ∷ t, (rw (e, h) refl))
      | inr e ↦ elim (Bool-cases (x == b'?')) [
        | inl e' ↦
            let (t, h) = tokens-plain fuel p ok₁ (omega arith) in (any ∷ t, (rw (e, e', h) refl))
        | inr e' ↦ elim (Bool-cases (x == b'[')) [
          | inl e'' ↦
              let (ok₂, short) = negation-plain p ok₁ in
              elim (items-ItemsWithin (negation p).1 ok₂) [
                | within l r o ok_r short_r ↦
                    let (t, h) = tokens-plain fuel r ok_r (omega arith) in
                    (class (negation p).0 l ∷ t, (rw (e, e', e'', o, h) refl))
              ]
          | inr e'' ↦
              let (t, h) = tokens-plain fuel p ok₁ (omega arith) in
              (byte (unescaped x p).0 ∷ t, (rw (e, e', e'', unescaped-plain x p no_escape, h) refl))
        ]
      ]
    ]

-- On a pattern without a backslash and a string that is not empty, `stringmatchlen` answers, and
-- reads nothing outside of the texts: its result is that for the tokens that the pattern spells.
pub stringmatchlen-is_plain :
    (tolower : ℕ → ℕ) (nocase : Bool) (p : List ℕ) (c : ℕ) (s : List ℕ)
    → is_plain p ≡ true
    → (t : List Token) × (tokens (length p) p ≡ some t)
      × (stringmatchlen tolower nocase p (c ∷ s) ≡ answer (describes tolower nocase t (c ∷ s)))
stringmatchlen-is_plain tolower nocase p c s ok =
    let (t, h) = tokens-plain (length p) p ok (omega arith) in
    (
      t,
      h,
      stringmatchlen-describes tolower nocase p t (c ∷ s) h (takes_end-cons tolower nocase t c s),
    )
