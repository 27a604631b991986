-- ===== src/Util/Glob/Spelling.antt =====
-- How the tokens of a pattern come from its first byte.
use redis_allocators.Prelude.{
  ℕ, suc, ◌≡◌, refl, Bool, false, Option, none, some, List, [], ◌∷◌, ◌==◌, Bool-cases, inl, inr,
  arith,
}
use redis_allocators.Util.Glob.{drop_stars, negation, unescaped}
use redis_allocators.Util.Glob.Tokens.{
  Item, Token, many, any, class, byte, items, with_token, with_class, tokens,
}

with_token-eq-some :
    (k : Token) (o : Option (List Token)) (t : List Token)
    → with_token k o ≡ some t
    → (u : List Token) × (o ≡ some u) × (t ≡ k ∷ u)
with_token-eq-some k none t h = cc
with_token-eq-some k (some u) t h = (u, refl, (cc))

with_class-eq-some :
    (rest : List ℕ → Option (List Token)) (negative : Bool) (o : Option (List Item × List ℕ))
    (t : List Token)
    → with_class rest negative o ≡ some t
    → (l : List Item) × (r : List ℕ) × (u : List Token) × (o ≡ some (l, r))
      × (rest r ≡ some u)
      × (t ≡ class negative l ∷ u)
with_class-eq-some rest negative none t h = cc
with_class-eq-some rest negative (some (l, r)) t h =
    let (u, e, same_t) = with_token-eq-some (class negative l) (rest r) t h in
    (l, r, u, refl, e, same_t)

pub drop_stars_idem : (p : List ℕ) → drop_stars (drop_stars p) ≡ drop_stars p
unfolding drop_stars
drop_stars_idem [] = refl
drop_stars_idem (x ∷ p) = elim (Bool-cases (x == b'*')) [
  | inl e ↦ rw e (drop_stars_idem p)
  | inr e ↦ rw e (rw (e, drop_stars) refl)
]

-- How a pattern with a byte spells its tokens.
pub data Spelling (fuel x : ℕ) (p : List ℕ) (t : List Token) : Type 0 where
  star :
      x ≡ b'*'
      → (u : List Token) → tokens fuel (drop_stars p) ≡ some u
      → t ≡ many ∷ u
      → Spelling fuel x p t
  mark :
      (x == b'*') ≡ false
      → x ≡ b'?'
      → (u : List Token) → tokens fuel p ≡ some u
      → t ≡ any ∷ u
      → Spelling fuel x p t
  bracket :
      (x == b'*') ≡ false
      → (x == b'?') ≡ false
      → x ≡ b'['
      → (l : List Item) (r : List ℕ) (u : List Token) → items (negation p).1 ≡ some (l, r)
      → tokens fuel r ≡ some u
      → t ≡ class (negation p).0 l ∷ u
      → Spelling fuel x p t
  single :
      (x == b'*') ≡ false
      → (x == b'?') ≡ false
      → (x == b'[') ≡ false
      → (u : List Token) → tokens fuel (unescaped x p).1 ≡ some u
      → t ≡ byte (unescaped x p).0 ∷ u
      → Spelling fuel x p t

pub spelling :
    (fuel x : ℕ) (p : List ℕ) (t : List Token)
    → tokens (suc fuel) (x ∷ p) ≡ some t
    → Spelling fuel x p t
unfolding tokens
spelling fuel x p t h = elim (Bool-cases (x == b'*')) [
  | inl e ↦
      let (u, o, same_t) = with_token-eq-some many (tokens fuel (drop_stars p)) t (rw e at h) in
      star (ground arith) u o same_t
  | inr e ↦ elim (Bool-cases (x == b'?')) [
    | inl e' ↦
        let (u, o, same_t) = with_token-eq-some any (tokens fuel p) t (rw (e, e') at h) in
        mark e (ground arith) u o same_t
    | inr e' ↦ elim (Bool-cases (x == b'[')) [
      | inl e'' ↦
          let (l, r, u, o, o', same_t) =
            with_class-eq-some (tokens fuel) (negation p).0 (items (negation p).1) t
              (rw (e, e', e'') at h) in
          bracket e e' (ground arith) l r u o o' same_t
      | inr e'' ↦
          let (u, o, same_t) =
            with_token-eq-some (byte (unescaped x p).0) (tokens fuel (unescaped x p).1) t
              (rw (e, e', e'') at h) in
          single e e' e'' u o same_t
    ]
  ]
]
