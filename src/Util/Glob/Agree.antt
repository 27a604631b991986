-- ===== src/Util/Glob/Agree.antt =====
-- `stringmatchlen` against the language of glob patterns.
use redis_allocators.Prelude.{
  ℕ, zero, suc, ◌≡◌, refl, sym, Bool, true, false, ◌&&◌, ◌||◌, Option, none, some, List, [], ◌∷◌,
  ◌==◌, if◌then◌else◌, length, Bool-cases, inl, inr, arith,
}
use redis_allocators.Util.Glob.{
  Place, at, Outcome, hit, miss, drop_stars, at_end, try_suffixes, star_round, class_loop, in_span,
  negation, unescaped, next, if_matched, match_loop, stringmatchlen, same,
}
use redis_allocators.Util.Glob.Tokens.{
  Item, exactly, plain, span, Token, many, any, class, byte, items, with_item, tokens, some_item,
  has_item, takes, describes,
}
use redis_allocators.Util.Glob.Spelling.{star, mark, bracket, single, spelling, drop_stars_idem}

abbrev pub answer : Bool → Outcome
answer b = if b then hit else miss

module _ (tolower : ℕ → ℕ) (nocase : Bool) where
  abbrev classified : ℕ → Bool → Option (List Item × List ℕ) → Option (Bool × List ℕ)
  classified c m none = none
  classified c m (some (l, q)) = some (m || some_item tolower nocase c l, q)

  classified_item :
      (c : ℕ) (m : Bool) (i : Item) (o : Option (List Item × List ℕ))
      → classified c (m || has_item tolower nocase c i) o ≡ classified c m (with_item i o)
  unfolding some_item
  classified_item c m i none = refl
  classified_item c m i (some (l, q)) = ground arith

  class_loop-classified :
      (c : ℕ) (m : Bool) (p : List ℕ) → class_loop tolower nocase c m p ≡ classified c m (items p)
  unfolding class_loop items some_item
  class_loop-classified c m [] = ground arith
  class_loop-classified c m (x ∷ []) = ground arith
  class_loop-classified c m (x ∷ y ∷ []) = ground (
    arith,
    class_loop-classified c (m || y == c) [],
    classified_item c m (exactly y) (items []),
    class_loop-classified c (m || same tolower nocase x c) (y ∷ []),
    classified_item c m (plain x) (items (y ∷ [])),
  )
  class_loop-classified c m (x ∷ y ∷ z ∷ p) = ground (
    arith,
    class_loop-classified c (m || y == c) (z ∷ p),
    classified_item c m (exactly y) (items (z ∷ p)),
    class_loop-classified c (m || in_span tolower nocase x z c) p,
    classified_item c m (span x z) (items p),
    class_loop-classified c (m || same tolower nocase x c) (y ∷ z ∷ p),
    classified_item c m (plain x) (items (y ∷ z ∷ p)),
  )

  if_matched-answer :
      (b : Bool) (d : Bool) {rest : Outcome} → rest ≡ answer d → if_matched b rest ≡ answer (b && d)
  if_matched-answer true d h = h
  if_matched-answer false d h = refl

  at_end-tokens :
      (fuel : ℕ) (p : List ℕ) (t : List Token)
      → tokens fuel p ≡ some t
      → at_end (drop_stars p) (at []) ≡ answer (describes tolower nocase t [])
  unfolding tokens drop_stars describes
  at_end-tokens fuel [] t h = cc
  at_end-tokens zero (x ∷ p) t h = cc
  at_end-tokens (suc fuel) (x ∷ p) t h = elim (spelling fuel x p t h) [
    | star e u o same_t ↦
        let ih = at_end-tokens fuel (drop_stars p) u o in
        rw (same_t, e, sym ih, drop_stars_idem p) refl
    | mark e _ u o same_t ↦ rw (same_t, e) refl
    | bracket e _ _ l r u o o' same_t ↦ rw (same_t, e) refl
    | single e _ _ u o same_t ↦ rw (same_t, e) refl
  ]

  try_suffixes-star :
      (go : Place → Outcome) (t : List Token)
      → ((c : ℕ) (s : List ℕ) → go (at (c ∷ s)) ≡ answer (describes tolower nocase t (c ∷ s)))
      → describes tolower nocase t [] ≡ false
      → (s : List ℕ) → try_suffixes go s ≡ answer (describes tolower nocase (many ∷ t) s)
  unfolding try_suffixes describes
  try_suffixes-star go t agree ends [] = rw ends refl
  try_suffixes-star go t agree ends (c ∷ s) =
      let ih = try_suffixes-star go t agree ends s in
      elim (Bool-cases (describes tolower nocase t (c ∷ s))) [
        | inl e ↦ rw (agree c s, e, try_suffixes) refl
        | inr e ↦ rw (agree c s, e, try_suffixes) ih
      ]

  many-describes : (s : List ℕ) → describes tolower nocase (many ∷ []) s ≡ true
  unfolding describes
  many-describes [] = refl
  many-describes (c ∷ s) = rw (many-describes s) refl

  star_round-agrees :
      (go : List ℕ → Place → Outcome) (p : List ℕ) (t : List Token)
      → drop_stars p ≡ p
      → at_end p (at []) ≡ answer (describes tolower nocase t [])
      → ((c : ℕ) (s : List ℕ) → go p (at (c ∷ s)) ≡ answer (describes tolower nocase t (c ∷ s)))
      → (p ≡ [] → t ≡ [])
      → (s : List ℕ) → star_round go p (at s) ≡ answer (describes tolower nocase (many ∷ t) s)
  star_round-agrees go [] t same_p ends agree empty s = rw (empty refl, many-describes s) refl
  star_round-agrees go (x ∷ p) t same_p ends agree empty s =
      elim (Bool-cases (describes tolower nocase t [])) [
        | inl e ↦ let h : miss ≡ hit = rw e at ends in cc
        | inr e ↦ try_suffixes-star (go (x ∷ p)) t agree e s
      ]

  tokens-empty : (fuel : ℕ) (p : List ℕ) (t : List Token) → tokens fuel p ≡ some t → p ≡ [] → t ≡ []
  unfolding tokens
  tokens-empty fuel [] t h _ = let h' : some [] ≡ some t = h in cc
  tokens-empty fuel (x ∷ p) t h e = cc

  next-agrees :
      (fuel : ℕ) (p : List ℕ) (t : List Token)
      → tokens fuel p ≡ some t
      → ((c : ℕ) (s : List ℕ)
          → match_loop tolower nocase fuel p (at (c ∷ s))
            ≡ answer (describes tolower nocase t (c ∷ s)))
      → (s : List ℕ)
      → next (match_loop tolower nocase fuel p) p (at s) ≡ answer (describes tolower nocase t s)
  next-agrees fuel p t h agree [] = at_end-tokens fuel p t h
  next-agrees fuel p t h agree (c ∷ s) = agree c s

  match_loop-agrees :
      (fuel : ℕ) (p : List ℕ) (t : List Token)
      → tokens fuel p ≡ some t
      → (c : ℕ) (s : List ℕ)
      → match_loop tolower nocase fuel p (at (c ∷ s)) ≡ answer (describes tolower nocase t (c ∷ s))
  unfolding tokens match_loop describes
  match_loop-agrees fuel [] t h c s = rw (tokens-empty fuel [] t h refl) refl
  match_loop-agrees zero (x ∷ p) t h c s = cc
  match_loop-agrees (suc fuel) (x ∷ p) t h c s = elim (spelling fuel x p t h) [
    | star e u o same_t ↦
        let ends = at_end-tokens fuel (drop_stars p) u o in
        rw (same_t, e)
          (star_round-agrees (match_loop tolower nocase fuel) (drop_stars p) u (drop_stars_idem p)
            (rw (drop_stars_idem p) at ends) (match_loop-agrees fuel (drop_stars p) u o)
            (tokens-empty fuel (drop_stars p) u o) (c ∷ s))
    | mark e e' u o same_t ↦
        rw (same_t, e, e') (next-agrees fuel p u o (match_loop-agrees fuel p u o) s)
    | bracket e e' e'' l r u o o' same_t ↦
        let step = next-agrees fuel r u o' (match_loop-agrees fuel r u o') s in
        let cl = class_loop-classified c false (negation p).1 in
        rw (same_t, e, e', e'', cl, o)
          (if_matched-answer (takes tolower nocase (class (negation p).0 l) c)
            (describes tolower nocase u s) step)
    | single e e' e'' u o same_t ↦
        let step =
          next-agrees fuel (unescaped x p).1 u o (match_loop-agrees fuel (unescaped x p).1 u o) s in
        rw (same_t, e, e', e'')
          (if_matched-answer (same tolower nocase (unescaped x p).0 c)
            (describes tolower nocase u s) step)
  ]

  -- Whether the first token is tested with the terminator of the string, and takes it.
  abbrev pub takes_end : List Token → List ℕ → Bool
  takes_end [] s = false
  takes_end (k ∷ t) (c ∷ s) = false
  takes_end (many ∷ t) [] = false
  takes_end (any ∷ t) [] = false
  takes_end (class negative l ∷ t) [] = takes tolower nocase (class negative l) 0
  takes_end (byte x ∷ t) [] = takes tolower nocase (byte x) 0

  pub takes_end-cons : (t : List Token) (c : ℕ) (s : List ℕ) → takes_end t (c ∷ s) ≡ false
  takes_end-cons [] c s = refl
  takes_end-cons (k ∷ t) c s = refl

  match_loop-empty :
      (fuel : ℕ) (p : List ℕ) (t : List Token)
      → tokens fuel p ≡ some t
      → takes_end t [] ≡ false
      → match_loop tolower nocase fuel p (at []) ≡ answer (describes tolower nocase t [])
  unfolding tokens match_loop describes
  match_loop-empty fuel [] t h no_end = rw (tokens-empty fuel [] t h refl) refl
  match_loop-empty zero (x ∷ p) t h no_end = cc
  match_loop-empty (suc fuel) (x ∷ p) t h no_end = elim (spelling fuel x p t h) [
    | star e u o same_t ↦
        let ends = rw (drop_stars_idem p) at (at_end-tokens fuel (drop_stars p) u o) in
        let empty = tokens-empty fuel (drop_stars p) u o in
        rw (same_t, e)
          (star_round-agrees (match_loop tolower nocase fuel) (drop_stars p) u (drop_stars_idem p)
            ends (match_loop-agrees fuel (drop_stars p) u o) empty [])
    | mark e e' u o same_t ↦ rw (same_t, e, e') refl
    | bracket e e' e'' l r u o o' same_t ↦
        let no_end' : takes tolower nocase (class (negation p).0 l) 0 ≡ false =
          rw same_t at no_end in
        let loop = class_loop-classified 0 false (negation p).1 in
        rw (same_t, e, e', e'', loop, o, no_end') refl
    | single e e' e'' u o same_t ↦
        let no_end' : takes tolower nocase (byte (unescaped x p).0) 0 ≡ false =
          rw same_t at no_end in
        rw (same_t, e, e', e'', no_end') refl
  ]

  -- If a pattern spells tokens, and it is not the case that the string is empty while the first
  -- token is a class or a byte that takes the terminator, `stringmatchlen` reads nothing outside of
  -- the texts, and matches exactly the strings that the tokens describe.
  pub stringmatchlen-describes :
      (p : List ℕ) (t : List Token) (s : List ℕ)
      → tokens (length p) p ≡ some t
      → takes_end t s ≡ false
      → stringmatchlen tolower nocase p s ≡ answer (describes tolower nocase t s)
  unfolding stringmatchlen
  stringmatchlen-describes p t [] h no_end = match_loop-empty (length p) p t h no_end
  stringmatchlen-describes p t (c ∷ s) h no_end = match_loop-agrees (length p) p t h c s
