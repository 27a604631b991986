-- ===== src/Tests/Glob.antt =====
-- Util/Glob at concrete inputs.
use redis_allocators.Prelude.{
  ℕ, ◌+◌, ◌≡◌, refl, true, false, ◌&&◌, some, List, [], ◌∷◌, leb, if◌then◌else◌, length,
}
use redis_allocators.Util.Glob.{
  Outcome, hit, fault, stringmatchlen, match_loop, class_loop, in_span, drop_stars, try_suffixes,
}
use redis_allocators.Util.Glob.Tokens.{
  Token, many, any, class, byte, span, tokens, items, describes,
}
use redis_allocators.Util.Glob.Agree.{answer, stringmatchlen-describes}
use redis_allocators.Util.Glob.Total.{is_plain}

abbrev tolower : ℕ → ℕ
tolower c = if leb 65 c && leb c 90 then c + 32 else c

abbrev glob : List ℕ → List ℕ → Outcome
glob = stringmatchlen tolower false

abbrev news : List ℕ
news = b'n' ∷ b'e' ∷ b'w' ∷ b's' ∷ b'.' ∷ b'i' ∷ b't' ∷ []

-- `news.[h-j]?`
abbrev news_pattern : List ℕ
news_pattern = b'n' ∷ b'*' ∷ b'.' ∷ b'[' ∷ b'h' ∷ b'-' ∷ b'j' ∷ b']' ∷ b'?' ∷ []

abbrev news_tokens : List Token
news_tokens = byte b'n' ∷ many ∷ byte b'.' ∷ class false (span b'h' b'j' ∷ []) ∷ any ∷ []

news_matches : glob news_pattern news ≡ hit
unfolding stringmatchlen match_loop class_loop in_span drop_stars try_suffixes
news_matches = refl

news_spells : tokens (length news_pattern) news_pattern ≡ some news_tokens
unfolding tokens items drop_stars
news_spells = refl

-- `[^a]*` and the empty string.
class_star_empty : glob (b'[' ∷ b'^' ∷ b'a' ∷ b']' ∷ b'*' ∷ []) [] ≡ hit
unfolding stringmatchlen match_loop class_loop in_span drop_stars try_suffixes
class_star_empty = refl

-- `[^a]b` and the empty string.
class_past_end : glob (b'[' ∷ b'^' ∷ b'a' ∷ b']' ∷ b'b' ∷ []) [] ≡ fault
unfolding stringmatchlen match_loop class_loop in_span drop_stars try_suffixes
class_past_end = refl

-- `[a\` and the string `b`.
open_class : glob (b'[' ∷ b'a' ∷ b'\\' ∷ []) (b'b' ∷ []) ≡ fault
unfolding stringmatchlen match_loop class_loop in_span drop_stars try_suffixes
open_class = refl

ignored_case : stringmatchlen tolower true (b'A' ∷ b'*' ∷ []) (b'a' ∷ b'b' ∷ []) ≡ hit
unfolding stringmatchlen match_loop drop_stars try_suffixes
ignored_case = refl

stringmatchlen-describes_example :
    glob news_pattern news ≡ answer (describes tolower false news_tokens news)
stringmatchlen-describes_example =
    stringmatchlen-describes tolower false news_pattern news_tokens news news_spells refl

news_is_plain : is_plain news_pattern ≡ true
unfolding is_plain
news_is_plain = refl
