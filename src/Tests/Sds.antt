-- ===== src/Tests/Sds.antt =====
-- sds.c: the text of two numbers, and the theorems at them.
use redis_allocators.Prelude.{◌+◌, ◌≤◌, ◌≡◌, refl, [], ◌∷◌, arith}
use redis_allocators.Prelude.Int.{negsuc}
use redis_allocators.Prelude.Memory.{Memory, read}
use redis_allocators.Util.{magnitude}
use redis_allocators.Util.Decimal.{decimal_text}
use redis_allocators.Sds.{push_digits, reverse_loop, sdsll2str, sdsfromlonglong}
use redis_allocators.Sds.Text.{IsText, sdsll2str-IsText}

abbrev garbage : Memory
garbage j = 255

minus_205 : sdsfromlonglong garbage (negsuc 204) ≡ b'-' ∷ b'2' ∷ b'0' ∷ b'5' ∷ []
unfolding sdsfromlonglong sdsll2str push_digits reverse_loop magnitude read
minus_205 = refl

sdsll2str-IsText_example :
    let (l, m) = sdsll2str garbage (negsuc 204) in
    IsText garbage (decimal_text (negsuc 204)) l m × (l + 1 ≤ 21)
sdsll2str-IsText_example = sdsll2str-IsText garbage (negsuc 204) (omega arith)
