-- ===== src/Slowlog/Args.antt =====
-- The arguments that an entry keeps.
use redis_allocators.Prelude.{
  ℕ, zero, suc, ◌+◌, ◌-◌, ◌≤◌, ◌≡◌, refl, ap, ◌∙◌, true, false, List, [], ◌∷◌, ◌++◌, map, ltb,
  if◌then◌else◌, length, take, arith, Bool-cases, inl, inr, ◌==◌, ◌≢◌,
}
use redis_allocators.Prelude.Int.{ℤ}
use redis_allocators.Slowlog.{Arg, more_arguments, log_arg, log_args, create_entry}

log_all : (n : ℕ) (args : List Arg) → log_args (length args) n n args ≡ map log_arg args
unfolding log_args
log_all n [] = refl
log_all n (a ∷ args) =
    let same : (n == n) ≡ true = ground arith in rw same (ap (λ l. log_arg a ∷ l) (log_all n args))

log_some :
    (left slargc argc : ℕ) (args : List Arg)
    → slargc ≢ argc
    → suc left ≤ length args
    → log_args (suc left) slargc argc args
      ≡ map log_arg (take left args) ++ (more_arguments (argc - slargc + 1) ∷ [])
unfolding log_args
log_some left slargc argc [] ne room = absurd (omega arith)
log_some zero slargc argc (a ∷ args) ne room =
    let differ : (slargc == argc) ≡ false = ground arith in rw differ refl
log_some (suc left) slargc argc (a ∷ args) ne room =
    let differ : (slargc == argc) ≡ false = ground arith in
    let inner : (suc left == 0) ≡ false = ground arith in
    rw (differ, inner) (ap (λ l. log_arg a ∷ l) (log_some left slargc argc args ne (omega arith)))

-- An entry keeps up to 32 arguments, each trimmed by itself. Of a longer command it keeps 31, and
-- then how many are left out.
pub create_entry-argv :
    (args : List Arg) (duration : ℤ) (now id : ℕ)
    → (create_entry args duration now id).argv ≡ (
        if ltb 32 (length args)
        then map log_arg (take 31 args) ++ (more_arguments (length args - 31) ∷ [])
        else map log_arg args)
unfolding create_entry
create_entry-argv args duration now id = elim (Bool-cases (ltb 32 (length args))) [
  | inl e ↦
      let rest : length args - 32 + 1 ≡ length args - 31 = ground arith in
      rw e (
        log_some 31 32 (length args) args (λ h. absurd (ground arith)) (ground arith)
        ∙ ap (λ n. map log_arg (take 31 args) ++ (more_arguments n ∷ [])) rest)
  | inr e ↦ rw e (log_all (length args) args)
]
