-- ===== src/Executor/Arguments.antt =====
-- The array of 1024 arguments that `launch_proc_` fills on its stack: `make_cmd_`, `make_argv_` and the
-- null pointer behind them.
use native.Mathlib.Decide.{dec_lt}
use coin_data.Prelude.{
  ℕ, suc, ◌+◌, ◌≤◌, ◌<◌, ◌≡◌, refl, Bool, true, List, [], ◌∷◌, Result, ok, fault, Fault, ◌>>=◌,
  arith, ltb, length, if◌then◌else◌,
}
use coin_data.Strings.{Text, split}

-- A write of an element of the array
unfoldable pub put_argument : ℕ → Result Bool
put_argument i = if ltb i 1024 then ok true else fault Fault.out_of_range

-- `make_argv_` from an index on; the result is what `execvpe` is given.
unfoldable pub make_argv : ℕ → List Text → Result (List Text)
unfolding put_argument
make_argv i [] = ok []
make_argv i (arg ∷ args) =
    let rest = make_argv (suc i) args in put_argument i >>= λ _. rest >>= λ argv. ok (arg ∷ argv)

-- `launch_proc_` up to the call of `execvpe`
unfoldable pub launch_proc : Text → List Text → Result (List Text)
unfolding put_argument make_argv
launch_proc cmd args = put_argument 0 >>= λ _.
    make_argv 1 args >>= λ argv. put_argument (1 + length args) >>= λ _. ok (cmd ∷ argv)

-- `execute` of a command and a string of arguments
unfoldable pub launch_line : Text → Text → Result (List Text)
unfolding split launch_proc
launch_line cmd line = split line (32 ∷ []) >>= λ args. launch_proc cmd args

make_argv-fits : (i : ℕ) (args : List Text) → i + length args ≤ 1024 → make_argv i args ≡ ok args
unfolding make_argv put_argument
make_argv-fits i [] h = refl
make_argv-fits i (arg ∷ args) h = ground (arith, h, make_argv-fits (suc i) args)

make_argv-exceeds :
    (i : ℕ) (args : List Text)
    → i ≤ 1024
    → 1024 < i + length args
    → make_argv i args ≡ fault Fault.out_of_range
unfolding make_argv put_argument
make_argv-exceeds i [] l h = absurd (omega arith)
make_argv-exceeds i (arg ∷ args) l h = ground (arith, h, l, make_argv-exceeds (suc i) args)

-- `launch_proc_` gives the command and its arguments to the system if there are at most 1022
-- arguments, and writes behind its array if there are more.
pub launch_proc-bounds :
    (cmd : Text) (args : List Text)
    → launch_proc cmd args
      ≡ (if ltb (length args) 1023 then ok (cmd ∷ args) else fault Fault.out_of_range)
unfolding launch_proc put_argument
launch_proc-bounds cmd args = elim (dec_lt (length args) 1024) [
  | yes h ↦ ground (arith, h, make_argv-fits 1 args)
  | no h ↦ ground (arith, h, make_argv-exceeds 1 args)
]
