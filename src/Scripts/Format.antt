-- ===== src/Scripts/Format.antt =====
-- Small helpers of scripts/verify-goal-total/verify-goal-total.mjs, lines 69-91: the command line, and
-- how amounts and addresses are printed.
use raiz_confidential_stack.Prelude.{
  ℕ, suc, ◌-◌, ◌/◌, ◌%◌, ℤ, pos, negsuc, Text, same_text, Bool, true, false, ◌&&◌, Option, none,
  some, List, [], ◌∷◌, ◌++◌, length, take, drop, replicate, ◌==◌, if◌then◌else◌,
}
use raiz_confidential_stack.Shim.Codec.{dec, negate}

abbrev pub first_text : List Text → Option Text
first_text [] = none
first_text (a ∷ args) = some a

-- `args[args.indexOf(name) + 1]`
unfoldable pub value_behind : List Text → Text → Option Text
value_behind [] name = none
value_behind (a ∷ args) name =
    let rest = value_behind args name in if same_text a name then first_text args else rest

-- `arg(name, fallback)`
unfoldable pub arg : List Text → Text → Text → Text
unfolding value_behind
arg args name fallback = elim (value_behind args name) [ none ↦ fallback | some v ↦ v ]

-- Division and remainder of bigints: towards zero, the remainder with the sign of the dividend.
unfoldable pub quotient : ℤ → ℕ → ℤ
quotient (pos n) d = pos (n / d)
quotient (negsuc n) d = negate (suc n / d)

unfoldable pub remainder : ℤ → ℕ → ℤ
remainder (pos n) d = pos (n % d)
remainder (negsuc n) d = negate (suc n % d)

-- `s.padStart(n, "0")`
unfoldable pub pad_start : ℕ → Text → Text
pad_start n s = replicate (n - length s) b'0' ++ s

abbrev pub is_blank : Text → Bool
is_blank [] = true
is_blank (_ ∷ _) = false

-- `s.replace(/0+$/, "")`
unfoldable pub strip_zeros : Text → Text
strip_zeros [] = []
strip_zeros (c ∷ s) =
    let rest = strip_zeros s in if c == b'0' && is_blank rest then [] else c ∷ rest

-- `fmtXlm(stroops)`
unfoldable pub fmt_xlm : ℤ → Text
unfolding quotient remainder pad_start strip_zeros
fmt_xlm stroops =
    let whole = dec (quotient stroops 10_000_000) in
    let frac = strip_zeros (pad_start 7 (dec (remainder stroops 10_000_000))) in
    if is_blank frac then whole else whole ++ b'.' ∷ frac

-- `short(s)`: six characters, an ellipsis, and the last four
unfoldable pub short : Text → Text
short s = take 6 s ++ 0x2026 ∷ drop (length s - 4) s
