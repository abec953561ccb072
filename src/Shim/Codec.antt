-- ===== src/Shim/Codec.antt =====
-- The codecs of raiz-shim.js, lines 184-212 and 369-381: how parameters become integers, points
-- and strings, and how results become JSON again.
pub mod RoundTrip
use raiz_confidential_stack.Prelude.{
  ◌%◌, ◌/◌, ℕ, zero, suc, ◌+◌, ◌-◌, ◌*◌, ◌^◌, ℤ, pos, negsuc, Text, codes, starts_with, trim, Bool,
  true, false, ◌&&◌, ◌||◌, Option, none, some, [], ◌∷◌, ◌++◌, Result, ok, err, Error, bind_result,
  ltb, leb, ◌==◌, if◌then◌else◌, drop, length,
}
use raiz_confidential_stack.Values
use raiz_confidential_stack.Values.{Value, Num, member, is_nullish}
use raiz_confidential_stack.Vendor.{Vendor}

-- The value of a digit in a radix up to 36.
digit : ℕ → ℕ → Option ℕ
digit radix c =
    let d =
      if leb b'0' c && leb c b'9'
      then c - b'0'
      else if leb b'a' c && leb c b'z'
      then c - 87
      else if leb b'A' c && leb c b'Z'
      then c - 55
      else 36 in
    if ltb d radix then some d else none

scan_digits : ℕ → Text → ℕ → Option ℕ
scan_digits radix [] acc = some acc
scan_digits radix (c ∷ s) acc = elim (digit radix c) [
  | none ↦ none
  | some d ↦ scan_digits radix s (acc * radix + d)
]

read_digits : ℕ → Text → Option ℕ
unfolding scan_digits digit
read_digits radix [] = none
read_digits radix (c ∷ s) = scan_digits radix (c ∷ s) 0

abbrev pub negate : ℕ → ℤ
negate zero = pos 0
negate (suc n) = negsuc n

abbrev map_option : {A B : Type 0} → (A → B) → Option A → Option B
map_option f none = none
map_option f (some a) = some (f a)

-- `BigInt(s)` of a trimmed string that is not empty: decimal digits with a sign or without, or
-- digits behind 0x, 0o or 0b. `none` is its SyntaxError.
unfoldable pub read_big_int : Text → Option ℤ
unfolding read_digits
read_big_int s =
    if starts_with s (codes "0x") || starts_with s (codes "0X")
    then map_option pos (read_digits 16 (drop 2 s))
    else if starts_with s (codes "0o") || starts_with s (codes "0O")
    then map_option pos (read_digits 8 (drop 2 s))
    else if starts_with s (codes "0b") || starts_with s (codes "0B")
    then map_option pos (read_digits 2 (drop 2 s))
    else if starts_with s (codes "-")
    then map_option negate (read_digits 10 (drop 1 s))
    else if starts_with s (codes "+")
    then map_option pos (read_digits 10 (drop 1 s))
    else map_option pos (read_digits 10 s)

-- `Number.isSafeInteger(v) && v >= 0`
is_safe_natural : ℤ → Bool
is_safe_natural (pos n) = ltb n (2 ^ 53)
is_safe_natural (negsuc _) = false

abbrev is_empty : Text → Bool
is_empty [] = true
is_empty (_ ∷ _) = false

-- the string case of `asBig`
unfoldable pub big_of_text : Text → Text → Result ℤ
big_of_text s name =
    if is_empty (trim s)
    then err (Error.not_integer_text name)
    else elim (read_big_int (trim s)) [ none ↦ err (Error.invalid_integer name s) | some n ↦ ok n ]

unfoldable pub as_big : Value → Text → Result ℤ
unfolding big_of_text is_safe_natural
as_big (Value.big n) name = ok n
as_big (Value.num (Num.whole n)) name =
    if is_safe_natural n then ok n else err (Error.not_integer_text name)
as_big (Value.str s) name = big_of_text s name
as_big _ name = err (Error.not_integer_text name)

-- `typeof v === "string" && v.length === 56`
unfoldable pub as_strkey : Value → Text → Result Text
as_strkey (Value.str s) name = if length s == 56 then ok s else err (Error.not_strkey name)
as_strkey _ name = err (Error.not_strkey name)

module _ (V : Vendor) where
  open V use {Point, point_from_bytes, to_bytes32, json_parse}

  -- the bytes be(x) || be(y) of a point, from its two members
  point_of_members : Value → Value → Text → Result Point
  point_of_members x y name = bind_result (as_big x (name ++ codes ".x")) λ xb.
      bind_result (to_bytes32 xb) λ xs.
        bind_result (as_big y (name ++ codes ".y"))
          λ yb. bind_result (to_bytes32 yb) λ ys. point_from_bytes (xs ++ ys)

  point_of_object : Value → Text → Result Point
  unfolding point_of_members
  point_of_object o name = bind_result (member o (codes "x")) λ x.
      bind_result (member o (codes "y")) λ y.
        if is_nullish x || is_nullish y
        then err (Error.not_point name)
        else point_of_members x y name

  unfoldable pub as_point : Value → Text → Result Point
  unfolding point_of_object
  as_point (Value.obj fs) name = point_of_object (Value.obj fs) name
  as_point (Value.point x y) name = point_of_object (Value.point x y) name
  as_point _ name = err (Error.not_point name)

  -- `typeof json === "string" ? JSON.parse(json) : (json ?? {})`
  unfoldable pub parse_params : Value → Result Value
  parse_params (Value.str s) = json_parse s
  parse_params Value.undefined = ok (Value.obj Values.Fields.end)
  parse_params Value.null = ok (Value.obj Values.Fields.end)
  parse_params v = ok v

-- `reqStr(p, name)`: the parameter is there, is a string and is not empty.
unfoldable pub required : Value → Text → Result Text
required (Value.str []) name = err (Error.missing_param name)
required (Value.str (c ∷ s)) name = ok (c ∷ s)
required _ name = err (Error.missing_param name)

unfoldable pub req_str : Value → Text → Result Text
unfolding required
req_str p name = bind_result (member p name) λ v. required v name

-- The digits of `n` in front of `out`; the fuel is above `n`.
decimal_digits : ℕ → ℕ → Text → Text
decimal_digits zero n out = out
decimal_digits (suc fuel) n out =
    let rest = decimal_digits fuel (n / 10) ((b'0' + n % 10) ∷ out) in
    if ltb n 10 then (b'0' + n % 10) ∷ out else rest

-- `v.toString()` of a bigint
unfoldable pub dec : ℤ → Text
unfolding decimal_digits
dec (pos n) = decimal_digits (suc n) n []
dec (negsuc n) = b'-' ∷ decimal_digits (suc (suc n)) (suc n) []
