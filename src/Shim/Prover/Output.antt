-- ===== src/Shim/Prover/Output.antt =====
-- How results leave raiz-shim.js, lines 214-235: values as JSON, bytes as base64.
pub mod Plain
pub mod Base64
use raiz_confidential_stack.Prelude.{
  ◌-◌, ℕ, zero, suc, ◌+◌, ◌*◌, ◌/◌, ◌%◌, pos, Text, codes, List, [], ◌∷◌, ◌++◌, ltb, ◌==◌,
  if◌then◌else◌, take, drop, length,
}
use raiz_confidential_stack.Values
use raiz_confidential_stack.Values.{Value}
use raiz_confidential_stack.Vendor.{Vendor}

-- `{ x: toHex32(x), y: toHex32(y) }`
abbrev pub hex_point : Text → Text → Value
hex_point x y = Value.obj (
    Values.Fields.field (codes "x") (Value.str x)
      (Values.Fields.field (codes "y") (Value.str y) Values.Fields.end))

module _ (V : Vendor) where
  open V use {to_hex32}

  -- `serialize(v)`
  unfoldable mutual
    pub serialize : Value → Value
    serialize (Value.big n) = Value.str (to_hex32 n)
    serialize (Value.point x y) = hex_point (to_hex32 (pos x)) (to_hex32 (pos y))
    serialize (Value.arr vs) = Value.arr (serialize_all vs)
    serialize (Value.obj fs) = Value.obj (serialize_fields fs)
    serialize v = v

    pub serialize_all : Values.Values → Values.Values
    serialize_all Values.Values.nil = Values.Values.nil
    serialize_all (Values.Values.cons v vs) = Values.Values.cons (serialize v) (serialize_all vs)

    pub serialize_fields : Values.Fields → Values.Fields
    serialize_fields Values.Fields.end = Values.Fields.end
    serialize_fields (Values.Fields.field k v fs) =
        Values.Fields.field k (serialize v) (serialize_fields fs)

abbrev pub chunk : ℕ
chunk = 0x8000

-- The loop of `toBase64` over the bytes from `i` on: the string so far gains one character for each
-- byte of `bytes.subarray(i, i + CHUNK)`. The fuel is the number of bytes left.
unfoldable pub binary_string : ℕ → List ℕ → Text → Text
binary_string zero bytes s = s
binary_string (suc fuel) [] s = s
binary_string (suc fuel) (b ∷ bytes) s =
    binary_string fuel (drop chunk (b ∷ bytes)) (s ++ take chunk (b ∷ bytes))

-- The letter of six bits.
unfoldable pub letter : ℕ → ℕ
letter n =
    if ltb n 26
    then b'A' + n
    else if ltb n 52
    then 71 + n
    else if ltb n 62
    then n - 4
    else if n == 62
    then b'+'
    else b'/'

-- `btoa(s)`: three characters give four letters.
unfoldable pub btoa : Text → Text
unfolding letter
btoa [] = []
btoa (a ∷ []) = letter (a / 4) ∷ letter (a % 4 * 16) ∷ b'=' ∷ b'=' ∷ []
btoa (a ∷ b ∷ []) = letter (a / 4) ∷ letter (a % 4 * 16 + b / 16) ∷ letter (b % 16 * 4) ∷ b'=' ∷ []
btoa (a ∷ b ∷ c ∷ s) =
    letter (a / 4)
    ∷ letter (a % 4 * 16 + b / 16)
    ∷ letter (b % 16 * 4 + c / 64)
    ∷ letter (c % 64)
    ∷ btoa s

-- `toBase64(bytes)`
unfoldable pub to_base64 : List ℕ → Text
unfolding btoa binary_string
to_base64 bytes = btoa (binary_string (length bytes) bytes [])
