-- ===== src/Shim/Prover/Output/Base64.antt =====
-- `toBase64` (raiz-shim.js, line 228) against a decoder of base64.
use raiz_confidential_stack.Prelude.{
  length-drop, take-append-drop, append_assoc, append-nil, sym, ◌≤◌, ℕ, zero, suc, ◌+◌, ◌-◌, ◌*◌,
  ◌/◌, ◌%◌, ◌<◌, Text, false, List, [], ◌∷◌, ◌++◌, All, ltb, ◌==◌, if◌then◌else◌, take, drop,
  length, ◌≡◌, refl, ap, ◌∙◌, arith,
}
use raiz_confidential_stack.Shim.Prover.Output.{chunk, binary_string, letter, btoa, to_base64}

-- The six bits of a letter.
unfoldable sextet : ℕ → ℕ
sextet c =
    if c == b'+'
    then 62
    else if c == b'/'
    then 63
    else if ltb c 58
    then c + 4
    else if ltb c 91
    then c - b'A'
    else c - 71

-- A decoder of RFC 4648: four letters give three bytes, less one for each `=` at the end.
unfoldable pub decode : Text → List ℕ
unfolding sextet
decode (p ∷ q ∷ r ∷ s ∷ rest) =
    let bytes = decode rest in
    let a = sextet p * 4 + sextet q / 16 in
    let b = sextet q % 16 * 16 + sextet r / 4 in
    let c = sextet r % 4 * 64 + sextet s in
    if r == b'=' then a ∷ [] else if s == b'=' then a ∷ b ∷ [] else a ∷ b ∷ c ∷ bytes
decode _ = []

abbrev pub IsByte : ℕ → Type 0
IsByte b = b < 256

sextet-letter : (n : ℕ) → n < 64 → sextet (letter n) ≡ n
unfolding sextet letter
sextet-letter n h = ground arith

letter_pad : (n : ℕ) → (letter n == b'=') ≡ false
unfolding letter
letter_pad n = ground arith

cons_eq : {a b : ℕ} {s t : List ℕ} → a ≡ b → s ≡ t → a ∷ s ≡ b ∷ t
cons_eq h k = cc

decode-btoa : (s : Text) → All IsByte s → decode (btoa s) ≡ s
unfolding decode btoa
decode-btoa [] h = refl
decode-btoa (a ∷ []) (ha, _) =
    rw (sextet-letter (a / 4) (omega arith), sextet-letter (a % 4 * 16) (omega arith))
      (cons_eq (omega arith) refl)
decode-btoa (a ∷ b ∷ []) (ha, (hb, _)) =
    rw
      (
        letter_pad (b % 16 * 4),
        sextet-letter (a / 4) (omega arith),
        sextet-letter (a % 4 * 16 + b / 16) (omega arith),
        sextet-letter (b % 16 * 4) (omega arith),
      )
      (cons_eq (omega arith) (cons_eq (omega arith) refl))
decode-btoa (a ∷ b ∷ c ∷ s) (ha, (hb, (hc, h))) =
    rw
      (
        letter_pad (b % 16 * 4 + c / 64),
        letter_pad (c % 64),
        sextet-letter (a / 4) (omega arith),
        sextet-letter (a % 4 * 16 + b / 16) (omega arith),
        sextet-letter (b % 16 * 4 + c / 64) (omega arith),
        sextet-letter (c % 64) (omega arith),
      )
      (cons_eq (omega arith) (cons_eq (omega arith) (cons_eq (omega arith) (decode-btoa s h))))

binary_string_lem :
    (fuel : ℕ) (bytes : List ℕ) (s : Text)
    → length bytes ≤ fuel
    → binary_string fuel bytes s ≡ s ++ bytes
unfolding binary_string
binary_string_lem zero [] s h = sym (append-nil s)
binary_string_lem zero (b ∷ bytes) s h = absurd (omega arith)
binary_string_lem (suc fuel) [] s h = sym (append-nil s)
binary_string_lem (suc fuel) (b ∷ bytes) s h =
    binary_string_lem fuel (drop chunk (b ∷ bytes)) (s ++ take chunk (b ∷ bytes))
      (omega (arith, length-drop chunk (b ∷ bytes)))
    ∙ append_assoc s (take chunk (b ∷ bytes)) (drop chunk (b ∷ bytes))
    ∙ ap (λ r. s ++ r) (take-append-drop chunk (b ∷ bytes))

-- Bytes that are encoded in chunks of 32768 are read back whole by a decoder of base64, at any
-- length of the input.
pub decode-to_base64 : (bytes : List ℕ) → All IsByte bytes → decode (to_base64 bytes) ≡ bytes
unfolding to_base64
decode-to_base64 bytes h =
    rw (binary_string_lem (length bytes) bytes [] (omega arith)) (decode-btoa bytes h)
