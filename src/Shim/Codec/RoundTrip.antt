-- ===== src/Shim/Codec/RoundTrip.antt =====
-- A bigint that is printed by `dec` and read back by `asBig` is the same bigint.
use raiz_confidential_stack.Prelude.{
  ℕ, zero, suc, ◌+◌, ◌*◌, ◌/◌, ◌%◌, ◌<◌, ◌≤◌, ◌≡◌, ◌≢◌, refl, ap, ◌∙◌, ℤ, pos, negsuc, Text,
  starts_with, trim, trim_start, is_space, false, some, [], ◌∷◌, ok, arith, Bool-cases, inl, inr,
  ltb, All, All-append, ltb→lt,
}
use mathlib.Core.List.{reverse, reverse-append, reverse-reverse}
use raiz_confidential_stack.Values.{Value}
use raiz_confidential_stack.Shim.Codec.{
  digit, scan_digits, read_digits, read_big_int, big_of_text, as_big, decimal_digits, dec,
}

abbrev IsDigit : ℕ → Type 0
IsDigit c = (b'0' ≤ c) × (c ≤ b'9')

digit-ten : (d : ℕ) → d < 10 → digit 10 (b'0' + d) ≡ some d
unfolding digit
digit-ten d h = ground arith

scan_digits-cons :
    (d : ℕ) (s : Text) (acc : ℕ)
    → d < 10
    → scan_digits 10 ((b'0' + d) ∷ s) acc ≡ scan_digits 10 s (acc * 10 + d)
unfolding scan_digits
scan_digits-cons d s acc h = rw (digit-ten d h, scan_digits)

-- Reading what was printed goes on with the rest, from the number.
scan_digits-decimal_digits :
    (fuel n : ℕ) (out : Text)
    → n < fuel
    → scan_digits 10 (decimal_digits fuel n out) 0 ≡ scan_digits 10 out n
unfolding decimal_digits
scan_digits-decimal_digits zero n out h = elim h [ ]
scan_digits-decimal_digits (suc fuel) n out h = elim (Bool-cases (ltb n 10)) [
  | inl small ↦ rw small (
      scan_digits-cons (n % 10) out 0 (omega arith)
      ∙ ap (scan_digits 10 out) (omega (arith, ltb→lt n 10 small)))
  | inr large ↦ rw large (
      scan_digits-decimal_digits fuel (n / 10) ((b'0' + n % 10) ∷ out) (ground arith)
      ∙ scan_digits-cons (n % 10) out (n / 10) (omega arith)
      ∙ ap (scan_digits 10 out) (omega arith))
]

decimal_digits-All :
    (fuel n : ℕ) (out : Text) → All IsDigit out → All IsDigit (decimal_digits fuel n out)
unfolding decimal_digits
decimal_digits-All zero n out h = h
decimal_digits-All (suc fuel) n out h =
    ground (arith, decimal_digits-All fuel (n / 10) ((b'0' + n % 10) ∷ out))

decimal_digits-ne-nil : (fuel n : ℕ) (c : ℕ) (out : Text) → decimal_digits fuel n (c ∷ out) ≢ []
unfolding decimal_digits
decimal_digits-ne-nil zero n c out = ground arith
decimal_digits-ne-nil (suc fuel) n c out =
    ground (arith, decimal_digits-ne-nil fuel (n / 10) (b'0' + n % 10) (c ∷ out))

read_digits-ne-nil : (s : Text) → s ≢ [] → read_digits 10 s ≡ scan_digits 10 s 0
unfolding read_digits
read_digits-ne-nil [] h = absurd (h refl)
read_digits-ne-nil (c ∷ s) h = refl

decimal_digits-ne-nil_start : (n : ℕ) → decimal_digits (suc n) n [] ≢ []
unfolding decimal_digits
decimal_digits-ne-nil_start n = ground (arith, decimal_digits-ne-nil n (n / 10) (b'0' + n % 10) [])

read_digits-decimal_digits : (n : ℕ) → read_digits 10 (decimal_digits (suc n) n []) ≡ some n
unfolding scan_digits
read_digits-decimal_digits n =
    read_digits-ne-nil _ (decimal_digits-ne-nil_start n)
    ∙ scan_digits-decimal_digits (suc n) n [] (omega arith)

-- No digit is white space, so trimming leaves a run of digits alone, behind a sign too.
trim_start-digits : (s : Text) → All (λ c. is_space c ≡ false) s → trim_start s ≡ s
unfolding trim_start
trim_start-digits [] h = refl
trim_start-digits (c ∷ s) h = rw h.0

All-reverse : (P : ℕ → Type 0) (s : Text) → All P s → All P (reverse s)
All-reverse P [] h = tt
All-reverse P (c ∷ s) h =
    rw (reverse-append (c ∷ []) s)
      (All-append P (reverse s) (c ∷ []) (All-reverse P s h.1) (h.0, tt))

pub trim-visible : (s : Text) → All (λ c. is_space c ≡ false) s → trim s ≡ s
unfolding trim
trim-visible s h =
    rw (trim_start-digits s h, trim_start-digits (reverse s) (All-reverse _ s h))
      (reverse-reverse s)

is_space-digit : (c : ℕ) → IsDigit c → is_space c ≡ false
unfolding is_space
is_space-digit c h = ground arith

visible : (s : Text) → All IsDigit s → All (λ c. is_space c ≡ false) s
visible [] h = tt
visible (c ∷ s) h = (is_space-digit c h.0, visible s h.1)

-- A run of digits is read in radix 10.
read_big_int-digits :
    (s : Text) (n : ℕ) → All IsDigit s → read_digits 10 s ≡ some n → read_big_int s ≡ some (pos n)
unfolding read_big_int starts_with
read_big_int-digits [] n h e = ground arith
read_big_int-digits (c ∷ []) n h e = ground arith
read_big_int-digits (c ∷ d ∷ s) n h e = ground arith

read_big_int-negative :
    (s : Text) (n : ℕ) → read_digits 10 s ≡ some (suc n) → read_big_int (b'-' ∷ s) ≡ some (negsuc n)
unfolding read_big_int starts_with
read_big_int-negative s n e = ground arith

visible_text :
    (s : Text) (n : ℤ) (name : Text)
    → All (λ c. is_space c ≡ false) s
    → s ≢ []
    → read_big_int s ≡ some n
    → big_of_text s name ≡ ok n
unfolding big_of_text
visible_text [] n name h ne e = absurd (ne refl)
visible_text (c ∷ s) n name h ne e = rw (trim-visible (c ∷ s) h, e)

pub dec_visible : (n : ℤ) → All (λ c. is_space c ≡ false) (dec n)
unfolding dec is_space
dec_visible (pos n) = visible _ (decimal_digits-All (suc n) n [] tt)
dec_visible (negsuc n) = (refl, visible _ (decimal_digits-All (suc (suc n)) (suc n) [] tt))

pub dec-ne-nil : (n : ℤ) → dec n ≢ []
unfolding dec
dec-ne-nil (pos n) = decimal_digits-ne-nil_start n
dec-ne-nil (negsuc n) = ground arith

pub read_big_int-dec : (n : ℤ) → read_big_int (dec n) ≡ some n
unfolding dec
read_big_int-dec (pos n) =
    read_big_int-digits _ n (decimal_digits-All (suc n) n [] tt) (read_digits-decimal_digits n)
read_big_int-dec (negsuc n) = read_big_int-negative _ n (read_digits-decimal_digits (suc n))

-- A bigint that is sent as its decimal string arrives as itself, whatever its sign and size.
pub as_big-dec : (n : ℤ) (name : Text) → as_big (Value.str (dec n)) name ≡ ok n
unfolding as_big
as_big-dec n name = visible_text (dec n) n name (dec_visible n) (dec-ne-nil n) (read_big_int-dec n)
