-- ===== src/Values.antt =====
-- Values that reach the JavaScript code (wallet/app/src/main/assets/prover/raiz-shim.js): what
-- `JSON.parse` gives, with the bigints and the curve points that the vendor's builders return.
use raiz_confidential_stack.Prelude.{
  [], some, ◌∷◌, ◌&&◌, none, eqb_ℤ, Option, suc, not, ℕ, ℤ, pos, Text, codes, same_text, Bool, true,
  false, Result, ok, err, Error, if◌then◌else◌,
}

-- A double: a whole number, or anything else (a fraction, NaN, an infinity) by its print.
pub data Num : Type 0 where
  whole : ℤ → Num
  not_whole : Text → Num

-- `point x y` is an object with a `toAffine` method, by the coordinates that `pointCoords` reads.
mutual
  pub data Value : Type 0 where
    undefined null : Value
    bool : Bool → Value
    num : Num → Value
    big : ℤ → Value
    str : Text → Value
    point : ℕ → ℕ → Value
    arr : Values → Value
    obj : Fields → Value

  pub data Values : Type 0 where
    nil : Values
    cons : Value → Values → Values

  pub data Fields : Type 0 where
    end : Fields
    field : Text → Value → Fields → Fields

-- `fs[name]` of an object: the last entry of a name is the one that stays.
unfoldable pub get_field : Text → Fields → Value → Value
get_field name end found = found
get_field name (field k v fs) found = get_field name fs (if same_text k name then v else found)

-- `v[name]`. None of the names read is a method of strings, numbers or arrays.
unfoldable pub member : Value → Text → Result Value
unfolding get_field
member undefined name = err (Error.external (codes "TypeError"))
member null name = err (Error.external (codes "TypeError"))
member (obj fs) name = ok (get_field name fs undefined)
member (point x y) name = ok (
    if same_text name (codes "x")
    then big (pos x)
    else if same_text name (codes "y")
    then big (pos y)
    else undefined)
member _ name = ok undefined

-- `v == null`
abbrev pub is_nullish : Value → Bool
is_nullish undefined = true
is_nullish null = true
is_nullish _ = false

-- Is it true in a condition?
unfoldable pub truthy : Value → Bool
truthy undefined = false
truthy null = false
truthy (bool b) = b
truthy (num (Num.whole n)) = not (eqb_ℤ n (pos 0))
truthy (num (Num.not_whole s)) = not (same_text s (codes "NaN"))
truthy (big n) = not (eqb_ℤ n (pos 0))
truthy (str []) = false
truthy (str (c ∷ s)) = true
truthy _ = true

-- `a === b`; two objects that were read apart are never the same.
unfoldable pub strictly_equal : Value → Value → Bool
strictly_equal undefined undefined = true
strictly_equal null null = true
strictly_equal (bool true) (bool b) = b
strictly_equal (bool false) (bool b) = not b
strictly_equal (num (Num.whole m)) (num (Num.whole n)) = eqb_ℤ m n
strictly_equal (num (Num.not_whole s)) (num (Num.not_whole t)) =
    same_text s t && not (same_text s (codes "NaN"))
strictly_equal (big m) (big n) = eqb_ℤ m n
strictly_equal (str s) (str t) = same_text s t
strictly_equal _ _ = false

-- `typeof v === "string" ? v : other`
abbrev pub text_or : Value → Text → Text
text_or (str s) other = s
text_or _ other = other

-- `typeof v === "string" && v.length > 0`
abbrev pub filled : Value → Option Text
filled (str []) = none
filled (str (c ∷ s)) = some (c ∷ s)
filled _ = none

-- `a ?? b`
abbrev pub or_else : Value → Value → Value
or_else undefined b = b
or_else null b = b
or_else a b = a

unfoldable pub length : Values → ℕ
length nil = 0
length (cons v vs) = suc (length vs)
