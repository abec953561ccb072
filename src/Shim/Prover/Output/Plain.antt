-- ===== src/Shim/Prover/Output/Plain.antt =====
-- What `serialize` (raiz-shim.js, line 214) gives is plain JSON.
use raiz_confidential_stack.Prelude.{◌≡◌, refl, ap}
use raiz_confidential_stack.Values
use raiz_confidential_stack.Values.{Value}
use raiz_confidential_stack.Vendor.{Vendor}
use raiz_confidential_stack.Shim.Prover.Output.{serialize, serialize_all, serialize_fields}

-- No bigint and no curve point, at any depth.
mutual
  pub IsPlain : Value → Type 0
  IsPlain (Value.big n) = ⊥
  IsPlain (Value.point x y) = ⊥
  IsPlain (Value.arr vs) = AllPlain vs
  IsPlain (Value.obj fs) = FieldsPlain fs
  IsPlain v = Unit

  pub AllPlain : Values.Values → Type 0
  AllPlain Values.Values.nil = Unit
  AllPlain (Values.Values.cons v vs) = IsPlain v × AllPlain vs

  pub FieldsPlain : Values.Fields → Type 0
  FieldsPlain Values.Fields.end = Unit
  FieldsPlain (Values.Fields.field k v fs) = IsPlain v × FieldsPlain fs

module _ (V : Vendor) where
  mutual
    unfolding serialize IsPlain

    serialize-lands : (v : Value) → IsPlain (serialize V v)
    serialize-lands Value.undefined = tt
    serialize-lands Value.null = tt
    serialize-lands (Value.bool b) = tt
    serialize-lands (Value.num n) = tt
    serialize-lands (Value.big n) = tt
    serialize-lands (Value.str s) = tt
    serialize-lands (Value.point x y) = (tt, (tt, tt))
    serialize-lands (Value.arr vs) = serialize_all-AllPlain vs
    serialize-lands (Value.obj fs) = serialize_fields-FieldsPlain fs

    serialize_all-AllPlain : (vs : Values.Values) → AllPlain (serialize_all V vs)
    serialize_all-AllPlain Values.Values.nil = tt
    serialize_all-AllPlain (Values.Values.cons v vs) =
        (serialize-lands v, serialize_all-AllPlain vs)

    serialize_fields-FieldsPlain : (fs : Values.Fields) → FieldsPlain (serialize_fields V fs)
    serialize_fields-FieldsPlain Values.Fields.end = tt
    serialize_fields-FieldsPlain (Values.Fields.field k v fs) =
        (serialize-lands v, serialize_fields-FieldsPlain fs)

  mutual
    unfolding serialize IsPlain

    serialize-plain : (v : Value) → IsPlain v → serialize V v ≡ v
    serialize-plain Value.undefined h = refl
    serialize-plain Value.null h = refl
    serialize-plain (Value.bool b) h = refl
    serialize-plain (Value.num n) h = refl
    serialize-plain (Value.big n) h = absurd h
    serialize-plain (Value.str s) h = refl
    serialize-plain (Value.point x y) h = absurd h
    serialize-plain (Value.arr vs) h = ap Value.arr (serialize_all-plain vs h)
    serialize-plain (Value.obj fs) h = ap Value.obj (serialize_fields-plain fs h)

    serialize_all-plain : (vs : Values.Values) → AllPlain vs → serialize_all V vs ≡ vs
    serialize_all-plain Values.Values.nil h = refl
    serialize_all-plain (Values.Values.cons v vs) (hv, hs) =
        rw (serialize-plain v hv, serialize_all-plain vs hs)

    serialize_fields-plain : (fs : Values.Fields) → FieldsPlain fs → serialize_fields V fs ≡ fs
    serialize_fields-plain Values.Fields.end h = refl
    serialize_fields-plain (Values.Fields.field k v fs) (hv, hs) =
        rw (serialize-plain v hv, serialize_fields-plain fs hs)

  -- What `serialize` gives has no bigint and no curve point at any depth, and a second
  -- `serialize` leaves it as it is.
  pub serialize-IsPlain :
      (v : Value) → IsPlain (serialize V v) × (serialize V (serialize V v) ≡ serialize V v)
  serialize-IsPlain v = (serialize-lands v, serialize-plain (serialize V v) (serialize-lands v))
