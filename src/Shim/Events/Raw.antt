-- ===== src/Shim/Events/Raw.antt =====
-- `xdrDataMap` and `parseRawEvent`, raiz-shim.js lines 583-630: one getEvents-shaped row becomes an
-- event.
use raiz_confidential_stack.Prelude.{
  ℕ, zero, suc, ◌-◌, ◌%◌, ℤ, pos, negsuc, Text, codes, same_text, trim, Bool, true, false, Option,
  none, some, List, [], ◌∷◌, Result, ok, err, Error, bind_result, ◌==◌, if◌then◌else◌,
}
use raiz_confidential_stack.Values.{Value, Values, Num, member, or_else}
use raiz_confidential_stack.Vendor.{Vendor, Event, DataAccess}
use raiz_confidential_stack.Shim.Codec.{big_of_text}

-- `Number(BigInt(toid) & 0xfffn)`: the low twelve bits, in two's complement.
unfoldable pub low_12_bits : ℤ → ℕ
low_12_bits (pos n) = n % 4096
low_12_bits (negsuc n) = 4095 - n % 4096

-- A text up to its first dash.
unfoldable pub until_dash : Text → Text
until_dash [] = []
until_dash (c ∷ s) = let rest = until_dash s in if c == b'-' then [] else c ∷ rest

-- What follows the first dash.
unfoldable pub after_dash : Text → Option Text
after_dash [] = none
after_dash (c ∷ s) = let rest = after_dash s in if c == b'-' then some s else rest

-- The first two parts of `s.split("-")`.
unfoldable pub split_dash : Text → Text × Option Text
unfolding until_dash after_dash
split_dash s = (until_dash s, elim (after_dash s) [ none ↦ none | some t ↦ some (until_dash t) ])

abbrev pub is_blank : Text → Bool
is_blank [] = true
is_blank (_ ∷ _) = false

-- A value that is walked as an array; nullish is the empty one.
abbrev pub as_array : Value → Result Values
as_array (Value.arr vs) = ok vs
as_array Value.undefined = ok Values.nil
as_array Value.null = ok Values.nil
as_array _ = err (Error.external (codes "TypeError"))

-- `BigInt(s)`, which reads an empty string as 0
unfoldable pub big_int : Text → Result ℤ
big_int s = if is_blank (trim s) then ok (pos 0) else big_of_text s (codes "toid")

module _ (V : Vendor) where
  open V use {
    Point, Cipher, ScVal, point_from_bytes, scval_from_xdr, sym, map_entries, scval_bytes,
    scval_i128, scval_u32, scval_address, from_bytes_be, known, natural_event_id,
    build_confidential_event, read_number, number_of_object, string_of,
  }

  -- `Number(v)`
  unfoldable pub to_number : Value → Num
  to_number Value.undefined = Num.not_whole (codes "NaN")
  to_number Value.null = Num.whole (pos 0)
  to_number (Value.bool b) = Num.whole (if b then pos 1 else pos 0)
  to_number (Value.num n) = n
  to_number (Value.big n) = Num.whole n
  to_number (Value.str s) = read_number s
  to_number v = number_of_object v

  -- `String(v)`
  unfoldable pub to_text : Value → Text
  to_text (Value.str s) = s
  to_text v = string_of v

  -- `byName.get(name)`: the entry that was set last
  unfoldable pub by_name : List (Text × ScVal) → Text → Option ScVal → Option ScVal
  by_name [] name found = found
  by_name ((k, v) ∷ entries) name found =
      by_name entries name (if same_text k name then some v else found)

  entry : List (Text × ScVal) → Text → Result ScVal
  unfolding by_name
  entry entries name = elim (by_name entries name none) [
    | none ↦ err (Error.missing_field name)
    | some v ↦ ok v
  ]

  unfoldable pub xdr_data_map : ScVal → Result (DataAccess Point)
  unfolding entry
  xdr_data_map value = bind_result (map_entries value) (λ entries. ok (record {
    field = λ name.
        bind_result (entry entries name)
          (λ v. bind_result (scval_bytes v) (λ b. ok (from_bytes_be b)));
    point = λ name.
        bind_result (entry entries name) (λ v. bind_result (scval_bytes v) point_from_bytes);
    i128 = λ name. bind_result (entry entries name) scval_i128;
    u32 = λ name. bind_result (entry entries name) scval_u32;
  }))

  -- `typeof v === "string" ? v : v?.xdr`
  b64 : Value → Value
  b64 (Value.str s) = Value.str s
  b64 v = elim (member v (codes "xdr")) [ ok x ↦ x | err _ ↦ Value.undefined ]

  scv : Value → Result ScVal
  unfolding b64
  scv v = scval_from_xdr (b64 v)

  -- `rawTopics.map(scv)`
  scv_all : Values → Result (List ScVal)
  scv_all Values.nil = ok []
  scv_all (Values.cons v vs) =
      bind_result (scv v) (λ s. bind_result (scv_all vs) (λ rest. ok (s ∷ rest)))

  -- `row.topic ?? row.topics ?? []`
  topics_of : Value → Result Values
  topics_of row =
      bind_result (member row (codes "topic"))
        (λ t. bind_result (member row (codes "topics")) (λ ts. as_array (or_else t ts)))

  -- `addr(i)`
  addr : List ScVal → ℕ → Result Text
  addr [] i = err (Error.external (codes "TypeError"))
  addr (t ∷ topics) zero = scval_address t
  addr (t ∷ topics) (suc i) = addr topics i

  -- the part of `parseRawEvent` behind the test for known names
  parse_known : Value → Text → List ScVal → Result (Event Cipher)
  unfolding split_dash to_number to_text scv addr xdr_data_map
  parse_known row name topics = bind_result (member row (codes "ledger")) λ ledger.
      bind_result (member row (codes "txHash")) λ tx.
        bind_result (member row (codes "transactionHash")) λ tx_old.
          bind_result (member row (codes "id")) λ id.
            bind_result (member row (codes "pagingToken")) λ paging.
              bind_result (member row (codes "ledgerClosedAt")) λ closed.
                bind_result (member row (codes "value")) λ value.
                  let parts =
                    split_dash (to_text (or_else id (or_else paging (Value.str (codes "0-0"))))) in
                  bind_result (big_int parts.0) λ toid.
                    let tx_hash = or_else tx (or_else tx_old (Value.str [])) in
                    let event_index =
                      read_number (elim parts.1 [ none ↦ codes "0" | some s ↦ s ]) in
                    bind_result (scv value) λ data_value.
                      bind_result (xdr_data_map data_value) λ access.
                        build_confidential_event name
                          (record {
                            ledger = to_number ledger;
                            tx_hash = tx_hash;
                            cursor =
                                natural_event_id (to_number ledger) tx_hash (low_12_bits toid)
                                  event_index;
                            closed_at = or_else closed Value.null;
                          })
                          (addr topics) access

  parse_topics : Value → List ScVal → Result (Option (Event Cipher))
  parse_topics row [] = ok none
  parse_topics row (t ∷ topics) = bind_result (sym t) (λ name.
      if known name
      then bind_result (parse_known row name (t ∷ topics)) (λ ev. ok (some ev))
      else ok none)

  -- `parseRawEvent(row)`: `none` is its null, for a row that is skipped.
  unfoldable pub parse_raw_event : Value → Result (Option (Event Cipher))
  unfolding topics_of scv_all scv parse_topics parse_known big_int
  parse_raw_event row =
      bind_result (topics_of row)
        (λ raw. bind_result (scv_all raw) (λ topics. parse_topics row topics))
