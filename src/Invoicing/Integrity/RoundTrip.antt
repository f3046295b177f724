-- ===== src/Invoicing/Integrity/RoundTrip.antt =====
-- The payload of core/invoicing/integrity.py read back: no two invoices with different terms have one
-- payload.
use notchstave.Common.{
  ℕ, zero, suc, ◌+◌, ◌-◌, ◌*◌, ◌/◌, ◌%◌, ◌^◌, ◌≤◌, ◌<◌, Option, none, some, List, [], ◌∷◌, ◌++◌,
  leb, if◌then◌else◌, length, take, drop, ◌≡◌, refl, arith,
}
use notchstave.Common.Rows.{option_map}
use notchstave.Invoicing.Integrity.{
  to_bytes, framed_fields, framed, emit, format, domain_tag, Terms, canonical_fields,
  canonical_payload,
}

-- The number that bytes, or digits, spell behind `v`.
unfoldable pub from_bytes : ℕ → List ℕ → ℕ
from_bytes v [] = v
from_bytes v (b ∷ bs) = from_bytes (v * 256 + b) bs

unfoldable pub from_digits : ℕ → List ℕ → ℕ
from_digits v [] = v
from_digits v (c ∷ cs) = from_digits (v * 10 + (c - b'0')) cs

from_digits-emit :
    (fuel n : ℕ) (out : List ℕ) → n ≤ fuel → from_digits 0 (emit fuel n out) ≡ from_digits n out
unfolding from_digits emit
from_digits-emit zero n out enough = ground arith
from_digits-emit (suc fuel) n out enough =
    ground (arith, from_digits-emit fuel (n / 10) ((b'0' + n % 10) ∷ out))

-- Every number is read back from its decimal print.
pub from_digits-format : (n : ℕ) → from_digits 0 (format n) ≡ n
unfolding from_digits format
from_digits-format n = ground (arith, from_digits-emit n n [])

from_bytes-to_bytes :
    (width n : ℕ) (out : List ℕ)
    → n < 256 ^ width
    → from_bytes 0 (to_bytes width n out) ≡ from_bytes n out
unfolding from_bytes to_bytes
from_bytes-to_bytes zero n out fits = ground arith
from_bytes-to_bytes (suc width) n out fits =
    ground (arith, from_bytes-to_bytes width (n / 256) (n % 256 ∷ out))

take-append : {A : Type 0} (xs ys : List A) → take (length xs) (xs ++ ys) ≡ xs
take-append [] ys = refl
take-append (x ∷ xs) ys = rw (take-append xs ys)

drop-append : {A : Type 0} (xs ys : List A) → drop (length xs) (xs ++ ys) ≡ ys
drop-append [] ys = refl
drop-append (x ∷ xs) ys = drop-append xs ys

length-append_le : {A : Type 0} (xs ys : List A) → length xs ≤ length (xs ++ ys)
length-append_le [] ys = omega arith
length-append_le (x ∷ xs) ys = omega (arith, length-append_le xs ys)

-- A reader of frames: each field is as long as the four bytes before it say.
unfoldable pub unframe : ℕ → List ℕ → Option (List (List ℕ))
unfolding from_bytes
unframe fuel [] = some []
unframe (suc fuel) (a ∷ b ∷ c ∷ d ∷ rest) =
    let n = from_bytes 0 (a ∷ b ∷ c ∷ d ∷ []) in
    let fields = unframe fuel (drop n rest) in
    if leb n (length rest) then option_map (λ fs. take n rest ∷ fs) fields else none
unframe _ _ = none

unfoldable pub AllShort : List (List ℕ) → Type 0
AllShort [] = Unit
AllShort (field ∷ fields) = (length field < 256 ^ 4) × AllShort fields

-- Fields that are shorter than 2^32 bytes are read back from their frames, however their bytes look.
pub unframe-framed_fields :
    (fields : List (List ℕ))
    → AllShort fields
    → unframe (length fields) (framed_fields fields) ≡ some fields
unfolding unframe framed_fields AllShort from_bytes to_bytes
unframe-framed_fields [] short = refl
unframe-framed_fields (field ∷ fields) (short, all_short) =
    rw
      (
        from_bytes-to_bytes 4 (length field) [] short,
        take-append field (framed_fields fields),
        drop-append field (framed_fields fields),
        unframe-framed_fields fields all_short,
      )
      (ground (arith, length-append_le field (framed_fields fields)))

unfoldable pub read_terms : List (List ℕ) → Option Terms
unfolding from_bytes from_digits
read_terms (i ∷ c ∷ a ∷ address ∷ due ∷ at ∷ []) = some (record {
  invoice_id = from_bytes 0 i;
  chain_id = from_digits 0 c;
  asset_id = from_digits 0 a;
  address = address;
  amount_due_raw = from_digits 0 due;
  expires_at = from_digits 0 at;
})
read_terms _ = none

then_read : Option (List (List ℕ)) → Option Terms
then_read none = none
then_read (some fields) = read_terms fields

-- A reader of payloads.
unfoldable pub parse_payload : List ℕ → Option Terms
unfolding then_read unframe read_terms
parse_payload bytes = then_read (unframe 6 (drop (length domain_tag) bytes))

-- The terms fit their encoding: an id of 16 bytes, and fields under 2^32 bytes.
unfoldable pub IsEncodable : Terms → Type 0
IsEncodable t = (t.invoice_id < 256 ^ 16) × AllShort (canonical_fields t)

read_terms-canonical_fields :
    (t : Terms) → t.invoice_id < 256 ^ 16 → read_terms (canonical_fields t) ≡ some t
unfolding read_terms canonical_fields from_bytes
read_terms-canonical_fields t fits =
    rw
      (
        from_bytes-to_bytes 16 t.invoice_id [] fits,
        from_digits-format t.chain_id,
        from_digits-format t.asset_id,
        from_digits-format t.amount_due_raw,
        from_digits-format t.expires_at,
      )
      refl

-- The terms of an invoice are read back from its canonical payload, for terms that fit their encoding.
pub parse_payload-canonical_payload :
    (t : Terms) → IsEncodable t → parse_payload (canonical_payload t) ≡ some t
unfolding parse_payload canonical_payload framed IsEncodable then_read
parse_payload-canonical_payload t (fits, short) =
    rw
      (
        drop-append domain_tag (framed_fields (canonical_fields t)),
        unframe-framed_fields (canonical_fields t) short,
      )
      (read_terms-canonical_fields t fits)
