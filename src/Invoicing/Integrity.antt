-- ===== src/Invoicing/Integrity.antt =====
-- The MAC over the frozen terms of an invoice (core/invoicing/integrity.py): the framing, the canonical
-- payload and the check. A byte is a number below 256; an address stands as its UTF-8 bytes, an
-- instant as its microseconds since the epoch. HMAC-SHA256 is a parameter.
pub mod RoundTrip
pub mod Forgery
use notchstave.Common.{
  ℕ, zero, suc, ◌+◌, ◌-◌, ◌*◌, ◌/◌, ◌%◌, Bool, true, false, ◌&&◌, Option, none, some, List, [], ◌∷◌,
  ◌++◌, leb, ltb, ◌==◌, if◌then◌else◌, length, take, drop,
}
use notchstave.Common.Text.{codes}

-- `n.to_bytes(width, "big")`, before the bytes `out`; Python raises where `n` does not fit.
unfoldable pub to_bytes : ℕ → ℕ → List ℕ → List ℕ
to_bytes zero n out = out
to_bytes (suc width) n out = to_bytes width (n / 256) (n % 256 ∷ out)

unfoldable pub framed_fields : List (List ℕ) → List ℕ
unfolding to_bytes
framed_fields [] = []
framed_fields (field ∷ fields) = to_bytes 4 (length field) [] ++ (field ++ framed_fields fields)

unfoldable pub framed : List ℕ → List (List ℕ) → List ℕ
framed tag fields = tag ++ framed_fields fields

-- The digits of a number before `out`; `n` rounds are enough for `n`.
unfoldable pub emit : ℕ → ℕ → List ℕ → List ℕ
emit zero n out = out
emit (suc fuel) n out =
    let more = emit fuel (n / 10) ((b'0' + n % 10) ∷ out) in if n == 0 then out else more

-- `format(n, "d").encode("ascii")`
unfoldable pub format : ℕ → List ℕ
unfolding emit
format n = if n == 0 then b'0' ∷ [] else emit n n []

unfoldable pub domain_tag : List ℕ
domain_tag = codes "notchstave/invoice-integrity/v1"

-- The values that the MAC covers.
pub record Terms : Type 0 where
  pub invoice_id : ℕ
  pub chain_id : ℕ
  pub asset_id : ℕ
  pub address : List ℕ
  pub amount_due_raw : ℕ
  pub expires_at : ℕ

unfoldable pub canonical_fields : Terms → List (List ℕ)
unfolding to_bytes format
canonical_fields t =
    to_bytes 16 t.invoice_id []
    ∷ format t.chain_id
    ∷ format t.asset_id
    ∷ t.address
    ∷ format t.amount_due_raw
    ∷ format t.expires_at
    ∷ []

unfoldable pub canonical_payload : Terms → List ℕ
unfolding framed canonical_fields
canonical_payload t = framed domain_tag (canonical_fields t)

-- `IntegrityKey`; `none` is its `ValueError` for a key under 16 bytes.
unfoldable pub integrity_key : List ℕ → Option (List ℕ)
integrity_key raw = if ltb (length raw) 16 then none else some raw

-- `hmac.compare_digest`
unfoldable pub compare_digest : List ℕ → List ℕ → Bool
compare_digest [] [] = true
compare_digest (x ∷ xs) (y ∷ ys) = (x == y) && compare_digest xs ys
compare_digest _ _ = false

-- `mac` is `IntegrityKey.mac` of a key.
module _ (mac : List ℕ → List ℕ) where
  unfoldable pub compute_mac : Terms → List ℕ
  compute_mac t = mac (canonical_payload t)

  unfoldable pub verify_mac : List ℕ → Terms → Bool
  unfolding compute_mac compare_digest
  verify_mac expected t = compare_digest (compute_mac t) expected
