-- ===== src/Invoicing/Integrity/Forgery.antt =====
-- What a MAC that verifies says (core/invoicing/integrity.py): the terms are those that it was issued for,
-- up to collisions of the MAC itself.
use notchstave.Common.{ℕ, true, List, [], ◌∷◌, ◌≡◌, ◌≢◌, ◌↔◌, ◌⊎◌, inl, inr, ap, arith, Bool-cases}
use notchstave.Invoicing.Integrity.{
  Terms, canonical_payload, compare_digest, compute_mac, verify_mac,
}
use notchstave.Invoicing.Integrity.RoundTrip.{
  IsEncodable, parse_payload, parse_payload-canonical_payload,
}

compare_digest-IsEqual : (xs ys : List ℕ) → (compare_digest xs ys ≡ true) ↔ (xs ≡ ys)
unfolding compare_digest
compare_digest-IsEqual [] [] = ground arith
compare_digest-IsEqual [] (y ∷ ys) = ground arith
compare_digest-IsEqual (x ∷ xs) [] = ground arith
compare_digest-IsEqual (x ∷ xs) (y ∷ ys) = ground (arith, compare_digest-IsEqual xs ys)

-- Terms that fit their encoding are the only ones with their payload.
canonical_payload-injective :
    (t u : Terms)
    → IsEncodable t
    → IsEncodable u
    → canonical_payload t ≡ canonical_payload u
    → t ≡ u
canonical_payload-injective t u fits_t fits_u same = cc (
  parse_payload-canonical_payload t fits_t,
  parse_payload-canonical_payload u fits_u,
  ap parse_payload same,
)

-- Two different texts have one MAC.
pub IsCollision : (List ℕ → List ℕ) → List ℕ → List ℕ → Type 0
IsCollision mac p q = (p ≢ q) × (mac p ≡ mac q)

module _ (mac : List ℕ → List ℕ) where
  -- A stored MAC verifies exactly where it is the MAC of the canonical payload.
  pub verify_mac_iff :
      (expected : List ℕ) (t : Terms)
      → (verify_mac mac expected t ≡ true) ↔ (mac (canonical_payload t) ≡ expected)
  unfolding verify_mac compute_mac
  verify_mac_iff expected t = compare_digest-IsEqual (mac (canonical_payload t)) expected

  -- Where the MAC that was issued for some terms verifies for the stored ones, both fitting their
  -- encoding, no term was changed, or the two payloads are a collision of the MAC.
  pub verify_mac-forgery :
      (issued stored : Terms)
      → IsEncodable issued
      → IsEncodable stored
      → verify_mac mac (compute_mac mac issued) stored ≡ true
      → (stored ≡ issued) ⊎ IsCollision mac (canonical_payload stored) (canonical_payload issued)
  unfolding compute_mac IsCollision
  verify_mac-forgery issued stored fits_issued fits_stored verified =
      let p = canonical_payload stored in
      let q = canonical_payload issued in
      let same = (verify_mac_iff (mac q) stored).0 verified in
      elim (Bool-cases (compare_digest p q)) [
        | inl e ↦ inl (
            canonical_payload-injective stored issued fits_stored fits_issued
              ((compare_digest-IsEqual p q).0 e))
        | inr e ↦ inr (λ h. ground (arith, (compare_digest-IsEqual p q).1 h), same)
      ]
