-- ===== src/Invoicing/Tests.antt =====
-- Payloads and MACs at concrete terms.
mod Issuing
use notchstave.Common.{ℕ, ◌≤◌, List, [], ◌∷◌, none, some, ◌≡◌, ◌⊎◌, refl, true, arith, take}
use notchstave.Invoicing.Integrity.{
  Terms, domain_tag, framed_fields, to_bytes, format, emit, canonical_fields, canonical_payload,
  compute_mac, verify_mac, compare_digest,
}
use notchstave.Invoicing.Integrity.RoundTrip.{
  AllShort, IsEncodable, parse_payload, parse_payload-canonical_payload,
}
use notchstave.Enums.{InvoiceStatus}
use notchstave.Invoicing.Quotas.{
  IssuedInvoice, QuotaTables, InvoicingPolicy, count_active, recent_invoices, expired_streak,
  snapshot, enforce,
}
use notchstave.Invoicing.Quotas.Lockout.{IsLockedOut, enforce-lockout}
use notchstave.Invoicing.Integrity.Forgery.{IsCollision, verify_mac-forgery}

abbrev issued : Terms
issued = record {
  invoice_id = 258;
  chain_id = 8453;
  asset_id = 2;
  address = b'0' ∷ b'x' ∷ b'1' ∷ [];
  amount_due_raw = 10_000_000;
  expires_at = 1_700_000_000_000_000;
}

number : format 8453 ≡ b'8' ∷ b'4' ∷ b'5' ∷ b'3' ∷ []
unfolding format
number = refl

frame : framed_fields ((7 ∷ []) ∷ [] ∷ []) ≡ 0 ∷ 0 ∷ 0 ∷ 1 ∷ 7 ∷ 0 ∷ 0 ∷ 0 ∷ 0 ∷ []
unfolding framed_fields
frame = refl

two-AllShort : AllShort ((7 ∷ []) ∷ [] ∷ [])
unfolding AllShort
two-AllShort = (omega arith, (omega arith, tt))

issued-IsEncodable : IsEncodable issued
unfolding IsEncodable AllShort canonical_fields to_bytes format emit
issued-IsEncodable = (
  omega arith,
  (omega arith, (omega arith, (omega arith, (omega arith, (omega arith, (omega arith, tt)))))),
)

parse_payload-canonical_payload_example : parse_payload (canonical_payload issued) ≡ some issued
parse_payload-canonical_payload_example = parse_payload-canonical_payload issued issued-IsEncodable

-- A MAC of the first 40 bytes.
abbrev short_mac : List ℕ → List ℕ
short_mac = take 40

short_mac-verifies : verify_mac short_mac (compute_mac short_mac issued) issued ≡ true
unfolding verify_mac compute_mac compare_digest canonical_payload domain_tag framed_fields
short_mac-verifies = refl

verify_mac-forgery_example :
    (issued ≡ issued) ⊎ IsCollision short_mac (canonical_payload issued) (canonical_payload issued)
verify_mac-forgery_example =
    verify_mac-forgery short_mac issued issued issued-IsEncodable issued-IsEncodable
      short_mac-verifies
