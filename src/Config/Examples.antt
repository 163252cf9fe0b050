-- ===== src/Config/Examples.antt =====
-- The mask of 26 bits.
use networkbasicswebsite.Prelude.{
  ℕ, ◌+◌, ◌^◌, ◌≤◌, ◌≡◌, refl, String, ok, raise, value_error, ◌>>=◌, arith,
}
use networkbasicswebsite.Text.{str, strip, split}
use networkbasicswebsite.Ipv4.{parse_address, str_address}
use networkbasicswebsite.Config.Masks.{
  mask_to_prefix, prefix_to_mask, wildcard_to_mask, bit_and, inverted, contiguous, validate_mask,
  validate_ipv4,
}
use networkbasicswebsite.Config.RoundTrip.{prefix_to_mask-mask_to_prefix}
use networkbasicswebsite.Config.Contiguous.{validate_mask-power}

mask_of_26 : prefix_to_mask 26 ≡ ok "255.255.255.192"
unfolding prefix_to_mask str_address str
mask_of_26 = refl

prefix_to_mask-mask_to_prefix_example :
    (mask : String) × (prefix_to_mask 26 ≡ ok mask)
    × (mask_to_prefix mask ≡ ok 26)
    × ((wildcard_to_mask mask >>= wildcard_to_mask) ≡ ok mask)
prefix_to_mask-mask_to_prefix_example = prefix_to_mask-mask_to_prefix 26 (omega arith)

mask-valid : validate_mask " 255.255.255.192" ≡ ok "255.255.255.192"
unfolding validate_mask contiguous bit_and parse_address split str_address str strip
mask-valid = refl

mask-broken : validate_mask "255.255.0.255" ≡ raise value_error
unfolding validate_mask contiguous bit_and parse_address split strip
mask-broken = refl

address-valid : validate_ipv4 " 10.0.0.1 " ≡ ok "10.0.0.1"
unfolding validate_ipv4 parse_address split str_address str strip
address-valid = refl

abbrev typed : String
typed = " 255.255.255.192"

validate_mask-power_example :
    (bits : ℕ) × (parse_address (strip typed) ≡ ok bits)
    × ("255.255.255.192" ≡ str_address bits)
    × ((k : ℕ) × (k ≤ 32) × (inverted bits + 1 ≡ 2 ^ k))
validate_mask-power_example = validate_mask-power typed "255.255.255.192" mask-valid
