-- ===== src/Config/Contiguous.antt =====
-- What `validate_mask` accepts: a mask whose inverse has its 1 bits at the end.
use networkbasicswebsite.Prelude.{
  ℕ, zero, suc, ◌+◌, ◌*◌, ◌/◌, ◌%◌, ◌^◌, ◌≤◌, ◌<◌, ◌≡◌, ◌⊎◌, ◌∙◌, sym, inl, inr, String, arith,
  ◌==◌, nat_eq, Bool-cases, ok, >>=-eq-ok,
}
use networkbasicswebsite.Text.{strip}
use networkbasicswebsite.Ipv4.{parse_address, str_address}
use networkbasicswebsite.Config.Masks.{bit_and, inverted, contiguous, validate_mask}

bit_and_self : (width n : ℕ) → n < 2 ^ width → bit_and width n n ≡ n
unfolding bit_and
bit_and_self zero n h = omega (arith, h)
bit_and_self (suc width) n h =
    let half : n / 2 < 2 ^ width = omega (arith, h) in
    let rest = bit_and_self width (n / 2) half in
    let parity : (n % 2 ≡ 0) ⊎ (n % 2 ≡ 1) = omega arith in
    elim parity [
      | inl e ↦ rw (e, rest) (omega (arith, e))
      | inr e ↦ rw (e, rest) (omega (arith, e))
    ]

-- A number that shares no bit with its successor is one less than a power of two.
bit_and-suc :
    (width n : ℕ)
    → n < 2 ^ width
    → bit_and width n (n + 1) ≡ 0
    → (k : ℕ) × (k ≤ width) × (n + 1 ≡ 2 ^ k)
unfolding bit_and
bit_and-suc zero n h e = (0, omega arith, omega (arith, h))
bit_and-suc (suc width) n h e =
    let half : n / 2 < 2 ^ width = omega (arith, h) in
    let parity : (n % 2 ≡ 0) ⊎ (n % 2 ≡ 1) = omega arith in
    elim parity [
      | inl even ↦
          let same : (n + 1) / 2 ≡ n / 2 = omega (arith, even) in
          let shared : n % 2 * ((n + 1) % 2) + 2 * bit_and width (n / 2) (n / 2) ≡ 0 =
            rw (same) at e in
          let none_left : bit_and width (n / 2) (n / 2) ≡ 0 = omega (arith, rw even at shared) in
          let no_half : n / 2 ≡ 0 = sym (bit_and_self width (n / 2) half) ∙ none_left in
          (0, omega arith, omega (arith, even, no_half))
      | inr odd ↦
          let next : (n + 1) / 2 ≡ n / 2 + 1 = omega (arith, odd) in
          let last : (n + 1) % 2 ≡ 0 = omega (arith, odd) in
          let shared : n % 2 * ((n + 1) % 2) + 2 * bit_and width (n / 2) (n / 2 + 1) ≡ 0 =
            rw (next) at e in
          let none_left : bit_and width (n / 2) (n / 2 + 1) ≡ 0 =
            omega (arith, rw (odd, last) at shared) in
          let (k, le, power) = bit_and-suc width (n / 2) half none_left in
          (suc k, omega (arith, le), omega (arith, power, odd))
    ]

contiguous_power :
    (bits : ℕ) (mask : String)
    → contiguous bits ≡ ok mask
    → (mask ≡ str_address bits) × ((k : ℕ) × (k ≤ 32) × (inverted bits + 1 ≡ 2 ^ k))
unfolding contiguous
contiguous_power bits mask h =
    elim (Bool-cases (bit_and 32 (inverted bits) (inverted bits + 1) == 0)) [
      | inr e ↦ absurd (ground (arith, rw (e, contiguous) at h))
      | inl e ↦
          let shared = (nat_eq.eqb_iff (bit_and 32 (inverted bits) (inverted bits + 1)) 0).0 e in
          let small : inverted bits < 2 ^ 32 = omega arith in
          let given : ok (str_address bits) ≡ ok mask = rw (e, contiguous) at h in
          let same : mask ≡ str_address bits = ground (arith, given) in
          let power = bit_and-suc 32 (inverted bits) small shared in (same, power)
    ]

-- A mask that `validate_mask` accepts is the text of the address that was given, whose inverse plus
-- one is a power of two: its 1 bits are contiguous from the left.
pub validate_mask-power :
    (value mask : String)
    → validate_mask value ≡ ok mask
    → (bits : ℕ) × (parse_address (strip value) ≡ ok bits)
      × (mask ≡ str_address bits)
      × ((k : ℕ) × (k ≤ 32) × (inverted bits + 1 ≡ 2 ^ k))
unfolding validate_mask
validate_mask-power value mask h =
    let (bits, read, g) = >>=-eq-ok (parse_address (strip value)) contiguous h in
    let (same, power) = contiguous_power bits mask g in (bits, read, same, power)
