-- ===== src/Config/Masks.antt =====
-- `validate_ipv4`, `validate_mask`, `mask_to_prefix`, `prefix_to_mask` and `wildcard_to_mask`. The
-- messages of the errors are not modelled.
use networkbasicswebsite.Prelude.{
  ℕ, zero, suc, ◌+◌, ◌-◌, ◌*◌, ◌/◌, ◌%◌, ◌^◌, String, leb, ◌==◌, nat_eq, if◌then◌else◌, Result, ok,
  raise, value_error, ◌>>=◌,
}
use networkbasicswebsite.Text.{strip}
use networkbasicswebsite.Ipv4.{parse_address, str_address}

-- `bin(n).count("1")` for a number of at most `width` bits
unfoldable pub ones : ℕ → ℕ → ℕ
ones zero n = 0
ones (suc width) n = n % 2 + ones width (n / 2)

unfoldable pub mask_to_prefix : String → Result ℕ
mask_to_prefix mask = do bits ← parse_address mask; ok (ones 32 bits)

-- `str(IPv4Network(f"0.0.0.0/{prefix}").netmask)`
unfoldable pub prefix_to_mask : ℕ → Result String
prefix_to_mask prefix =
    if leb prefix 32 then ok (str_address (2 ^ 32 - 2 ^ (32 - prefix))) else raise value_error

-- `~n & 0xFFFFFFFF` is 2 ^ 32 - 1 - n.
unfoldable pub wildcard_to_mask : String → Result String
wildcard_to_mask wildcard = do bits ← parse_address wildcard; ok (str_address (2 ^ 32 - 1 - bits))

-- `a & b` for numbers of which one has at most `width` bits
unfoldable pub bit_and : ℕ → ℕ → ℕ → ℕ
bit_and zero a b = 0
bit_and (suc width) a b = a % 2 * (b % 2) + 2 * bit_and width (a / 2) (b / 2)

-- `~bits & 0xFFFFFFFF`
abbrev pub inverted : ℕ → ℕ
inverted bits = 2 ^ 32 - 1 - bits

unfoldable pub contiguous : ℕ → Result String
contiguous bits =
    if bit_and 32 (inverted bits) (inverted bits + 1) == 0
    then ok (str_address bits)
    else raise value_error

unfoldable pub validate_mask : String → Result String
validate_mask value = parse_address (strip value) >>= contiguous

unfoldable pub validate_ipv4 : String → Result String
validate_ipv4 value = do address ← parse_address (strip value); ok (str_address address)
