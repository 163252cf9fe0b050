-- ===== src/Ipv4.antt =====
-- Python's `ipaddress`, as far as the program calls it: `IPv4Address(text)`,
-- `IPv4Network(f"{n}/{m}", strict=False)` (and `IPv4Interface(f"{n}/{m}").network`, which is the
-- same network), membership, `subnet_of` and their texts. An address is its number below 2 ^ 32.
pub mod Laws
use networkbasicswebsite.Prelude.{
  ℕ, zero, suc, ◌+◌, ◌-◌, ◌*◌, ◌/◌, ◌%◌, ◌^◌, String, Bool, true, false, not, ◌&&◌, ◌||◌, List, [],
  ◌∷◌, Option, none, some, ltb, leb, if◌then◌else◌, ◌==◌, length, nat_eq, Result, ok, raise,
  value_error, ◌>>=◌,
}
use networkbasicswebsite.Text.{codes, split, is_digit, str, concat}

all_digits : List ℕ → Bool
all_digits [] = true
all_digits (c ∷ cs) = is_digit c && all_digits cs

number_from : ℕ → List ℕ → ℕ
number_from acc [] = acc
number_from acc (c ∷ cs) = number_from (acc * 10 + (c - b'0')) cs

leading_zero : List ℕ → Bool
leading_zero (c ∷ d ∷ cs) = c == b'0'
leading_zero _ = false

-- One octet: digits, at most three, with no leading zero, at most 255.
parse_octet : List ℕ → Option ℕ
unfolding all_digits number_from leading_zero
parse_octet cs =
    if length cs == 0 || not (all_digits cs) || ltb 3 (length cs) || leading_zero cs
    then none
    else if ltb 255 (number_from 0 cs)
    then none
    else some (number_from 0 cs)

join_octets : ℕ → List (List ℕ) → Option ℕ
join_octets acc [] = some acc
join_octets acc (part ∷ parts) = elim (parse_octet part) [
  | none ↦ none
  | some n ↦ join_octets (acc * 256 + n) parts
]

parse_codes : List ℕ → Option ℕ
unfolding join_octets parse_octet split
parse_codes cs =
    let parts = split b'.' cs in if length parts == 4 then join_octets 0 parts else none

-- `int(IPv4Address(text))`
unfoldable pub parse_address : String → Result ℕ
unfolding parse_codes
parse_address text = elim (parse_codes (codes text)) [ none ↦ raise value_error | some n ↦ ok n ]

-- `str(IPv4Address(n))`
unfoldable pub str_address : ℕ → String
unfolding str
str_address n = concat (
    str (n / 2 ^ 24)
    ∷ "."
    ∷ str (n / 2 ^ 16 % 256)
    ∷ "."
    ∷ str (n / 2 ^ 8 % 256)
    ∷ "."
    ∷ str (n % 256)
    ∷ [])

-- The length of a netmask: the p up to `suc k` - 1 with mask = 2 ^ 32 - 2 ^ (32 - p).
prefix_below : ℕ → ℕ → Option ℕ
prefix_below zero mask = none
prefix_below (suc p) mask = elim (mask == 2 ^ 32 - 2 ^ (32 - p)) [
  | true ↦ some p
  | false ↦ prefix_below p mask
]

-- `_prefix_from_ip_int`
prefix_of_mask : ℕ → Option ℕ
unfolding prefix_below
prefix_of_mask mask = prefix_below 33 mask

-- `_prefix_from_ip_string`: a netmask, or else a hostmask, which is inverted.
prefix_of_ip : ℕ → Option ℕ
unfolding prefix_of_mask
prefix_of_ip mask = elim (prefix_of_mask mask) [
  | some p ↦ some p
  | none ↦ prefix_of_mask (2 ^ 32 - 1 - mask)
]

prefix_of_digits : List ℕ → Option ℕ
unfolding all_digits number_from
prefix_of_digits cs =
    if length cs == 0 || not (all_digits cs)
    then none
    else if leb (number_from 0 cs) 32
    then some (number_from 0 cs)
    else none

-- `_make_netmask`
prefix_of_text : String → Option ℕ
unfolding prefix_of_digits prefix_of_ip parse_codes
prefix_of_text text = elim (prefix_of_digits (codes text)) [
  | some p ↦ some p
  | none ↦ elim (parse_codes (codes text)) [ none ↦ none | some mask ↦ prefix_of_ip mask ]
]

pub record Ipv4Network : Type 0 where
  pub network_address : ℕ
  pub prefixlen : ℕ

abbrev pub host_size : Ipv4Network → ℕ
host_size n = 2 ^ (32 - n.prefixlen)

-- `addr & netmask`
abbrev pub masked : ℕ → ℕ → ℕ
masked prefixlen addr = addr / 2 ^ (32 - prefixlen) * 2 ^ (32 - prefixlen)

-- `network_address &= netmask`, once the netmask is read
make_network : ℕ → Option ℕ → Result Ipv4Network
make_network addr none = raise value_error
make_network addr (some p) = ok (record { network_address = masked p addr; prefixlen = p })

-- `IPv4Network(f"{address}/{mask}", strict=False)`
unfoldable pub parse_network : String → String → Result Ipv4Network
unfolding parse_address prefix_of_text make_network
parse_network address mask = do
  addr ← parse_address address
  make_network addr (prefix_of_text mask)

-- `addr in network`
unfoldable pub contains : Ipv4Network → ℕ → Bool
contains n addr = masked n.prefixlen addr == n.network_address

-- `a.subnet_of(b)`
unfoldable pub subnet_of : Ipv4Network → Ipv4Network → Bool
subnet_of a b =
    leb b.network_address a.network_address
    && leb (a.network_address + host_size a) (b.network_address + host_size b)

unfoldable pub network_beq : Ipv4Network → Ipv4Network → Bool
network_beq a b = a.network_address == b.network_address && a.prefixlen == b.prefixlen

unfoldable pub str_network : Ipv4Network → String
unfolding str_address str
str_network n = concat (str_address n.network_address ∷ "/" ∷ str n.prefixlen ∷ [])
