-- ===== src/Ipv4/Laws.antt =====
-- Membership in a network, and the tests on texts.
use networkbasicswebsite.Prelude.{
  ℕ, Option, none, some, ◌≡◌, refl, String, true, ok, raise, >>=-eq-ok, Exn, Ends, Ends-bind, inl,
  inr, Option-cases, arith, ◌↔◌,
}
use networkbasicswebsite.Text.{codes}
use networkbasicswebsite.Ipv4.{
  Ipv4Network, parse_address, parse_network, contains, network_beq, masked, make_network,
  prefix_of_text, str_network, parse_codes,
}

pub network_beq_iff : (a b : Ipv4Network) → (network_beq a b ≡ true) ↔ (a ≡ b)
unfolding network_beq
network_beq_iff a b = ground arith

pub masked_idem : (p addr : ℕ) → masked p (masked p addr) ≡ masked p addr
masked_idem p addr = grind arith

contains-make_network :
    (addr : ℕ) (p : Option ℕ) (n : Ipv4Network)
    → make_network addr p ≡ ok n
    → contains n addr ≡ true
unfolding make_network contains
contains-make_network addr none n h = cc
contains-make_network addr (some p) n h = ground (arith, masked_idem p addr)

-- The network that is made of an address and a mask contains the address.
pub contains-parse_network :
    (address mask : String) (addr : ℕ) (n : Ipv4Network)
    → parse_address address ≡ ok addr
    → parse_network address mask ≡ ok n
    → contains n addr ≡ true
unfolding parse_network contains
contains-parse_network address mask addr n h k =
    let step = λ (a : ℕ). make_network a (prefix_of_text mask) in
    let (a, e, made) = >>=-eq-ok (parse_address address) step k in
    let same : a ≡ addr = cc in contains-make_network addr (prefix_of_text mask) n (rw same at made)

sample_network :
    parse_network "192.168.1.77" "255.255.255.0"
    ≡ ok (record { network_address = 0xc0a80100; prefixlen = 24 })
unfolding parse_network
sample_network = refl

sample_hostmask :
    parse_network "10.1.2.3" "0.0.0.255"
    ≡ ok (record { network_address = 0x0a010200; prefixlen = 24 })
unfolding parse_network
sample_hostmask = refl

bad_octet : parse_network "10.1.2.03" "255.0.0.0" ≡ raise Exn.value_error
unfolding parse_network
bad_octet = refl

bad_mask : parse_network "10.1.2.3" "255.0.255.0" ≡ raise Exn.value_error
unfolding parse_network
bad_mask = refl

sample_text :
    str_network (record { network_address = 0xc0a80100; prefixlen = 24 }) ≡ "192.168.1.0/24"
unfolding str_network
sample_text = refl

pub parse_address-Ends : (address : String) → Ends (parse_address address)
unfolding parse_address
parse_address-Ends address = elim (Option-cases (parse_codes (codes address))) [
  | inl e ↦ rw (e, parse_address) tt
  | inr (n, e) ↦ rw (e, parse_address) tt
]

make_network-Ends : (addr : ℕ) (p : Option ℕ) → Ends (make_network addr p)
unfolding make_network
make_network-Ends addr none = tt
make_network-Ends addr (some p) = tt

pub parse_network-Ends : (address mask : String) → Ends (parse_network address mask)
unfolding parse_network
parse_network-Ends address mask =
    Ends-bind (parse_address address) _ (parse_address-Ends address)
      (λ addr. make_network-Ends addr (prefix_of_text mask))
