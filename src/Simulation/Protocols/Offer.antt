-- ===== src/Simulation/Protocols/Offer.antt =====
-- `_offer_address`: which address of a pool is offered.
use networkbasicswebsite.Prelude.{
  sym, ◌∙◌, ℕ, zero, suc, ◌+◌, ◌-◌, ◌^◌, ◌≤◌, ◌<◌, ◌≡◌, refl, ◌⊎◌, inl, inr, String, true, false,
  Option, none, some, arith, ltb, Bool-cases, Option-cases, ◌==◌, nat_eq, string_eq, ok, >>=-eq-ok,
  subst,
}
use networkbasicswebsite.Text.{present}
use networkbasicswebsite.Ipv4.{Ipv4Network, parse_address, parse_network, str_address}
use networkbasicswebsite.Config.{DhcpPool}
use networkbasicswebsite.Simulation.Protocols.Dhcp.{
  next_address, skip_excluded, is_gateway, first_free, broadcast_address, offer_from, offer_address,
}

-- There is a gateway, and this is its address.
abbrev pub IsGateway : Option String → ℕ → Type 0
IsGateway gateway c = (text : String) × (gateway ≡ some text) × (str_address c ≡ text)

is_gateway-IsGateway :
    (gateway : Option String) (c : ℕ) → is_gateway gateway c ≡ true → IsGateway gateway c
is_gateway-IsGateway none c h = cc
is_gateway-IsGateway (some text) c h = (text, refl, (string_eq.eqb_iff (str_address c) text).0 h)

is_gateway-not-IsGateway :
    (gateway : Option String) (c : ℕ) → is_gateway gateway c ≡ false → ¬ IsGateway gateway c
is_gateway-not-IsGateway none c h (text, e, same) = cc
is_gateway-not-IsGateway (some text) c h (other, e, same) =
    let is : text ≡ other = ground (arith, e) in
    let equal : str_address c ≡ text = same ∙ sym is in
    absurd (ground (arith, h, (string_eq.eqb_iff (str_address c) text).1 equal))

-- Every address from `first` up to, and without, `limit` is the gateway's.
abbrev pub AllTaken : Option String → ℕ → ℕ → Type 0
AllTaken gateway first limit = (c : ℕ) → first ≤ c → c < limit → IsGateway gateway c

-- The least address from `first` on, below `limit`, that is not the gateway's.
pub record IsFirstFree (gateway : Option String) (first limit address : ℕ) : Type 0 where
  pub from : first ≤ address
  pub below : address < limit
  pub free : ¬ IsGateway gateway address
  pub least : AllTaken gateway first address

abbrev Outcome : Option String → ℕ → ℕ → Option ℕ → Type 0
Outcome gateway first limit none = AllTaken gateway first limit
Outcome gateway first limit (some address) = IsFirstFree gateway first limit address

AllTaken-step :
    (gateway : Option String) (first limit : ℕ)
    → IsGateway gateway first
    → AllTaken gateway (first + 1) limit
    → AllTaken gateway first limit
AllTaken-step gateway first limit h rest c from below = elim (Bool-cases (c == first)) [
  | inl e ↦ let same : first ≡ c = ground (arith, e) in subst (IsGateway gateway) same h
  | inr e ↦ rest c (ground (arith, e, from)) below
]

Outcome-step :
    (gateway : Option String) (first limit : ℕ) (found : Option ℕ)
    → IsGateway gateway first
    → Outcome gateway (first + 1) limit found
    → Outcome gateway first limit found
Outcome-step gateway first limit none h out = AllTaken-step gateway first limit h out
Outcome-step gateway first limit (some address) h out = record {
  from = omega (arith, out.from);
  below = out.below;
  free = out.free;
  least = AllTaken-step gateway first address h out.least;
}

first_free-Outcome :
    (left : ℕ) (gateway : Option String) (first limit : ℕ)
    → first + left ≡ limit
    → Outcome gateway first limit (first_free left gateway first)
unfolding first_free
first_free-Outcome zero gateway first limit h = λ c from below. absurd (omega arith)
first_free-Outcome (suc left) gateway first limit h = elim (Bool-cases (is_gateway gateway first)) [
  | inl e ↦
      rw (e, first_free)
        (Outcome-step gateway first limit (first_free left gateway (first + 1))
          (is_gateway-IsGateway gateway first e)
          (first_free-Outcome left gateway (first + 1) limit (omega arith)))
  | inr e ↦
      rw (e, first_free)
        (record {
          from = omega arith;
          below = omega arith;
          free = is_gateway-not-IsGateway gateway first e;
          least = λ c from below. absurd (omega arith);
        })
]

-- Where the search for an offer starts: at the first address that is behind the network's address
-- and behind the excluded range.
pub record IsStart (pool : DhcpPool) (n : Ipv4Network) (start : ℕ) : Type 0 where
  pub behind_network : n.network_address < start
  pub behind_excluded :
      (excluded_end : String) (last : ℕ)
      → present pool.excluded_end ≡ some excluded_end
      → parse_address excluded_end ≡ ok last
      → last < start
  pub first :
      (start ≡ n.network_address + 1)
      ⊎ ((excluded_end : String) × (last : ℕ) × (present pool.excluded_end ≡ some excluded_end)
          × (parse_address excluded_end ≡ ok last)
          × (start ≡ last + 1))

-- The offer is the least address of the search that is not the gateway's and lies below the
-- broadcast address; or there is none, and it is the start itself.
abbrev pub Offered : DhcpPool → Ipv4Network → ℕ → ℕ → Type 0
Offered pool n start address =
    IsFirstFree (present pool.gateway) start (broadcast_address n) address
    ⊎ (AllTaken (present pool.gateway) start (broadcast_address n) × (address ≡ start))

offer_from-Offered :
    (pool : DhcpPool) (n : Ipv4Network) (start : ℕ)
    → Offered pool n start (offer_from n (present pool.gateway) start)
unfolding offer_from
offer_from-Offered pool n start =
    let gateway = present pool.gateway in
    let left = broadcast_address n - start in
    let out = first_free-Outcome left gateway start (start + left) refl in
    elim (Option-cases (first_free left gateway start)) [
      | inl e ↦
          let taken : AllTaken gateway start (start + left) = rw e at out in
          inr (λ c from below. taken c from (omega arith), rw e)
      | inr (address, e) ↦
          let free : IsFirstFree gateway start (start + left) address = rw e at out in
          rw e (
            inl (record {
              from = free.from;
              below = omega (arith, free.below, free.from);
              free = free.free;
              least = free.least;
            }))
    ]

next_address-ok : (a b : ℕ) → next_address a ≡ ok b → b ≡ a + 1
unfolding next_address
next_address-ok a b h = ground (arith, h)

skip_excluded-behind :
    (first start : ℕ) (excluded : Option String)
    → skip_excluded first excluded ≡ ok start
    → (first ≤ start)
      × ((excluded_end : String) (last : ℕ)
          → excluded ≡ some excluded_end
          → parse_address excluded_end ≡ ok last
          → last < start)
      × ((start ≡ first)
          ⊎ ((excluded_end : String) × (last : ℕ) × (excluded ≡ some excluded_end)
              × (parse_address excluded_end ≡ ok last)
              × (start ≡ last + 1)))
unfolding skip_excluded
skip_excluded-behind first start none h =
    (ground (arith, h), λ e last none_is. cc, inl (ground (arith, h)))
skip_excluded-behind first start (some text) h =
    let (last, parsed, g) = >>=-eq-ok (parse_address text) _ h in
    let (behind, next, f) = >>=-eq-ok (next_address last) _ g in
    let is_next = next_address-ok last behind next in
    (
      ground (arith, f),
      λ e l same other.
          let texts : text ≡ e = ground (arith, same) in
          let read : parse_address text ≡ ok l = rw texts other in
          ground (arith, parsed, read, f, is_next),
      elim (Bool-cases (ltb first behind)) [
        | inl e ↦ inr (text, last, refl, parsed, ground (arith, f, e, is_next))
        | inr e ↦ inl (ground (arith, f, e))
      ],
    )

-- The search for an offer starts at the successor of the network's address or of the excluded range's
-- end, and behind both. The offer is the least address from there on that is not the gateway's and
-- lies below the broadcast address, if there is one, and else the start itself, whether or not that
-- is in the pool.
pub offer_address_bounds :
    (pool : DhcpPool) (address : ℕ)
    → offer_address pool ≡ ok address
    → (n : Ipv4Network) × (start : ℕ) × (parse_network pool.network pool.mask ≡ ok n)
      × IsStart pool n start
      × Offered pool n start address
unfolding offer_address
offer_address_bounds pool address h =
    let (n, read, g) = >>=-eq-ok (parse_network pool.network pool.mask) _ h in
    let (first, next, f) = >>=-eq-ok (next_address n.network_address) _ g in
    let (start, skipped, e) = >>=-eq-ok (skip_excluded first (present pool.excluded_end)) _ f in
    let is_next = next_address-ok n.network_address first next in
    let (behind, excluded, tight) =
      skip_excluded-behind first start (present pool.excluded_end) skipped in
    let same : offer_from n (present pool.gateway) start ≡ address = ground (arith, e) in
    (
      n,
      start,
      read,
      record {
        behind_network = omega (arith, is_next, behind);
        behind_excluded = excluded;
        first = elim tight [ inl e ↦ inl (e ∙ is_next) | inr later ↦ inr later ];
      },
      subst (Offered pool n start) same (offer_from-Offered pool n start),
    )

skip_excluded-at :
    (first last : ℕ) (text : String)
    → parse_address text ≡ ok last
    → first ≤ last
    → last + 1 < 2 ^ 32
    → skip_excluded first (some text) ≡ ok (last + 1)
unfolding skip_excluded next_address
skip_excluded-at first last text read le fits = rw read (ground (arith, le, fits))

-- When the excluded range ends at the pool's last host or behind it, the offer is the address that
-- follows that range: the broadcast address of the pool, or an address behind the pool.
pub offer_address-outside :
    (pool : DhcpPool) (n : Ipv4Network) (excluded_end : String) (last : ℕ)
    → parse_network pool.network pool.mask ≡ ok n
    → present pool.excluded_end ≡ some excluded_end
    → parse_address excluded_end ≡ ok last
    → n.network_address < last
    → broadcast_address n ≤ last + 1
    → last + 1 < 2 ^ 32
    → (offer_address pool ≡ ok (last + 1)) × (broadcast_address n ≤ last + 1)
unfolding offer_address next_address offer_from first_free
offer_address-outside pool n text last read excluded parsed inside full fits =
    let small : ltb (n.network_address + 1) (2 ^ 32) ≡ true = ground (arith, inside, fits) in
    let start = skip_excluded-at (n.network_address + 1) last text parsed (omega arith) fits in
    let none_left : broadcast_address n - (last + 1) ≡ 0 = omega (arith, full) in
    (rw (read, small, excluded, start, none_left) refl, full)
