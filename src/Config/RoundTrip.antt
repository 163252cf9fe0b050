-- ===== src/Config/RoundTrip.antt =====
-- A prefix length survives its mask, and a mask its wildcard.
use networkbasicswebsite.Prelude.{
  ℕ, zero, suc, ◌≤◌, ◌<◌, ◌≡◌, refl, ap, inl, inr, String, Bool, true, false, ◌&&◌, arith, ◌==◌,
  nat_eq, string_eq, Bool-cases, Result, ok, raise, ◌>>=◌, subst,
}
use networkbasicswebsite.Text.{split, str}
use networkbasicswebsite.Ipv4.{parse_address, str_address}
use networkbasicswebsite.Config.Masks.{ones, mask_to_prefix, prefix_to_mask, wildcard_to_mask}

-- The result is this value.
abbrev yields_number : Result ℕ → ℕ → Bool
yields_number (ok a) b = a == b
yields_number (raise exn) b = false

abbrev yields_text : Result String → String → Bool
yields_text (ok a) b = a == b
yields_text (raise exn) b = false

abbrev survives : ℕ → Result String → Bool
survives prefix (raise exn) = false
survives prefix (ok mask) =
    yields_number (mask_to_prefix mask) prefix
    && yields_text (wildcard_to_mask mask >>= wildcard_to_mask) mask

abbrev all_survive : ℕ → Bool
all_survive zero = true
all_survive (suc count) = survives count (prefix_to_mask count) && all_survive count

masks-checked : all_survive 33 ≡ true
unfolding mask_to_prefix prefix_to_mask wildcard_to_mask ones parse_address str_address split str
masks-checked = refl

all_survive-below :
    (count prefix : ℕ)
    → all_survive count ≡ true
    → prefix < count
    → survives prefix (prefix_to_mask prefix) ≡ true
all_survive-below zero prefix h below = absurd (omega arith)
all_survive-below (suc count) prefix h below = elim (Bool-cases (prefix == count)) [
  | inl e ↦
      let same : count ≡ prefix = ground (arith, e) in
      let last : survives count (prefix_to_mask count) ≡ true = ground (arith, h) in
      subst (λ p. survives p (prefix_to_mask p) ≡ true) same last
  | inr e ↦
      let others : all_survive count ≡ true = ground (arith, h) in
      all_survive-below count prefix others (ground (arith, e, below))
]

yields_number-ok : (r : Result ℕ) (n : ℕ) → yields_number r n ≡ true → r ≡ ok n
yields_number-ok (raise exn) n h = cc
yields_number-ok (ok a) n h = ap ok ((nat_eq.eqb_iff a n).0 h)

yields_text-ok : (r : Result String) (t : String) → yields_text r t ≡ true → r ≡ ok t
yields_text-ok (raise exn) t h = cc
yields_text-ok (ok a) t h = ap ok ((string_eq.eqb_iff a t).0 h)

survives-mask :
    (prefix : ℕ) (r : Result String)
    → survives prefix r ≡ true
    → (mask : String) × (r ≡ ok mask)
      × (mask_to_prefix mask ≡ ok prefix)
      × ((wildcard_to_mask mask >>= wildcard_to_mask) ≡ ok mask)
survives-mask prefix (raise exn) h = cc
survives-mask prefix (ok mask) h =
    let back : yields_number (mask_to_prefix mask) prefix ≡ true = ground (arith, h) in
    let twice : yields_text (wildcard_to_mask mask >>= wildcard_to_mask) mask ≡ true =
      ground (arith, h) in
    (
      mask,
      refl,
      yields_number-ok (mask_to_prefix mask) prefix back,
      yields_text-ok (wildcard_to_mask mask >>= wildcard_to_mask) mask twice,
    )

-- Every prefix length of at most 32 has a mask, whose prefix length it is again; and the wildcard of
-- a mask is taken back to the mask.
pub prefix_to_mask-mask_to_prefix :
    (prefix : ℕ)
    → prefix ≤ 32
    → (mask : String) × (prefix_to_mask prefix ≡ ok mask)
      × (mask_to_prefix mask ≡ ok prefix)
      × ((wildcard_to_mask mask >>= wildcard_to_mask) ≡ ok mask)
prefix_to_mask-mask_to_prefix prefix le =
    survives-mask prefix (prefix_to_mask prefix)
      (all_survive-below 33 prefix masks-checked (omega arith))
