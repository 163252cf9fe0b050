-- ===== src/Cli/VlanSets.antt =====
-- A set of numbers as an ascending list.
use networkbasicswebsite.Prelude.{
  ℕ, zero, suc, ◌+◌, ◌≤◌, ◌<◌, ◌≡◌, ◌↔◌, ◌⊎◌, inl, inr, List, [], ◌∷◌, arith, ltb, ◌==◌, nat_eq,
  string_eq, Bool-cases, Memᴰ, Memᴰ-cons,
}
use networkbasicswebsite.Cli.Vlans.{add_vlan, add_range}

-- Ascending without repetition, from `low` on.
abbrev pub IsAscending : ℕ → List ℕ → Type 0
IsAscending low [] = Unit
IsAscending low (vlan ∷ rest) = (low ≤ vlan) × IsAscending (vlan + 1) rest

pub add_vlan-IsAscending :
    (low vlan : ℕ) (vlans : List ℕ)
    → low ≤ vlan
    → IsAscending low vlans
    → IsAscending low (add_vlan vlan vlans)
unfolding add_vlan
add_vlan-IsAscending low vlan [] le h = (le, tt)
add_vlan-IsAscending low vlan (first ∷ rest) le h = elim (Bool-cases (ltb vlan first)) [
  | inl e ↦
      let below : vlan + 1 ≤ first = ground (arith, e) in
      let tail : (vlan + 1 ≤ first) × IsAscending (first + 1) rest = (below, h.1) in
      rw (e, add_vlan) (le, tail)
  | inr e ↦ elim (Bool-cases (vlan == first)) [
    | inl f ↦ rw (e, f, add_vlan) h
    | inr f ↦
        let above : first + 1 ≤ vlan = ground (arith, e, f) in
        rw (e, f, add_vlan) (h.0, add_vlan-IsAscending (first + 1) vlan rest above h.1)
  ]
]

pub Memᴰ-add_vlan :
    (v vlan : ℕ) (vlans : List ℕ) → Memᴰ v (add_vlan vlan vlans) ↔ ((v ≡ vlan) ⊎ Memᴰ v vlans)
unfolding add_vlan
Memᴰ-add_vlan v vlan [] = Memᴰ-cons v vlan []
Memᴰ-add_vlan v vlan (first ∷ rest) = elim (Bool-cases (ltb vlan first)) [
  | inl e ↦ rw (e, add_vlan) (Memᴰ-cons v vlan (first ∷ rest))
  | inr e ↦ elim (Bool-cases (vlan == first)) [
    | inl f ↦
        let same : vlan ≡ first = ground (arith, f) in
        rw (e, f, add_vlan) (ground (arith, same, Memᴰ-cons v first rest))
    | inr f ↦
        rw (e, f, add_vlan)
          (ground (
            arith,
            Memᴰ-cons v first (add_vlan vlan rest),
            Memᴰ-cons v first rest,
            Memᴰ-add_vlan v vlan rest,
          ))
  ]
]

pub add_range-IsAscending :
    (start count : ℕ) (vlans : List ℕ)
    → IsAscending 0 vlans
    → IsAscending 0 (add_range start count vlans)
unfolding add_range
add_range-IsAscending start zero vlans h = h
add_range-IsAscending start (suc count) vlans h =
    add_range-IsAscending (start + 1) count (add_vlan start vlans)
      (add_vlan-IsAscending 0 start vlans (omega arith) h)

pub Memᴰ-add_range :
    (v start count : ℕ) (vlans : List ℕ)
    → Memᴰ v (add_range start count vlans) ↔ (((start ≤ v) × (v < start + count)) ⊎ Memᴰ v vlans)
unfolding add_range
Memᴰ-add_range v start zero vlans =
    (λ m. inr m, λ h. elim h [ inl (a, b) ↦ absurd (omega arith) | inr m ↦ m ])
Memᴰ-add_range v start (suc count) vlans =
    let (to, from) = Memᴰ-add_range v (start + 1) count (add_vlan start vlans) in
    let (into, back) = Memᴰ-add_vlan v start vlans in
    (
      λ m. elim (to m) [
        | inl (a, b) ↦ inl (omega arith, omega arith)
        | inr n ↦ elim (into n) [
          | inl same ↦ inl (omega (arith, same), omega (arith, same))
          | inr old ↦ inr old
        ]
      ],
      λ h. elim h [
        | inr old ↦ from (inr (back (inr old)))
        | inl (a, b) ↦ elim (Bool-cases (v == start)) [
          | inl e ↦ from (inr (back (inl (ground (arith, e)))))
          | inr e ↦ from (inl (ground (arith, e, a), omega (arith, b)))
        ]
      ],
    )
