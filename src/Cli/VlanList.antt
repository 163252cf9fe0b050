-- ===== src/Cli/VlanList.antt =====
-- What a parsed list of VLANs holds.
use mathlib.Core.List.Memᴰ
use networkbasicswebsite.Prelude.{
  ℕ, ◌+◌, ◌-◌, ◌≤◌, ◌≡◌, ◌↔◌, ◌⊎◌, refl, ap, sym, subst, ◌∙◌, inl, inr, String, true, false, List,
  [], ◌∷◌, Option, none, some, arith, ltb, ◌==◌, nat_eq, string_eq, Bool-cases, Sum-cases, Memᴰ,
}
use networkbasicswebsite.Text.{strip}
use networkbasicswebsite.Cli.Vlans.{
  comma_parts, has_dash, before_dash, after_dash, int_of, add_vlan, add_range, range_of, single_of,
  add_part, add_parts, all_in_range, checked_range, parse_vlan_list,
}
use networkbasicswebsite.Cli.VlanSets.{
  IsAscending, add_vlan-IsAscending, Memᴰ-add_vlan, add_range-IsAscending, Memᴰ-add_range,
}

all_in_range-bounds :
    (vlans : List ℕ) (v : ℕ) → all_in_range vlans ≡ true → Memᴰ v vlans → (1 ≤ v) × (v ≤ 4094)
unfolding all_in_range
all_in_range-bounds [] v h m = absurd (Memᴰ.not-nil m)
all_in_range-bounds (vlan ∷ rest) v h m =
    let low : 1 ≤ vlan = ground (arith, h) in
    let high : vlan ≤ 4094 = ground (arith, h) in
    let others : all_in_range rest ≡ true = ground (arith, h) in
    elim (Memᴰ.cases_cons m) [
      | inl here ↦ (omega (arith, here, low), omega (arith, here, high))
      | inr there ↦ all_in_range-bounds rest v others there
    ]

module _ (digit : ℕ → Option ℕ) where
  -- A part of the list names the number: by itself, or by a range that holds it.
  pub data Names (part : String) (vlan : ℕ) : Type 0 where
    alone : has_dash part ≡ false → int_of digit part ≡ some vlan → Names part vlan
    within :
        (start end : ℕ)
        → has_dash part ≡ true
        → int_of digit (before_dash part) ≡ some start
        → int_of digit (after_dash part) ≡ some end
        → start ≤ vlan
        → vlan ≤ end
        → Names part vlan

  Names-alone :
      (part : String) (v vlan : ℕ)
      → has_dash part ≡ false
      → int_of digit part ≡ some vlan
      → Names part v ↔ (v ≡ vlan)
  Names-alone part v vlan plain reads = (
    λ n. elim n [
      | alone _ r ↦ ground (arith, r, reads)
      | within _ _ dashed _ _ _ _ ↦ absurd (ground (arith, dashed, plain))
    ],
    λ same. alone plain (reads ∙ ap some (sym same)),
  )

  Names-within :
      (part : String) (v start end : ℕ)
      → has_dash part ≡ true
      → int_of digit (before_dash part) ≡ some start
      → int_of digit (after_dash part) ≡ some end
      → Names part v ↔ ((start ≤ v) × (v ≤ end))
  Names-within part v start end dashed from_start to_end = (
    λ n. elim n [
      | alone plain _ ↦ absurd (ground (arith, dashed, plain))
      | within a b _ reads_a reads_b le ge ↦
          (ground (arith, reads_a, from_start, le), ground (arith, reads_b, to_end, ge))
    ],
    λ h. within start end dashed from_start to_end h.0 h.1,
  )

  -- What a part adds to the numbers so far.
  pub record IsAdded (part : String) (vlans more : List ℕ) : Type 0 where
    pub ascending : IsAscending 0 vlans → IsAscending 0 more
    pub members : (v : ℕ) → Memᴰ v more ↔ (Names part v ⊎ Memᴰ v vlans)

  single_of-IsAdded :
      (part : String) (vlans more : List ℕ) (read : Option ℕ)
      → has_dash part ≡ false
      → int_of digit part ≡ read
      → single_of part vlans read ≡ inr more
      → IsAdded part vlans more
  single_of-IsAdded part vlans more none plain reads h = cc
  single_of-IsAdded part vlans more (some vlan) plain reads h =
      let same : add_vlan vlan vlans ≡ more = ground (arith, h) in
      subst (IsAdded part vlans) same (record {
        ascending = add_vlan-IsAscending 0 vlan vlans (omega arith);
        members = λ v.
            let (to, from) = Memᴰ-add_vlan v vlan vlans in
            let (one, other) = Names-alone part v vlan plain reads in
            ground (arith, to, from, one, other);
      })

  range_of-IsAdded :
      (part : String) (vlans more : List ℕ) (first last : Option ℕ)
      → has_dash part ≡ true
      → int_of digit (before_dash part) ≡ first
      → int_of digit (after_dash part) ≡ last
      → range_of part vlans first last ≡ inr more
      → IsAdded part vlans more
  range_of-IsAdded part vlans more none last dashed reads_a reads_b h = cc
  range_of-IsAdded part vlans more (some start) none dashed reads_a reads_b h = cc
  range_of-IsAdded part vlans more (some start) (some end) dashed reads_a reads_b h =
      elim (Bool-cases (ltb end start)) [
        | inl e ↦ absurd (ground (arith, h, e))
        | inr e ↦
            let same : add_range start (end + 1 - start) vlans ≡ more = ground (arith, h, e) in
            let ordered : start ≤ end = ground (arith, e) in
            let span : start + (end + 1 - start) ≡ end + 1 = omega (arith, ordered) in
            subst (IsAdded part vlans) same (record {
              ascending = add_range-IsAscending start (end + 1 - start) vlans;
              members = λ v.
                  let (to, from) = Memᴰ-add_range v start (end + 1 - start) vlans in
                  let (one, other) = Names-within part v start end dashed reads_a reads_b in
                  (
                    λ m. elim (to m) [
                      | inl (a, b) ↦ inl (other (a, omega (arith, b, span)))
                      | inr old ↦ inr old
                    ],
                    λ g. elim g [
                      | inl n ↦ let (a, b) = one n in from (inl (a, omega (arith, b, span)))
                      | inr old ↦ from (inr old)
                    ],
                  );
            })
      ]

  Names-empty : (v : ℕ) → Names "" v → ⊥
  unfolding int_of has_dash strip
  Names-empty v n = elim n [ alone _ reads ↦ cc | within _ _ dashed _ _ _ _ ↦ cc ]

  add_part-IsAdded :
      (text : String) (vlans more : List ℕ)
      → add_part digit text vlans ≡ inr more
      → IsAdded (strip text) vlans more
  unfolding add_part
  add_part-IsAdded text vlans more h =
      let part = strip text in
      elim (Bool-cases (part == "")) [
        | inl e ↦
            let empty : part ≡ "" = (string_eq.eqb_iff part "").0 e in
            let same : vlans ≡ more = ground (arith, h, e) in
            subst (IsAdded part vlans) same (record {
              ascending = λ a. a;
              members = λ v. (
                λ m. inr m,
                λ g. elim g [
                  | inl n ↦ absurd (Names-empty v (subst (λ p. Names p v) empty n))
                  | inr m ↦ m
                ],
              );
            })
        | inr e ↦ elim (Bool-cases (has_dash part)) [
          | inl f ↦
              range_of-IsAdded part vlans more (int_of digit (before_dash part))
                (int_of digit (after_dash part)) f refl refl (rw (e, f, add_part) at h)
          | inr f ↦
              single_of-IsAdded part vlans more (int_of digit part) f refl
                (rw (e, f, add_part) at h)
        ]
      ]

  -- Some part of the list names the number.
  abbrev pub AnyNames : List String → ℕ → Type 0
  AnyNames [] v = ⊥
  AnyNames (text ∷ rest) v = Names (strip text) v ⊎ AnyNames rest v

  add_parts-members :
      (texts : List String) (vlans more : List ℕ)
      → add_parts digit texts vlans ≡ inr more
      → (IsAscending 0 vlans → IsAscending 0 more)
        × ((v : ℕ) → Memᴰ v more ↔ (AnyNames texts v ⊎ Memᴰ v vlans))
  unfolding add_parts
  add_parts-members [] vlans more h =
      let same : vlans ≡ more = ground (arith, h) in
      subst
        (λ m. (IsAscending 0 vlans → IsAscending 0 m) × ((v : ℕ) → Memᴰ v m ↔ (⊥ ⊎ Memᴰ v vlans)))
        same (λ a. a, λ v. (λ m. inr m, λ g. elim g [ inl none_is ↦ absurd none_is | inr m ↦ m ]))
  add_parts-members (text ∷ rest) vlans more h = elim (Sum-cases (add_part digit text vlans)) [
    | inl (error, e) ↦ absurd (ground (arith, rw (e, add_parts) at h))
    | inr (next, e) ↦
        let added = add_part-IsAdded text vlans next e in
        let (ascending, members) = add_parts-members rest next more (rw (e, add_parts) at h) in
        (
          λ a. ascending (added.ascending a),
          λ v.
              let (to, from) = members v in
              let (into, back) = added.members v in
              (
                λ m. elim (to m) [
                  | inl n ↦ inl (inr n)
                  | inr old ↦ elim (into old) [ inl n ↦ inl (inl n) | inr o ↦ inr o ]
                ],
                λ g. elim g [
                  | inl here ↦ elim here [
                    | inl n ↦ from (inr (back (inl n)))
                    | inr n ↦ from (inl n)
                  ]
                  | inr o ↦ from (inr (back (inr o)))
                ],
              ),
        )
  ]

  -- A list of VLANs that is accepted is ascending without repetition, its numbers are from 1 to 4094,
  -- and they are exactly those that a part between commas names, alone or in a range.
  pub parse_vlan_list-bounds :
      (text : String) (vlans : List ℕ)
      → parse_vlan_list digit text ≡ inr vlans
      → IsAscending 0 vlans
        × ((v : ℕ) → Memᴰ v vlans → (1 ≤ v) × (v ≤ 4094))
        × ((v : ℕ) → Memᴰ v vlans ↔ AnyNames (comma_parts text) v)
  unfolding parse_vlan_list
  parse_vlan_list-bounds text vlans h = elim (Sum-cases (add_parts digit (comma_parts text) [])) [
    | inl (error, e) ↦ absurd (ground (arith, rw (e, parse_vlan_list) at h))
    | inr (found, e) ↦
        let checked : checked_range found ≡ inr vlans = rw (e, parse_vlan_list) at h in
        elim (Bool-cases (all_in_range found)) [
          | inr outside ↦ absurd (ground (arith, rw (outside, checked_range) at checked))
          | inl inside ↦
              let same : found ≡ vlans = ground (arith, checked, inside) in
              let (ascending, members) = add_parts-members (comma_parts text) [] found e in
              subst
                (λ m.
                  IsAscending 0 m
                  × ((v : ℕ) → Memᴰ v m → (1 ≤ v) × (v ≤ 4094))
                  × ((v : ℕ) → Memᴰ v m ↔ AnyNames (comma_parts text) v))
                same
                (
                  ascending tt,
                  λ v m. all_in_range-bounds found v inside m,
                  λ v.
                      let (to, from) = members v in
                      (
                        λ m. elim (to m) [ inl n ↦ n | inr m' ↦ absurd (Memᴰ.not-nil m') ],
                        λ n. from (inl n),
                      ),
                )
        ]
  ]
