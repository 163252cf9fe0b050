-- ===== src/Cli/Vlans.antt =====
-- backend/app/services/cli/parsing.py: `parse_vlan_list`. A set of numbers is the ascending list of
-- its elements, so `sorted` gives the list itself.
use Prim.Native.Char.{code}
use networkbasicswebsite.Prelude.{
  ℕ, zero, suc, ◌+◌, ◌-◌, ◌*◌, ◌⊎◌, inl, inr, String, Bool, true, false, ◌&&◌, List, [], ◌∷◌,
  Option, none, some, ltb, leb, if◌then◌else◌, ◌==◌, nat_eq, string_eq,
}
use networkbasicswebsite.Text.{codes, is_digit, strip}

-- The ValueErrors; which number is out of range depends on the order of a set.
pub data VlanError : Type 0 where
  invalid_range invalid_id : String → VlanError
  out_of_range : VlanError

-- `text.split(",")`
unfoldable pub comma_parts : String → List String
comma_parts String.[] = "" ∷ []
comma_parts (String.◌∷◌ c s) = elim (comma_parts s) [
  | [] ↦ "" ∷ []
  | part ∷ parts ↦ if code c == b',' then "" ∷ part ∷ parts else String.◌∷◌ c part ∷ parts
]

-- `"-" in text`
unfoldable pub has_dash : String → Bool
has_dash String.[] = false
has_dash (String.◌∷◌ c s) = if code c == b'-' then true else has_dash s

-- `text.partition("-")`, for a text with a dash
unfoldable pub before_dash : String → String
before_dash String.[] = ""
before_dash (String.◌∷◌ c s) = if code c == b'-' then "" else String.◌∷◌ c (before_dash s)

unfoldable pub after_dash : String → String
after_dash String.[] = ""
after_dash (String.◌∷◌ c s) = if code c == b'-' then s else after_dash s

-- A number with a minus sign. One below 0 can only end a range, where it raises the error that an
-- unreadable one raises, and is none here.
abbrev negated : Option ℕ → Option ℕ
negated (some zero) = some zero
negated _ = none

-- `result.add(vlan)`
unfoldable pub add_vlan : ℕ → List ℕ → List ℕ
add_vlan vlan [] = vlan ∷ []
add_vlan vlan (first ∷ rest) =
    let more = add_vlan vlan rest in
    if ltb vlan first
    then vlan ∷ first ∷ rest
    else if vlan == first
    then first ∷ rest
    else first ∷ more

-- `result.update(range(start, start + count))`
unfoldable pub add_range : ℕ → ℕ → List ℕ → List ℕ
add_range start zero vlans = vlans
add_range start (suc count) vlans = add_range (start + 1) count (add_vlan start vlans)

abbrev pub range_of : String → List ℕ → Option ℕ → Option ℕ → VlanError ⊎ List ℕ
range_of part vlans (some start) (some end) =
    if ltb end start
    then inl (invalid_range part)
    else inr (add_range start (end + 1 - start) vlans)
range_of part vlans _ _ = inl (invalid_range part)

abbrev pub single_of : String → List ℕ → Option ℕ → VlanError ⊎ List ℕ
single_of part vlans none = inl (invalid_id part)
single_of part vlans (some vlan) = inr (add_vlan vlan vlans)

unfoldable pub all_in_range : List ℕ → Bool
all_in_range [] = true
all_in_range (vlan ∷ rest) = leb 1 vlan && leb vlan 4094 && all_in_range rest

abbrev pub checked_range : List ℕ → VlanError ⊎ List ℕ
checked_range vlans = if all_in_range vlans then inr vlans else inl out_of_range

module _ (digit : ℕ → Option ℕ) where
  -- The value of a digit of the text: `digit` is that of the decimal digits of Unicode beyond ASCII.
  value_of : ℕ → Option ℕ
  value_of c = if is_digit c then some (c - b'0') else digit c

  -- The digits of a number; an underscore may stand between two of them.
  digits_value : ℕ → Bool → List ℕ → Option ℕ
  unfolding value_of
  digits_value acc behind_digit [] = if behind_digit then some acc else none
  digits_value acc behind_digit (c ∷ rest) =
      let skipped = digits_value acc false rest in
      elim (value_of c) [
        | some value ↦ digits_value (acc * 10 + value) true rest
        | none ↦ if c == b'_' && behind_digit then skipped else none
      ]

  signed_value : List ℕ → Option ℕ
  unfolding digits_value
  signed_value [] = none
  signed_value (c ∷ rest) =
      if c == b'+'
      then digits_value 0 false rest
      else if c == b'-'
      then negated (digits_value 0 false rest)
      else digits_value 0 false (c ∷ rest)

  -- `int(text)`
  unfoldable pub int_of : String → Option ℕ
  unfolding signed_value
  int_of text = signed_value (codes (strip text))

  -- The body of the loop over the parts.
  unfoldable pub add_part : String → List ℕ → VlanError ⊎ List ℕ
  add_part text vlans =
      let part = strip text in
      if part == ""
      then inr vlans
      else if has_dash part
      then range_of part vlans (int_of (before_dash part)) (int_of (after_dash part))
      else single_of part vlans (int_of part)

  unfoldable pub add_parts : List String → List ℕ → VlanError ⊎ List ℕ
  add_parts [] vlans = inr vlans
  add_parts (text ∷ rest) vlans = elim (add_part text vlans) [
    | inl error ↦ inl error
    | inr more ↦ add_parts rest more
  ]

  -- `parse_vlan_list`
  unfoldable pub parse_vlan_list : String → VlanError ⊎ List ℕ
  parse_vlan_list text = elim (add_parts (comma_parts text) []) [
    | inl error ↦ inl error
    | inr vlans ↦ checked_range vlans
  ]
