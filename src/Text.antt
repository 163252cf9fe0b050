-- ===== src/Text.antt =====
-- Python's text functions that the program calls, over native texts and their code points.
use Prim.Native.Char.{code}
use Prim.Native.String.{◌++◌}
use networkbasicswebsite.Prelude.{
  ℕ, zero, suc, ◌/◌, ◌%◌, String, Bool, true, false, ◌&&◌, ◌||◌, List, [], ◌∷◌, Option, none, some,
  ltb, leb, if◌then◌else◌, ◌==◌, nat_eq, string_eq,
}

-- The code points of a text.
abbrev pub codes : String → List ℕ
codes String.[] = []
codes (String.◌∷◌ c s) = code c ∷ codes s

-- The parts of an f-string, joined.
abbrev pub concat : List String → String
concat [] = ""
concat (s ∷ rest) = s ++ concat rest

abbrev pub is_digit : ℕ → Bool
is_digit c = leb b'0' c && leb c b'9'

-- `text.split(sep)` for a separator of one character: one part more than there are separators.
unfoldable pub split : ℕ → List ℕ → List (List ℕ)
split sep [] = [] ∷ []
split sep (c ∷ rest) = elim (split sep rest) [
  | [] ↦ [] ∷ []
  | part ∷ parts ↦ if c == sep then [] ∷ part ∷ parts else (c ∷ part) ∷ parts
]

digit_text : ℕ → String
digit_text n =
    if n == 0
    then "0"
    else if n == 1
    then "1"
    else if n == 2
    then "2"
    else if n == 3
    then "3"
    else if n == 4
    then "4"
    else if n == 5
    then "5"
    else if n == 6
    then "6"
    else if n == 7
    then "7"
    else if n == 8
    then "8"
    else "9"

str_from : ℕ → ℕ → String → String
str_from zero n acc = acc
str_from (suc fuel) n acc =
    let rest = str_from fuel (n / 10) (digit_text (n % 10) ++ acc) in
    if ltb n 10 then digit_text n ++ acc else rest

-- `str(n)`: a number has at most as many digits as its value plus one.
unfoldable pub str : ℕ → String
unfolding str_from digit_text
str n = str_from (suc n) n ""

-- Python's truth of an optional text: None and the empty text are false.
abbrev pub present : Option String → Option String
present none = none
present (some s) = if s == "" then none else some s

abbrev pub is_some {ℓ} : {A : Type ℓ} → Option A → Bool
is_some none = false
is_some (some _) = true

-- `c.isspace()`
is_space : ℕ → Bool
is_space c =
    leb 9 c && leb c 13
    || leb 28 c && leb c 32
    || c == 0x85
    || c == 0xA0
    || c == 0x1680
    || leb 0x2000 c && leb c 0x200A
    || c == 0x2028
    || c == 0x2029
    || c == 0x202F
    || c == 0x205F
    || c == 0x3000

trim_left : String → String
unfolding is_space
trim_left String.[] = ""
trim_left (String.◌∷◌ c s) = if is_space (code c) then trim_left s else String.◌∷◌ c s

trim_right : String → String
unfolding is_space
trim_right String.[] = ""
trim_right (String.◌∷◌ c s) =
    let rest = trim_right s in if is_space (code c) && rest == "" then "" else String.◌∷◌ c rest

-- `text.strip()`
unfoldable pub strip : String → String
unfolding trim_left trim_right
strip text = trim_right (trim_left text)

-- `text.split(".")[0]`
unfoldable pub before_dot : String → String
before_dot String.[] = ""
before_dot (String.◌∷◌ c s) = if code c == b'.' then "" else String.◌∷◌ c (before_dot s)

-- `sep.join(texts)`
unfoldable pub join : String → List String → String
join sep [] = ""
join sep (text ∷ []) = text
join sep (text ∷ next ∷ rest) = text ++ (sep ++ join sep (next ∷ rest))

-- `text or ""`
abbrev pub or_empty : Option String → String
or_empty none = ""
or_empty (some text) = text

-- How an f-string shows an optional text.
abbrev pub shown : Option String → String
shown none = "None"
shown (some text) = text
