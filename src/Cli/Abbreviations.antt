-- ===== src/Cli/Abbreviations.antt =====
-- backend/app/services/cli/parsing.py: `matches` and `resolve`. `lower` is `str.lower`.
use Prim.Native.Char.{code}
use networkbasicswebsite.Prelude.{
  String, Bool, true, false, List, [], ◌∷◌, Option, none, some, if◌then◌else◌, ◌==◌, nat_eq,
  string_eq, keep,
}

-- `text.startswith(start)`
unfoldable pub starts_with : String → String → Bool
starts_with String.[] text = true
starts_with (String.◌∷◌ c start) String.[] = false
starts_with (String.◌∷◌ c start) (String.◌∷◌ d text) =
    if code c == code d then starts_with start text else false

unfoldable pub matches : (String → String) → String → String → Bool
matches lower token full = if token == "" then false else starts_with (lower token) (lower full)

-- The first candidate that is the token but for case.
unfoldable pub exact_match : (String → String) → String → List String → Option String
exact_match lower token [] = none
exact_match lower token (candidate ∷ rest) =
    let later = exact_match lower token rest in
    if lower candidate == lower token then some candidate else later

-- What the list of hits says: the only one, and whether there are several.
abbrev pub of_hits : List String → Option String × Bool
of_hits [] = (none, false)
of_hits (hit ∷ []) = (some hit, false)
of_hits (hit ∷ next ∷ rest) = (none, true)

unfoldable pub resolve : (String → String) → String → List String → Option String × Bool
resolve lower token candidates = elim (exact_match lower token candidates) [
  | some candidate ↦ (some candidate, false)
  | none ↦ of_hits (keep (matches lower token) candidates)
]
