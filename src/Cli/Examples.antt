-- ===== src/Cli/Examples.antt =====
-- A list of VLANs, an abbreviation, and the exits of a session.
use networkbasicswebsite.Prelude.{
  ℕ, ◌≡◌, ◌≤◌, ◌↔◌, refl, inr, String, true, false, Option, none, some, List, [], ◌∷◌, Memᴰ,
}
use networkbasicswebsite.Text.{strip}
use networkbasicswebsite.Cli.Vlans.{
  comma_parts, has_dash, before_dash, after_dash, int_of, add_vlan, add_range, add_part, add_parts,
  all_in_range, parse_vlan_list,
}
use networkbasicswebsite.Cli.Abbreviations.{starts_with, matches, exact_match, resolve}
use networkbasicswebsite.Cli.Session.{CliMode, CliSession, prompt}
use networkbasicswebsite.Cli.Resolved.{Resolves, resolve-Resolves}
use networkbasicswebsite.Cli.VlanSets.{IsAscending}
use networkbasicswebsite.Cli.VlanList.{AnyNames, parse_vlan_list-bounds}

abbrev typed : String
typed = "30-32, 10,,31"

abbrev allowed : List ℕ
allowed = 10 ∷ 30 ∷ 31 ∷ 32 ∷ []

-- the digits of ASCII alone
abbrev ascii : ℕ → Option ℕ
ascii c = none

typed-parsed : parse_vlan_list ascii typed ≡ inr allowed
unfolding parse_vlan_list add_parts add_part add_range add_vlan all_in_range comma_parts has_dash
    before_dash after_dash int_of strip
typed-parsed = refl

parse_vlan_list-bounds_example :
    IsAscending 0 allowed
    × ((v : ℕ) → Memᴰ v allowed → (1 ≤ v) × (v ≤ 4094))
    × ((v : ℕ) → Memᴰ v allowed ↔ AnyNames ascii (comma_parts typed) v)
parse_vlan_list-bounds_example = parse_vlan_list-bounds ascii typed allowed typed-parsed

abbrev unchanged : String → String
unchanged text = text

abbrev commands : List String
commands = "show" ∷ "shutdown" ∷ "ip" ∷ "ipv6" ∷ []

ambiguous : resolve unchanged "sh" commands ≡ (none, true)
unfolding resolve exact_match matches starts_with
ambiguous = refl

exact : resolve unchanged "ip" commands ≡ (some "ip", false)
unfolding resolve exact_match matches starts_with
exact = refl

resolve-Resolves_example : Resolves unchanged "ip" commands (resolve unchanged "ip" commands)
resolve-Resolves_example = resolve-Resolves unchanged "ip" commands

abbrev session : CliSession
session = record {
  mode = CliMode.interface_config;
  interface = some "g0/0";
  vlan_id = none;
  router_protocol = none;
  router_process = none;
  dhcp_pool = none;
  line = none;
  hostname = "R1";
}

session-prompt : prompt session ≡ "R1(config-if)#"
unfolding prompt
session-prompt = refl
