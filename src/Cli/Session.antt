-- ===== src/Cli/Session.antt =====
-- backend/app/services/cli/session.py: where the operator is.
use networkbasicswebsite.Prelude.{ℕ, String, Bool, true, false, [], ◌∷◌, Option, none}
use networkbasicswebsite.Text.{concat}

pub data CliMode : Type 0 where
  user_exec priv_exec global_config interface_config vlan_config router_config line_config
        dhcp_config :
      CliMode

-- `PARENT_MODE`
abbrev pub parent_mode : CliMode → CliMode
parent_mode CliMode.user_exec = CliMode.user_exec
parent_mode CliMode.priv_exec = CliMode.user_exec
parent_mode CliMode.global_config = CliMode.priv_exec
parent_mode _ = CliMode.global_config

pub record CliSession : Type 0 where
  pub mode : CliMode
  pub interface : Option String
  pub vlan_id : Option ℕ
  pub router_protocol : Option String
  pub router_process : Option ℕ
  pub dhcp_pool : Option String
  pub line : Option String
  pub hostname : String

abbrev suffix : CliMode → String
suffix CliMode.user_exec = ">"
suffix CliMode.priv_exec = "#"
suffix CliMode.global_config = "(config)#"
suffix CliMode.interface_config = "(config-if)#"
suffix CliMode.vlan_config = "(config-vlan)#"
suffix CliMode.router_config = "(config-router)#"
suffix CliMode.line_config = "(config-line)#"
suffix CliMode.dhcp_config = "(dhcp-config)#"

unfoldable pub prompt : CliSession → String
prompt s = concat (s.hostname ∷ suffix s.mode ∷ [])

-- `leave`
unfoldable pub leave : CliSession → CliSession
leave s = record s {
  mode = parent_mode s.mode;
  interface = none;
  vlan_id = none;
  router_protocol = none;
  router_process = none;
  dhcp_pool = none;
  line = none;
}

-- `to_privileged`
unfoldable pub to_privileged : CliSession → CliSession
to_privileged s = record s {
  mode = CliMode.priv_exec;
  interface = none;
  vlan_id = none;
  router_protocol = none;
  router_process = none;
  dhcp_pool = none;
  line = none;
}

unfoldable pub in_config : CliSession → Bool
in_config s = elim s.mode [ CliMode.user_exec ↦ false | CliMode.priv_exec ↦ false | _ ↦ true ]
