-- ===== src/Network/Examples.antt =====
-- Activations on a small machine, one of which cannot make the firewall rule.
use navo.Base.{◌≡◌, refl, arith, Bool, true, false, none, List, [], ◌∷◌, All}
use navo.Network.Journal.{Identity, firewall_rule, nrpt_rule, no_identity, Disk, Checks}
use navo.Network.Manager.{ActivationPlan, block, Config, Run, no_adapter}
use navo.Base.Text.{trim_space, contains, concat, begins_with}
use navo.Network.Journal.{
  validate_recovery_journal, all_valid, validate_journal_resource, is_route, all_session_chars,
  is_session_char,
}
use navo.Network.Manager.{
  write_journal, inspect_operation, should_inject_failure, operations, endpoint_operation,
  split_operation, session_metric, fnv_codes, fnv_bytes, utf8,
}
use navo.Network.Recovery.{
  undo_resource, undo_action, undo_all, remove_journal, rollback_locked, rollback_after_failure,
  recover_locked, migrate_v1, legacy_actions, cleanup_orphaned_firewall_rules,
  recover_network_state,
}
use navo.Network.Activation.{
  TunError, network_applied, failed, Manager, apply_plan, apply_all, apply_operation,
  activation_failure, activate_locked, deactivate, Result,
}
use navo.Network.Coverage.{IsHost}
use navo.Network.Session.{fresh, restart}
use navo.Network.Deactivate.{IsAsBefore, IsSwept}
use navo.Network.Restart.{
  apply_plan-recover_locked, apply_plan-failed, apply_plan-keeps, activate_locked-deactivate,
}
use navo.Network.Plans.{IsPlan}
use navo.Network.Recovers.{IsHealthy, apply_plan-recovers}
use navo.Network.Machine.{has, without, same, Present, machine, machine-IsHost}

abbrev any_text : Checks
any_text = record { is_cidr = λ s. true; is_ip = λ s. true; is_adapter_name = λ s. true }

abbrev is_firewall : Identity → Bool
is_firewall r = elim r.kind [ firewall_rule ↦ true | _ ↦ false ]

abbrev small_plan : ActivationPlan
small_plan = record {
  session_id = "s-1";
  adapter_name = "navo-tun";
  tun_ipv4_peer = "172.19.0.2";
  tun_dns_ipv4 = "172.19.0.2";
  endpoint_routes =
      record {
        endpoint_ip = "203.0.113.7";
        interface_index = 3;
        interface_guid = "";
        interface_alias = "Ethernet";
        next_hop = "192.0.2.1";
      }
      ∷ [];
  ipv6_mode = block;
}

abbrev small_config : Config
small_config = record {
  enabled = true;
  journal_path = "network.json";
  tun_ipv4_peer = "172.19.0.2";
  tun_dns_ipv4 = "172.19.0.2";
  activation_plan = small_plan;
  failure_point = "";
}

-- A rule that some other program has made.
abbrev foreign_rule : Identity
foreign_rule = record (no_identity nrpt_rule) { nrpt_namespace = "corp.example" }

abbrev foreign : List Identity
foreign = foreign_rule ∷ []

there : Present foreign_rule foreign
unfolding has same
there = refl

abbrev not_made : TunError
not_made = record {
  code = "TUN_IPV6_POLICY_FAILED";
  stage = network_applied;
  resource = "IPv6 leak protection";
  rollback_status = "complete";
}

fails_at_firewall :
    (apply_plan (machine is_firewall) any_text small_config (fresh foreign)).1 ≡ failed not_made
unfolding apply_plan apply_all apply_operation activation_failure rollback_after_failure
    rollback_locked undo_all undo_action undo_resource remove_journal write_journal
    inspect_operation should_inject_failure operations endpoint_operation split_operation
    session_metric fnv_codes fnv_bytes utf8 contains concat validate_recovery_journal all_valid
    validate_journal_resource is_route all_session_chars is_session_char begins_with has without
    same trim_space
fails_at_firewall = refl

abbrev laws : IsHost Present (machine is_firewall)
laws = machine-IsHost is_firewall

abbrev broken_run : Run (List Identity) × Result
broken_run = apply_plan (machine is_firewall) any_text small_config (fresh foreign)

apply_plan-recover_locked_example :
    All
      (λ (m : Disk × List Identity).
        (recover_locked (machine is_firewall) any_text small_config (restart m)).1 ≡ none
        → IsAsBefore Present
            (machine is_firewall)
            laws
            any_text
            foreign
            (recover_locked (machine is_firewall) any_text small_config (restart m)).0)
      broken_run.0.trail
apply_plan-recover_locked_example =
    apply_plan-recover_locked Present (machine is_firewall) laws any_text small_config foreign

apply_plan-failed_example :
    IsAsBefore Present (machine is_firewall) laws any_text foreign broken_run.0
apply_plan-failed_example =
    apply_plan-failed Present (machine is_firewall) laws any_text small_config foreign not_made
      fails_at_firewall refl

apply_plan-keeps_example :
    All (λ (m : Disk × List Identity). Present foreign_rule m.1) broken_run.0.trail
apply_plan-keeps_example =
    apply_plan-keeps Present (machine is_firewall) laws any_text small_config foreign foreign_rule
      there

abbrev able : Identity → Bool
able r = false

abbrev idle : Manager
idle = record { cfg = small_config; active = false; adapter = no_adapter }

abbrev activation : Manager × Run (List Identity) × Result
activation = activate_locked (machine able) any_text false idle (fresh foreign)

ends_well : (deactivate (machine able) any_text activation.0 activation.1).2 ≡ none
unfolding activate_locked deactivate recover_network_state recover_locked migrate_v1 legacy_actions
    cleanup_orphaned_firewall_rules apply_plan apply_all apply_operation activation_failure
    rollback_after_failure rollback_locked undo_all undo_action undo_resource remove_journal
    write_journal inspect_operation should_inject_failure operations endpoint_operation
    split_operation session_metric fnv_codes fnv_bytes utf8 contains concat
    validate_recovery_journal all_valid validate_journal_resource is_route all_session_chars
    is_session_char begins_with has without same trim_space
ends_well = refl

activate_locked-deactivate_example :
    IsSwept Present
      (machine able)
      (machine-IsHost able)
      any_text
      foreign
      (deactivate (machine able) any_text activation.0 activation.1).1
activate_locked-deactivate_example =
    activate_locked-deactivate Present (machine able) (machine-IsHost able) any_text idle foreign
      refl ends_well

small_plan-IsPlan : IsPlan any_text small_plan
unfolding all_session_chars is_session_char
small_plan-IsPlan = record {
  session_named = refl;
  session_short = omega arith;
  session_plain = refl;
  adapter_named = refl;
  adapter_plain = refl;
  peer = refl;
  lower_half = refl;
  upper_half = refl;
  endpoints = ((refl, refl, λ e. absurd (ground arith)), tt);
}

machine-IsHealthy : IsHealthy (machine able)
machine-IsHealthy = record { undoes = λ r e. refl; writes = λ e. refl; removes = λ e. refl }

apply_plan-recovers_example :
    All
      (λ (m : Disk × List Identity).
        ((recover_locked (machine able) any_text small_config (restart m)).1 ≡ none)
        × IsAsBefore Present
            (machine able)
            (machine-IsHost able)
            any_text
            foreign
            (recover_locked (machine able) any_text small_config (restart m)).0)
      broken_run.0.trail
apply_plan-recovers_example =
    apply_plan-recovers Present any_text (machine is_firewall) laws (machine able)
      (machine-IsHost able) machine-IsHealthy small_config foreign refl small_plan-IsPlan
      (λ e. absurd (ground arith))
