-- ===== src/Service/Capture/Managed.antt =====
-- internal/service/capture_transition.go, newTUNNetworkManager: the managers of internal/network as the network
-- managers of the service. What NewManager validates of a config, the platform's own preflight and the stages that
-- an activation reports are parameters; everything else is the network manager's.
use navo.Base.{
  ◌≡◌, refl, ap, ◌∙◌, String, Bool, true, false, Option, none, some, List, [], arith, if◌then◌else◌,
  str_eq,
}
use navo.Network.Journal.{absent, Checks}
use navo.Network.Manager.{
  Config, Host, Run, Cause, AdapterSnapshot, no_adapter, Ipv6Mode, ActivationPlan,
}
use navo.Network.Recovery.{recover_network_state}
use navo.Network.Activation.{
  Stage, Result, activated, refused, failed, Manager, settled, apply_plan, activate_locked,
  activate, rebind, deactivate,
}
use navo.Network.Released.{disk-deactivate}
use navo.Service.Capture.Action.{Error, plain, tun_error, Outcome, ok, fails}
use navo.Service.Capture.State.{NetworkManager}

cfg-settled : {E : Type 0} (m : Manager) (x : Run E × Result) → (settled m x).0.cfg ≡ m.cfg
cfg-settled m (run, activated adapter) = refl
cfg-settled m (run, refused cause) = refl
cfg-settled m (run, failed e) = refl

-- A manager that newTUNNetworkManager has made: it is enabled.
pub record Managed : Type 0 where
  pub manager : Manager
  pub enabled : manager.cfg.enabled ≡ true

abbrev error_of : Option Cause → Option Error
error_of none = none
error_of (some code) = some (record { tun_code = code; capture_code = none })

abbrev outcome_of : Result → Outcome AdapterSnapshot
outcome_of (activated adapter) = ok adapter
outcome_of (refused code) = fails (record { tun_code = code; capture_code = none })
outcome_of (failed e) = fails (tun_error e.code)

-- The config of newTUNNetworkManager, with the failure point off.
abbrev pub manager_config : String → ActivationPlan → Config
manager_config journal_path plan = record {
  enabled = true;
  journal_path = journal_path;
  tun_ipv4_peer = "172.19.0.2";
  tun_dns_ipv4 = "172.19.0.2";
  activation_plan = plan;
  failure_point = "";
}

-- The plan that has an adapter's name only.
abbrev pub recovery_plan : ActivationPlan
recovery_plan = record {
  session_id = "";
  adapter_name = "Navo";
  tun_ipv4_peer = "";
  tun_dns_ipv4 = "";
  endpoint_routes = [];
  ipv6_mode = Ipv6Mode.block;
}

module _ {E : Type 0} (host : Host E) (checks : Checks) where
  cfg-activate_locked :
      (recover_first : Bool) (m : Manager) (run : Run E)
      → (activate_locked host checks recover_first m run).0.cfg ≡ m.cfg
  unfolding activate_locked
  cfg-activate_locked recover_first m run =
      let recovered = recover_network_state host checks m.cfg run in
      ground (
        arith,
        cfg-settled m (apply_plan host checks m.cfg recovered.0),
        cfg-settled m (apply_plan host checks m.cfg run),
      )

  pub cfg-activate : (m : Manager) (run : Run E) → (activate host checks m run).0.cfg ≡ m.cfg
  unfolding activate
  cfg-activate m run = cfg-activate_locked true m run

  pub cfg-rebind : (m : Manager) (run : Run E) → (rebind host checks m run).0.cfg ≡ m.cfg
  unfolding rebind
  cfg-rebind m run =
      let recovered = recover_network_state host checks m.cfg run in
      ground (
        arith,
        cfg-activate_locked false (record m { active = false; adapter = no_adapter }) recovered.0,
      )

  pub cfg-deactivate : (m : Manager) (run : Run E) → (deactivate host checks m run).0.cfg ≡ m.cfg
  unfolding deactivate
  cfg-deactivate m run = ground arith

  module _ (journal_path : String) (accepts : Config → Bool)
      (preflight : Config → Run E → Run E × Option Cause) (reports : Result → List Stage) where
    unfoldable pub kept : (m : Managed) (after : Manager) → after.cfg ≡ m.manager.cfg → Managed
    kept m after same = record {
      manager = after;
      enabled = ap (λ (c : Config). c.enabled) same ∙ m.enabled;
    }

    -- NewManager, of a config of newTUNNetworkManager.
    unfoldable pub new_managed : ActivationPlan → Outcome Managed
    new_managed plan =
        let cfg = manager_config journal_path plan in
        if str_eq journal_path ""
        then fails plain
        else if accepts cfg
        then ok (record {
          manager = record { cfg = cfg; active = false; adapter = no_adapter };
          enabled = refl;
        })
        else fails plain

    -- tunNetworkManager of network.Manager.
    unfoldable pub managed_network : NetworkManager (Run E) Managed
    unfolding new_managed
    managed_network = record {
      recovery_manager = new_managed recovery_plan;
      new_manager = λ plan. new_managed plan.network;
      preflight = λ m run.
          let (run', error) = preflight m.manager.cfg run in
          (run', elim error [ none ↦ none | some c ↦ some (tun_error "TUN_PREFLIGHT_FAILED") ]);
      activate = λ m run.
          let (after, run', result) = activate host checks m.manager run in
          (kept m after (cfg-activate m.manager run), run', reports result, outcome_of result);
      rebind = λ m run.
          let (after, run', result) = rebind host checks m.manager run in
          (kept m after (cfg-rebind m.manager run), run', outcome_of result);
      deactivate = λ m run.
          let (after, run', error) = deactivate host checks m.manager run in
          (kept m after (cfg-deactivate m.manager run), run', error_of error);
    }

    error_of-none : (e : Option Cause) → error_of e ≡ none → e ≡ none
    error_of-none none h = refl
    error_of-none (some code) h = cc

    -- What the service relies on holds of them: a manager that deactivates without an error leaves no journal, so
    -- that everything it had made is taken back.
    pub managed_network-deactivates :
        (m : Managed) (run : Run E)
        → (managed_network.deactivate m run).2 ≡ none
        → (managed_network.deactivate m run).1.disk ≡ absent
    unfolding managed_network
    managed_network-deactivates m run fine =
        disk-deactivate host checks m.manager run m.enabled
          (error_of-none (deactivate host checks m.manager run).2 fine)
