-- ===== src/Service/Capture/Composed.antt =====
-- internal/service and internal/network together: a service whose network managers are those of
-- internal/network, on a machine that has the network manager's journal beside it.
use navo.Base.{◌≡◌, String, Bool, Option, none, List}
use navo.Network.Journal.{absent, Checks}
use navo.Network.Manager.{Config, Host, Run, Cause, reaches}
use navo.Network.Activation.{Stage, Result}
use navo.Service.Capture.State.{Service, Machine}
use navo.Service.Capture.Prepare.{rollback_capture}
use navo.Service.Capture.Rollback.{IsMachine, IsDown, rollback_capture-IsDown}
use navo.Service.Capture.Managed.{Managed, managed_network, managed_network-deactivates}

module _ {E : Type 0} where
  -- An operation of the machine; the journal stays.
  abbrev pub on_env : {A : Type 0} → (E → E × A) → Run E → Run E × A
  on_env f run = let (env, answer) = f run.env in (reaches env run.disk run, answer)

  abbrev pub move_env : (E → E) → Run E → Run E
  move_env f run = reaches (f run.env) run.disk run

module _ {E M V W : Type 0} (host : Host E) (checks : Checks) (journal_path : String)
    (accepts : Config → Bool) (preflight : Config → Run E → Run E × Option Cause)
    (reports : Result → List Stage) (machine : Machine E M V W) where
  -- The machine with the managers of internal/network in place of its own.
  unfoldable pub with_managers : Machine (Run E) Managed V W
  with_managers = record {
    network = managed_network host checks journal_path accepts preflight reports;
    start_core = λ path. on_env (machine.start_core path);
    stop_core = on_env machine.stop_core;
    swap_core = λ path. on_env (machine.swap_core path);
    core_status = λ run. machine.core_status run.env;
    healthy = on_env machine.healthy;
    now = λ run. machine.now run.env;
    host_id = machine.host_id;
    supports = machine.supports;
    inspect_adapter = on_env machine.inspect_adapter;
    wait_missing = on_env machine.wait_missing;
    create_adapter = on_env machine.create_adapter;
    destroy_adapter = on_env machine.destroy_adapter;
    outbounds = on_env machine.outbounds;
    probe_tcp = λ o. on_env (machine.probe_tcp o);
    resolve_ips = λ name. on_env (machine.resolve_ips name);
    is_ip = machine.is_ip;
    physical_route = on_env machine.physical_route;
    capture_direct_ip = on_env machine.capture_direct_ip;
    build_plan = λ request. on_env (machine.build_plan request);
    canceled = on_env machine.canceled;
    verify_tun = λ request. on_env (machine.verify_tun request);
    verify_routing = λ mode. on_env (machine.verify_routing mode);
    compile = λ request. on_env (machine.compile request);
    validate_config = λ path. on_env (machine.validate_config path);
    save_candidate = λ compiled. on_env (machine.save_candidate compiled);
    mark_failed = λ id. move_env (machine.mark_failed id);
    mark_active = λ id. on_env (machine.mark_active id);
    save_selection = λ o. on_env (machine.save_selection o);
    save_runtime_state = λ r. on_env (machine.save_runtime_state r);
    remove_file = λ path. move_env (machine.remove_file path);
    clean_files = move_env machine.clean_files;
  }

  module _ (Missing : E → Type 0)
      (finds_missing : (e : E)
        → (machine.wait_missing e).1 ≡ none
        → Missing (machine.wait_missing e).0) where
    abbrev pub NoJournal : Run E → Type 0
    NoJournal run = run.disk ≡ absent

    abbrev pub NoAdapter : Run E → Type 0
    NoAdapter run = Missing run.env

    with_managers-IsMachine : IsMachine NoJournal NoAdapter with_managers
    unfolding with_managers
    with_managers-IsMachine = record {
      deactivates = managed_network-deactivates host checks journal_path accepts preflight reports;
      stops = λ run gone. gone;
      inspects = λ run gone. gone;
      creates = λ run gone. gone;
      destroys = λ run gone. gone;
      waits = λ run gone. gone;
      finds_missing = λ run. finds_missing run.env;
    }

    -- With the managers of internal/network, a rollback that reports no error has stopped the core, left no journal
    -- of network changes behind and no adapter on the machine, and cleared what the service knows of TUN, whatever
    -- state it starts from, if there is no journal where no manager is there. A wait for a missing adapter is taken
    -- to end without an error only when it is missing.
    pub rollback_capture-NoJournal :
        (s : Service (Run E) Managed V W)
        → (s.manager ≡ none → NoJournal s.env)
        → (rollback_capture with_managers s).1 ≡ none
        → IsDown NoJournal NoAdapter (rollback_capture with_managers s).0
    rollback_capture-NoJournal s held fine =
        rollback_capture-IsDown with_managers NoJournal NoAdapter with_managers-IsMachine s held
          fine
