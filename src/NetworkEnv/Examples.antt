-- ===== src/NetworkEnv/Examples.antt =====
-- The theorems about internal/networkenv at a snapshot whose TUN adapter is missing while a node is switched.
use navo.Base.{◌≡◌, true, false, [], All}
use navo.Base.Int.{pos}
use navo.NetworkEnv.Model.{
  Snapshot, owner_none, unknown, TransitionSnapshot, SystemProxySnapshot, TunAdapterSnapshot,
  ResourceSnapshot, JournalSnapshot,
}
use navo.NetworkEnv.Verdict.{analyze}
use navo.NetworkEnv.Findings.{IsOwned, IsCalm, is_moving, analyze-recoverable}
use navo.NetworkEnv.Distinct.{IsDistinct, analyze-IsDistinct}

abbrev switching : TransitionSnapshot
switching = record {
  busy = true;
  id = "7";
  operation = "node_switch";
  intent = "node";
  domain = "routing";
  priority = pos 600;
  phase = "Applying";
  fault_domain = "";
}

abbrev coherent : ResourceSnapshot
coherent = record {
  known = true;
  coherent = true;
  owned_count = pos 1;
  existing_count = pos 1;
  missing_count = pos 0;
  conflict_count = pos 0;
  last_error = "";
}

abbrev no_adapter : TunAdapterSnapshot
no_adapter = record {
  present = false;
  enabled = false;
  name = "";
  interface_guid = "";
  interface_index = pos 0;
  state = "";
  ownership = owner_none;
  session_id = "";
  stage = "";
  fault_id = "";
  last_error = "";
}

abbrev no_proxy : SystemProxySnapshot
no_proxy = record {
  enabled = false;
  proxy_server = "";
  auto_detect = false;
  auto_config_configured = false;
  bypass_configured = false;
  ownership = owner_none;
  owned_by_navo = false;
  ownership_marker = false;
  ownership_lost = false;
  local_endpoint = false;
  reachable = false;
  reachable_known = false;
  last_error = "";
}

abbrev no_journal : JournalSnapshot
no_journal = record {
  present = false;
  dirty = false;
  version = pos 2;
  session_id = "";
  adapter_name = "";
  owned_resources = pos 0;
  preexisting_resources = pos 0;
  pending_actions = pos 0;
  missing_resources = pos 0;
  conflicting_resources = pos 0;
  last_error = "";
}

abbrev missing_tun : Snapshot
missing_tun = record {
  version = 0;
  collected_at = 1000;
  health = unknown;
  stale = false;
  partial = false;
  transition = switching;
  capture = record {
    state = "active";
    desired_mode = "tun";
    committed_mode = "tun";
    fault_id = "";
    readiness_state = "failed";
    readiness_error = "";
  };
  physical = record { known = true; available = true; active_interfaces = []; last_error = "" };
  system_proxy = no_proxy;
  tun = record {
    expected = true;
    navo_adapter = no_adapter;
    external_present = true;
    external = [];
  };
  dns = coherent;
  routes = coherent;
  nrpt = coherent;
  firewall = coherent;
  journal = no_journal;
  findings = [];
  observation_errors = [];
}

analyze-recoverable_example :
    All IsOwned (analyze missing_tun).findings
    × (is_moving switching ≡ true → All IsCalm (analyze missing_tun).findings)
analyze-recoverable_example = analyze-recoverable missing_tun

analyze-IsDistinct_example : IsDistinct (analyze missing_tun).findings
analyze-IsDistinct_example = analyze-IsDistinct missing_tun
