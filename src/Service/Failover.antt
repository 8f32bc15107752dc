-- ===== src/Service/Failover.antt =====
-- internal/service/failover.go: the nodes of the active node's own source that could take over from it. sort.Slice
-- and the order in which the probes finish are parameters; latencies are not negative.
pub mod Candidates
mod Examples
use mathlib.Core.List.{◌++◌}
use navo.Base.{
  ℕ, String, Bool, true, false, not, ◌||◌, ◌&&◌, Option, none, some, List, [], ◌∷◌, map, select,
  str_eq, ltb, ◌==◌, if◌then◌else◌,
}
use navo.Base.Text.{concat}
use navo.Service.Outbound.{Outbound, compatible, find_outbound, outbound_source_type}

-- failoverProbeResult
pub record ProbeResult : Type 0 where
  pub outbound_id : String
  pub source_type : String
  pub latency_ms : ℕ
  pub reachable : Bool
  pub error : String

abbrev pub no_result : Outbound → String → ProbeResult
no_result o source_type = record {
  outbound_id = o.id;
  source_type = source_type;
  latency_ms = 0;
  reachable = false;
  error = "";
}

-- Another outbound of the source.
unfoldable pub is_other : String → String → Outbound → Bool
is_other active_id source_type o =
    not (str_eq o.id active_id || not (str_eq (outbound_source_type o) source_type))

unfoldable pub is_eligible : String → Outbound → Bool
is_eligible core_id o = if not o.enabled then false else compatible core_id o

-- Why an outbound is not eligible.
unfoldable pub rejection : String → String → Outbound → ProbeResult
rejection core_id source_type o = record (no_result o source_type) {
  error =
      if not o.enabled
      then "endpoint is disabled"
      else concat (core_id ∷ " does not support protocol " ∷ o.kind ∷ []);
}

-- What a probe brings: the context's error, no prober, no result, or a result.
pub data Probe : Type 0 where
  canceled : String → Probe
  unavailable missing : Probe
  probed : Bool → ℕ → String → Probe

unfoldable pub probed_result : String → Outbound → Probe → ProbeResult
probed_result source_type o (canceled text) = record (no_result o source_type) { error = text }
probed_result source_type o unavailable = record (no_result o source_type) {
  error = "outbound prober is unavailable";
}
probed_result source_type o missing = record (no_result o source_type) {
  error = "outbound probe returned no result";
}
probed_result source_type o (probed healthy latency text) = record (no_result o source_type) {
  reachable = healthy;
  latency_ms = latency;
  error = text;
}

unfoldable pub probe_result : (Outbound → Probe) → String → Outbound → ProbeResult
unfolding probed_result
probe_result probe source_type o = probed_result source_type o (probe o)

unfoldable pub explained : ProbeResult → ProbeResult
explained r = record r { error = if str_eq r.error "" then "connection test failed" else r.error }

-- The orders of the two sorts, over the order of texts.
unfoldable pub by_latency : (String → String → Bool) → ProbeResult → ProbeResult → Bool
by_latency before a b =
    if a.latency_ms == b.latency_ms
    then before a.outbound_id b.outbound_id
    else ltb a.latency_ms b.latency_ms

abbrev pub by_id : (String → String → Bool) → ProbeResult → ProbeResult → Bool
by_id before a b = before a.outbound_id b.outbound_id

pub record Failover : Type 0 where
  pub source_type : String
  pub candidates : List ProbeResult
  pub rejected : List ProbeResult

module _ (before : String → String → Bool)
    (sort : (ProbeResult → ProbeResult → Bool) → List ProbeResult → List ProbeResult)
    (order : List Outbound → List Outbound) where
  -- sameChannelFailoverPool, of an active outbound that is there.
  unfoldable pub failover_pool :
      String → String → List Outbound → String → List Outbound × List ProbeResult
  failover_pool active_id core_id outbounds source_type =
      let others = select (is_other active_id source_type) outbounds in
      (
        select (is_eligible core_id) others,
        sort (by_id before) (
            map (rejection core_id source_type) (select (λ o. not (is_eligible core_id o)) others)),
      )

  -- probeFailoverCandidates
  unfoldable pub probe_failover_candidates :
      (Outbound → Probe) → String → List Outbound → List ProbeResult × List ProbeResult
  probe_failover_candidates probe source_type pool =
      let results = map (probe_result probe source_type) (order pool) in
      (
        sort (by_latency before) (select (λ (r : ProbeResult). r.reachable) results),
        sort (by_id before) (map explained (select (λ (r : ProbeResult). not r.reachable) results)),
      )

  -- handleOutboundFailoverCandidates of an active outbound; `none` if it is not found.
  unfoldable pub failover_candidates :
      (Outbound → Probe) → String → String → List Outbound → Option Failover
  failover_candidates probe active_id core_id outbounds = elim (find_outbound active_id outbounds) [
    | none ↦ none
    | some active ↦
        let source_type = outbound_source_type active in
        let (pool, refused) = failover_pool active_id core_id outbounds source_type in
        let (reachable, failed) = probe_failover_candidates probe source_type pool in
        some (record {
          source_type = source_type;
          candidates = reachable;
          rejected = sort (by_id before) (refused ++ failed);
        })
  ]
