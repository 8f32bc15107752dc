-- ===== src/Service/Failover/Examples.antt =====
-- internal/service/failover.go at three nodes of a subscription, of which one is disabled.
use navo.Base.{◌≡◌, refl, String, Bool, true, false, some, List, [], ◌∷◌, All, length, select}
use navo.Base.Text.{concat}
use navo.Service.Outbound.{Outbound, compatible, one_of, find_outbound, outbound_source_type}
use navo.Service.Failover.{
  ProbeResult, Probe, probed, Failover, failover_candidates, failover_pool,
  probe_failover_candidates, is_other, is_eligible, rejection, probe_result, probed_result,
  explained,
}
use navo.Service.Failover.Candidates.{
  IsShuffle, IsFrom, IsCandidate, failover_candidates-IsCandidate,
}

abbrev node : String → Bool → Outbound
node id enabled = record {
  id = id;
  name = id;
  kind = "vless";
  server = "example.org";
  port = 443;
  enabled = enabled;
  provider_id = "p";
  tls = true;
  sni = "";
}

abbrev nodes : List Outbound
nodes = node "a" true ∷ node "b" true ∷ node "c" false ∷ []

abbrev as_it_is : (ProbeResult → ProbeResult → Bool) → List ProbeResult → List ProbeResult
as_it_is lt xs = xs

abbrev in_turn : List Outbound → List Outbound
in_turn xs = xs

shuffles_nothing : {A : Type 0} → IsShuffle {A = A} (λ xs. xs)
shuffles_nothing = record { keeps = λ P xs h. h; counts = λ xs. refl }

abbrev answers : Outbound → Probe
answers o = probed true 40 ""

abbrev taken_over : Failover
taken_over = record {
  source_type = "airport_subscription";
  candidates =
      record {
        outbound_id = "b";
        source_type = "airport_subscription";
        latency_ms = 40;
        reachable = true;
        error = "";
      }
      ∷ [];
  rejected =
      record {
        outbound_id = "c";
        source_type = "airport_subscription";
        latency_ms = 0;
        reachable = false;
        error = "endpoint is disabled";
      }
      ∷ [];
}

takes_over :
    failover_candidates (λ s t. true) as_it_is in_turn answers "a" "sing-box" nodes
    ≡ some taken_over
unfolding failover_candidates failover_pool probe_failover_candidates is_other is_eligible rejection
    probe_result probed_result explained compatible one_of find_outbound outbound_source_type select
    concat
takes_over = refl

failover_candidates-IsCandidate_example :
    IsFrom "a" nodes "airport_subscription"
    × All (IsCandidate answers "a" "sing-box" "airport_subscription" nodes) taken_over.candidates
    × (2 ≡ length (select (is_other "a" "airport_subscription") nodes))
failover_candidates-IsCandidate_example =
    failover_candidates-IsCandidate (λ s t. true) as_it_is (λ lt. shuffles_nothing) in_turn
      shuffles_nothing answers "a" "sing-box" nodes taken_over takes_over
