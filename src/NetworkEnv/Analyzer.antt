-- ===== src/NetworkEnv/Analyzer.antt =====
-- internal/networkenv/analyzer.go: the findings of a snapshot, as they are added.
use navo.Base.{
  ◌+◌, String, Bool, true, false, not, ◌&&◌, ◌||◌, List, [], ◌∷◌, ◌++◌, str_eq, ◌==◌, if◌then◌else◌,
  is_empty_list,
}
use navo.Base.Text.{codes, to_lower, same_codes, concat}
use navo.Base.Int.{ℤ, pos, pos_part, neg_part, ltb_ℤ}
use navo.NetworkEnv.Model.{
  Snapshot, Finding, Severity, info, warning, error, Ownership, owner_none, owner_navo,
  owner_external, owner_unknown, other_owner, TransitionSnapshot, ResourceSnapshot,
  snapshot_version,
}

-- `seen` lists the keys of the map.
pub record AnalyzerState : Type 0 where
  pub snapshot : Snapshot
  pub seen : List String

unfoldable pub has_seen : String → List String → Bool
has_seen code [] = false
has_seen code (c ∷ seen) = str_eq c code || has_seen code seen

abbrev pub lowers_to : String → String → Bool
lowers_to text word = same_codes (to_lower text) (codes word)

-- AnalyzerState.transitional
unfoldable pub transitional : AnalyzerState → Bool
unfolding to_lower same_codes
transitional a =
    let t = a.snapshot.transition in
    if not t.busy
    then false
    else if lowers_to t.phase "applying"
        || lowers_to t.phase "committing"
        || lowers_to t.phase "rolling_back"
    then true
    else lowers_to t.operation "recovery" || lowers_to t.operation "self_heal"

-- analyzerTransition
unfoldable pub analyzer_transition : TransitionSnapshot → Bool
unfolding to_lower same_codes
analyzer_transition t =
    lowers_to t.phase "applying"
    || lowers_to t.phase "committing"
    || lowers_to t.phase "rolling_back"
    || lowers_to t.operation "recovery"
    || lowers_to t.operation "self_heal"

abbrev pub is_error : Severity → Bool
is_error error = true
is_error _ = false

-- What add makes of a finding while a transition runs.
unfoldable pub adjusted : Bool → Finding → Finding
adjusted moving finding =
    if moving && (finding.recoverable || is_error finding.severity)
    then record finding { transitional = true; recoverable = false }
    else finding

unfoldable pub add : Finding → AnalyzerState → AnalyzerState
unfolding has_seen adjusted transitional
add finding a = if has_seen finding.code a.seen then a else record {
  snapshot = record a.snapshot {
    findings = a.snapshot.findings ++ adjusted (transitional a) finding ∷ [];
  };
  seen = a.seen ++ finding.code ∷ [];
}

-- `if c { a.add(finding) }`
unfoldable pub add_if : Bool → Finding → AnalyzerState → AnalyzerState
unfolding add
add_if c finding a = if c then add finding a else a

-- A composite literal with its Transitional left out.
abbrev found : String → Severity → String → String → String → Ownership → Bool → Finding
found code severity domain summary detail ownership recoverable = record {
  code = code;
  severity = severity;
  domain = domain;
  summary = summary;
  detail = detail;
  ownership = ownership;
  recoverable = recoverable;
  transitional = false;
}

abbrev pub physical_down : String
physical_down = "ENV_PHYSICAL_NETWORK_UNAVAILABLE"

unfoldable pub analyze_physical : AnalyzerState → AnalyzerState
analyze_physical a =
    let physical = a.snapshot.physical in
    add_if (physical.known && not physical.available)
      (found physical_down error "physical_network" "物理网络不可用" physical.last_error owner_none false)
      a

-- Whether `mode` was committed, or was wanted when the capture failed.
abbrev is_wanted : String → Snapshot → Bool
is_wanted mode s =
    str_eq s.capture.committed_mode mode
    || str_eq s.capture.state "faulted" && str_eq s.capture.desired_mode mode

unfoldable pub analyze_system_proxy : AnalyzerState → AnalyzerState
analyze_system_proxy a =
    let proxy = a.snapshot.system_proxy in
    let expected = is_wanted "system_proxy" a.snapshot in
    let stale_navo : String = "ENV_SYSTEM_PROXY_STALE_NAVO" in
    let taken_over =
      found stale_navo error "system_proxy" "System Proxy 已由外部配置接管" "Navo 不会覆盖当前外部代理设置"
        owner_external false in
    let foreign =
      found "ENV_SYSTEM_PROXY_EXTERNAL" info "system_proxy" "检测到外部 System Proxy" proxy.proxy_server
        owner_external false in
    let lost =
      found stale_navo error "system_proxy" "Navo System Proxy 状态不一致"
        "当前 WinINet 状态与 Navo ownership 不匹配" owner_navo true in
    let unreachable =
      found "ENV_SYSTEM_PROXY_ENDPOINT_UNREACHABLE" error "system_proxy" "Navo 本地代理端点不可达"
        proxy.proxy_server owner_navo true in
    let a1 =
      add_if (proxy.enabled && not proxy.owned_by_navo)
        (if proxy.ownership_marker || proxy.ownership_lost || expected then taken_over else foreign)
        a in
    let a2 = add_if (not proxy.enabled && (proxy.ownership_marker || expected)) lost a1 in
    add_if (proxy.owned_by_navo && proxy.reachable_known && not proxy.reachable) unreachable a2

abbrev pub is_navo : Ownership → Bool
is_navo owner_navo = true
is_navo _ = false

-- The empty text becomes "unknown".
unfoldable pub or_unsure : Ownership → Ownership
or_unsure (other_owner name) = if str_eq name "" then owner_unknown else other_owner name
or_unsure o = o

unfoldable pub analyze_tun : AnalyzerState → AnalyzerState
unfolding or_unsure
analyze_tun a =
    let tun = a.snapshot.tun in
    let foreign =
      found "ENV_EXTERNAL_TUN_PRESENT" info "tun" "检测到外部虚拟网卡" "Navo 不会修改或禁用外部虚拟网卡" owner_external
        false in
    let missing =
      found "ENV_NAVO_TUN_MISSING" error "tun" "Navo TUN 网卡缺失" tun.navo_adapter.last_error
        owner_navo true in
    let disabled =
      found "ENV_NAVO_TUN_DISABLED" error "tun" "Navo TUN 网卡未启用" tun.navo_adapter.last_error
        (or_unsure tun.navo_adapter.ownership) (is_navo tun.navo_adapter.ownership) in
    let a1 = add_if tun.external_present foreign a in
    if not tun.expected
    then a1
    else if not tun.navo_adapter.present
    then add missing a1
    else add_if (not tun.navo_adapter.enabled) disabled a1

abbrev is_zero : ℤ → Bool
is_zero n = pos_part n + neg_part n == 0

abbrev is_positive : ℤ → Bool
is_positive n = ltb_ℤ (pos 0) n

unfoldable pub resource_finding :
    String → String → String → ResourceSnapshot → AnalyzerState → AnalyzerState
resource_finding code domain summary resource a =
    let recoverable = is_positive resource.owned_count && is_zero resource.conflict_count in
    let ownership =
      if is_positive resource.conflict_count || is_zero resource.owned_count
      then owner_unknown
      else owner_navo in
    add_if (resource.known && not resource.coherent)
      (found code error domain summary resource.last_error ownership recoverable) a

unfoldable pub analyze_owned_resources : AnalyzerState → AnalyzerState
analyze_owned_resources a =
    let s = a.snapshot in
    let journal = s.journal in
    let owned = is_positive journal.owned_resources in
    let clean = is_zero journal.conflicting_resources in
    let pending =
      found "ENV_NETWORK_JOURNAL_PENDING" error "route" "Navo 网络事务尚未完整恢复" journal.last_error
        (if owned && clean then owner_navo else owner_unknown) (owned && clean) in
    let residual =
      found "ENV_NAVO_ROUTE_RESIDUAL" error "route" "检测到 Navo 网络残留"
        "TUN 已停止，但 V2 Journal 仍记录 Navo-owned 资源" (if clean then owner_navo else owner_unknown)
        clean in
    let a1 = add_if (journal.dirty || is_positive journal.pending_actions) pending a in
    let a2 =
      add_if (journal.present && owned && not (str_eq s.capture.committed_mode "tun")) residual
        a1 in
    let a3 = resource_finding "ENV_NAVO_ROUTE_RESIDUAL" "route" "Navo 路由状态不一致" s.routes a2 in
    let a4 = resource_finding "ENV_NAVO_DNS_INCONSISTENT" "dns" "Navo DNS 状态不一致" s.dns a3 in
    let a5 = resource_finding "ENV_NAVO_NRPT_INCONSISTENT" "nrpt" "Navo NRPT 状态不一致" s.nrpt a4 in
    resource_finding "ENV_NAVO_FIREWALL_INCONSISTENT" "firewall" "Navo 防火墙状态不一致" s.firewall a5

unfoldable pub analyze_capture : AnalyzerState → AnalyzerState
analyze_capture a =
    let capture = a.snapshot.capture in
    add_if
      (not (str_eq capture.committed_mode "off" || not (str_eq capture.readiness_state "failed")))
      (found "ENV_CAPTURE_DATAPLANE_FAILED" error "node" "Navo 数据面验证失败" capture.readiness_error
        owner_navo true)
      a

-- strings.Join
unfoldable pub join : String → List String → List String
join separator [] = []
join separator (s ∷ []) = s ∷ []
join separator (s ∷ t ∷ rest) = s ∷ separator ∷ join separator (t ∷ rest)

unfoldable pub analyze_partial : AnalyzerState → AnalyzerState
unfolding join concat
analyze_partial a =
    let s = a.snapshot in
    let partial =
      not (str_eq s.system_proxy.last_error "")
      || not (str_eq s.physical.last_error "")
      || not (is_empty_list s.observation_errors)
      || s.partial in
    add_if partial
      (found "ENV_OBSERVATION_PARTIAL" warning "detection" "部分网络状态暂时无法读取"
        (concat (join "; " s.observation_errors)) owner_unknown false)
      (record a { snapshot = record s { partial = partial } })

-- The head of Analyze.
unfoldable pub prepared : Snapshot → Snapshot
prepared s = record s {
  version = if s.version == 0 then snapshot_version else s.version;
  findings = [];
  tun = record s.tun { expected = s.tun.expected || is_wanted "tun" s };
}

-- The facts looked through one after the other.
unfoldable pub collected : Snapshot → AnalyzerState
collected s =
    let a0 : AnalyzerState = record { snapshot = prepared s; seen = [] } in
    analyze_partial (
      analyze_capture
        (analyze_owned_resources (analyze_tun (analyze_system_proxy (analyze_physical a0)))))
