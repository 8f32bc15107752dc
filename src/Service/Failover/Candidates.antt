-- ===== src/Service/Failover/Candidates.antt =====
-- internal/service/failover.go: what the candidates of a failover are.
use mathlib.Core.List.{◌++◌}
use navo.Base.{
  ◌+◌, ◌≡◌, ◌≢◌, ◌⊎◌, ◌↔◌, inl, inr, refl, ap, sym, str_eq, subst, String, Bool, true, not, some,
  List, [], ◌∷◌, map, select, eq_iff, All, All-map, length, length-append, arith, Option-cases,
  Bool-cases,
}
use navo.Service.Outbound.{Outbound, compatible, find_outbound, outbound_source_type}
use navo.Service.Failover.{
  ProbeResult, Probe, canceled, unavailable, missing, probed, probed_result, is_other, is_eligible,
  rejection, probe_result, explained, by_latency, by_id, Failover, failover_pool,
  probe_failover_candidates, failover_candidates,
}

-- Being one of the entries.
abbrev pub Among : {A : Type 0} → A → List A → Type 0
Among a [] = ⊥
Among a (x ∷ xs) = (a ≡ x) ⊎ Among a xs

-- What the program relies on in a sort, and in the order in which the probes finish: nothing is lost or made up.
pub record IsShuffle {A : Type 0} (f : List A → List A) : Type 1 where
  pub keeps : (P : A → Type 0) (xs : List A) → All P xs → All P (f xs)
  pub counts : (xs : List A) → length (f xs) ≡ length xs

module _ {A : Type 0} where
  All-Among : (xs : List A) → All (λ x. Among x xs) xs
  All-Among [] = tt
  All-Among (x ∷ xs) = (inl refl, All-map (λ y h. inr h) xs (All-Among xs))

  All-selected :
      (P : A → Type 0) (p : A → Bool) (xs : List A)
      → All P xs
      → All (λ x. P x × (p x ≡ true)) (select p xs)
  unfolding select
  All-selected P p [] h = tt
  All-selected P p (x ∷ xs) h = elim (Bool-cases (p x)) [
    | inl holds ↦ rw holds ((h.0, holds), All-selected P p xs h.1)
    | inr other ↦ rw other (All-selected P p xs h.1)
  ]

  length-split :
      (p : A → Bool) (xs : List A)
      → length (select p xs) + length (select (λ x. not (p x)) xs) ≡ length xs
  unfolding select
  length-split p [] = refl
  length-split p (x ∷ xs) = ground (arith, length-split p xs)

module _ {A B : Type 0} (f : A → B) where
  All-mapped : (Q : B → Type 0) (xs : List A) → All (λ x. Q (f x)) xs → All Q (map f xs)
  All-mapped Q [] h = tt
  All-mapped Q (x ∷ xs) h = (h.0, All-mapped Q xs h.1)

  length-mapped : (xs : List A) → length (map f xs) ≡ length xs
  length-mapped [] = refl
  length-mapped (x ∷ xs) = omega (arith, length-mapped xs)

-- A node that may take over: another enabled one of the same source that the core can run and that answered.
pub record IsCandidate (probe : Outbound → Probe) (active_id core_id source_type : String)
    (outbounds : List Outbound) (r : ProbeResult) : Type 0 where
  pub node : Outbound
  pub listed : Among node outbounds
  pub other : node.id ≢ active_id
  pub same_source : outbound_source_type node ≡ source_type
  pub enabled : node.enabled ≡ true
  pub runs : compatible core_id node ≡ true
  pub named : r.outbound_id ≡ node.id
  pub labelled : r.source_type ≡ source_type
  -- The latency is the one that was measured.
  pub measured : probe node ≡ probed true r.latency_ms r.error
  pub answered : r.reachable ≡ true

-- The node that a failover starts from, and the source of its own that the answer names.
abbrev pub IsFrom : String → List Outbound → String → Type 0
IsFrom active_id outbounds source_type =
    (active : Outbound) × Among active outbounds
    × (active.id ≡ active_id)
    × ((source_type ≡ "upstream_proxy") ↔ (active.provider_id ≡ "upstream_proxy"))
    × ((source_type ≡ "airport_subscription") ↔ (active.provider_id ≢ "upstream_proxy"))

source-facts :
    (o : Outbound)
    → ((outbound_source_type o ≡ "upstream_proxy") ↔ (o.provider_id ≡ "upstream_proxy"))
      × ((outbound_source_type o ≡ "airport_subscription") ↔ (o.provider_id ≢ "upstream_proxy"))
unfolding outbound_source_type
source-facts o = elim (Bool-cases (str_eq o.provider_id "upstream_proxy")) [
  | inl upstream ↦
      let at = (eq_iff o.provider_id "upstream_proxy").0 upstream in
      rw upstream (
        ((λ h. at), (λ h. refl)),
        (
          (λ h. absurd (ground (arith, h, eq_iff "upstream_proxy" "airport_subscription"))),
          (λ h. absurd (h at)),
        ),
      )
  | inr other ↦
      let away : o.provider_id ≢ "upstream_proxy" =
        λ h. ground (arith, other, (eq_iff o.provider_id "upstream_proxy").1 h) in
      rw other (
        (
          (λ h. absurd (ground (arith, h, eq_iff "airport_subscription" "upstream_proxy"))),
          (λ h. absurd (away h)),
        ),
        ((λ h. away), (λ h. refl)),
      )
]

found-facts :
    (active_id : String) (outbounds : List Outbound) (active : Outbound)
    → find_outbound active_id outbounds ≡ some active
    → Among active outbounds × (active.id ≡ active_id)
unfolding find_outbound
found-facts active_id [] active h = cc
found-facts active_id (o ∷ outbounds) active h = elim (Bool-cases (str_eq o.id active_id)) [
  | inl same ↦
      let it : o ≡ active = ground (arith, h, same) in
      (inl (sym it), subst (λ (x : Outbound). x.id ≡ active_id) it ((eq_iff o.id active_id).0 same))
  | inr other ↦
      let later = found-facts active_id outbounds active (ground (arith, h, other)) in
      (inr later.0, later.1)
]

-- A result that says that the node was reached has what the probe brought.
probe-facts :
    (source_type : String) (o : Outbound) (p : Probe)
    → (probed_result source_type o p).reachable ≡ true
    → let r = probed_result source_type o p in
      (r.outbound_id ≡ o.id)
      × (r.source_type ≡ source_type)
      × (p ≡ probed true r.latency_ms r.error)
unfolding probed_result
probe-facts source_type o (canceled text) h = absurd (ground (arith, h))
probe-facts source_type o unavailable h = absurd (ground (arith, h))
probe-facts source_type o missing h = absurd (ground (arith, h))
probe-facts source_type o (probed healthy latency text) h =
    (refl, refl, ap (λ up. probed up latency text) h)

reached-facts :
    (probe : Outbound → Probe) (source_type : String) (o : Outbound) (r : ProbeResult)
    → r ≡ probe_result probe source_type o
    → r.reachable ≡ true
    → (r.outbound_id ≡ o.id)
      × (r.source_type ≡ source_type)
      × (probe o ≡ probed true r.latency_ms r.error)
unfolding probe_result
reached-facts probe source_type o r same up =
    subst
      (λ (x : ProbeResult).
        (x.outbound_id ≡ o.id)
        × (x.source_type ≡ source_type)
        × (probe o ≡ probed true x.latency_ms x.error))
      (sym same)
      (probe-facts source_type o (probe o)
        (subst (λ (x : ProbeResult). x.reachable ≡ true) same up))

other-facts :
    (active_id source_type : String) (o : Outbound)
    → is_other active_id source_type o ≡ true
    → (o.id ≢ active_id) × (outbound_source_type o ≡ source_type)
unfolding is_other
other-facts active_id source_type o h = (
  λ same. ground (arith, eq_iff o.id active_id),
  ground (arith, eq_iff o.id active_id, eq_iff (outbound_source_type o) source_type),
)

eligible-facts :
    (core_id : String) (o : Outbound)
    → is_eligible core_id o ≡ true
    → (o.enabled ≡ true) × (compatible core_id o ≡ true)
unfolding is_eligible
eligible-facts core_id o h = ground arith

module _ (before : String → String → Bool)
    (sort : (ProbeResult → ProbeResult → Bool) → List ProbeResult → List ProbeResult)
    (sorts : (lt : ProbeResult → ProbeResult → Bool) → IsShuffle (sort lt))
    (order : List Outbound → List Outbound) (orders : IsShuffle order) (probe : Outbound → Probe)
    (active_id core_id : String) (outbounds : List Outbound) where
  candidate :
      (source_type : String) (r : ProbeResult)
      → ((o : Outbound) × (r ≡ probe_result probe source_type o)
          × ((Among o outbounds × (is_other active_id source_type o ≡ true))
              × (is_eligible core_id o ≡ true)))
        × (r.reachable ≡ true)
      → IsCandidate probe active_id core_id source_type outbounds r
  candidate source_type r h =
      let o = h.0.0 in
      let another = other-facts active_id source_type o h.0.2.0.1 in
      let able = eligible-facts core_id o h.0.2.1 in
      let brought = reached-facts probe source_type o r h.0.1 h.1 in
      record {
        node = o;
        listed = h.0.2.0.0;
        other = another.0;
        same_source = another.1;
        enabled = able.0;
        runs = able.1;
        named = brought.0;
        labelled = brought.1;
        measured = brought.2;
        answered = h.1;
      }

  reachable-IsCandidate :
      (source_type : String)
      → All
          (IsCandidate probe active_id core_id source_type outbounds)
          (probe_failover_candidates before sort order probe source_type
            (failover_pool before sort order active_id core_id outbounds source_type).0).0
  unfolding probe_failover_candidates failover_pool
  reachable-IsCandidate source_type =
      let others = select (is_other active_id source_type) outbounds in
      let pool = select (is_eligible core_id) others in
      (sorts (by_latency before)).keeps _ _ (
        All-map (λ r h. candidate source_type r h) _
          (All-selected
            (λ r.
              (o : Outbound) × (r ≡ probe_result probe source_type o)
              × ((Among o outbounds × (is_other active_id source_type o ≡ true))
                  × (is_eligible core_id o ≡ true)))
            (λ r. r.reachable) _
            (All-mapped (probe_result probe source_type) _ (order pool) (
              orders.keeps _ pool (
                All-map (λ o h. (o, refl, h)) pool
                  (All-selected _ (is_eligible core_id) others (
                    All-selected _ (is_other active_id source_type) outbounds
                      (All-Among outbounds))))))))

  -- What becomes of the other nodes of the source, in numbers.
  pool-counts :
      (source_type : String)
      → let pooled = failover_pool before sort order active_id core_id outbounds source_type in
        length pooled.0 + length pooled.1
        ≡ length (select (is_other active_id source_type) outbounds)
  unfolding failover_pool
  pool-counts source_type =
      let others = select (is_other active_id source_type) outbounds in
      let refused = select (λ o. not (is_eligible core_id o)) others in
      omega (
        arith,
        length-split (is_eligible core_id) others,
        (sorts (by_id before)).counts (map (rejection core_id source_type) refused),
        length-mapped (rejection core_id source_type) refused,
      )

  probe-counts :
      (source_type : String) (pool : List Outbound)
      → let ran = probe_failover_candidates before sort order probe source_type pool in
        length ran.0 + length ran.1 ≡ length pool
  unfolding probe_failover_candidates
  probe-counts source_type pool =
      let results = map (probe_result probe source_type) (order pool) in
      let up = select (λ (r : ProbeResult). r.reachable) results in
      let down = select (λ (r : ProbeResult). not r.reachable) results in
      omega (
        arith,
        length-split (λ (r : ProbeResult). r.reachable) results,
        length-mapped (probe_result probe source_type) (order pool),
        orders.counts pool,
        (sorts (by_latency before)).counts up,
        (sorts (by_id before)).counts (map explained down),
        length-mapped explained down,
      )

  abbrev answer : String → Failover
  answer source_type =
      let pooled = failover_pool before sort order active_id core_id outbounds source_type in
      let ran = probe_failover_candidates before sort order probe source_type pooled.0 in
      record {
        source_type = source_type;
        candidates = ran.0;
        rejected = sort (by_id before) (pooled.1 ++ ran.1);
      }

  -- A failover starts from a node with the active id and names its source: upstream proxies or a subscription. Its
  -- candidates are only nodes that may take over: other enabled nodes of that source that the core can run and that
  -- answered their probe, each with its id, the source and what its probe measured. None is lost: candidates and
  -- rejected ones are together as many as there are other nodes of that source. The sorts and the order of the
  -- probes are taken to lose nothing and to make nothing up.
  pub failover_candidates-IsCandidate :
      (result : Failover)
      → failover_candidates before sort order probe active_id core_id outbounds ≡ some result
      → IsFrom active_id outbounds result.source_type
        × All (IsCandidate probe active_id core_id result.source_type outbounds) result.candidates
        × (length result.candidates + length result.rejected
            ≡ length (select (is_other active_id result.source_type) outbounds))
  unfolding failover_candidates
  failover_candidates-IsCandidate result h =
      elim (Option-cases (find_outbound active_id outbounds)) [
        | inl nothing ↦ absurd (ground (arith, nothing, h))
        | inr (active, there) ↦
            let source_type = outbound_source_type active in
            let pooled = failover_pool before sort order active_id core_id outbounds source_type in
            let ran = probe_failover_candidates before sort order probe source_type pooled.0 in
            let found = found-facts active_id outbounds active there in
            let of_source = source-facts active in
            let same : answer source_type ≡ result = ground (arith, there, h) in
            subst
              (λ (f : Failover).
                IsFrom active_id outbounds f.source_type
                × All (IsCandidate probe active_id core_id f.source_type outbounds) f.candidates
                × (length f.candidates + length f.rejected
                    ≡ length (select (is_other active_id f.source_type) outbounds)))
              same
              (
                (active, found.0, found.1, of_source.0, of_source.1),
                reachable-IsCandidate source_type,
                omega (
                  arith,
                  pool-counts source_type,
                  probe-counts source_type pooled.0,
                  (sorts (by_id before)).counts (pooled.1 ++ ran.1),
                  length-append pooled.1 ran.1,
                ),
              )
      ]
