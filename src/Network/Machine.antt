-- ===== src/Network/Machine.antt =====
-- A machine that keeps the laws of IsHost: the list of its resources. It cannot make firewall rules if told so.
use navo.Base.{
  ◌≡◌, ◌≢◌, ◌⊎◌, ◌↔◌, inl, inr, sym, subst, ◌∙◌, Bool, true, false, if◌then◌else◌, none, some, List,
  [], ◌∷◌, String, str_eq, eq_iff, arith, Bool-cases, ◌==◌, ==_iff, ◌&&◌,
}
use navo.Base.Int.{ℤ, pos, negsuc}
use navo.Base.Text.{trim_space}
use navo.Network.Journal.{
  Identity, ResourceKind, endpoint_route, split_route, nrpt_rule, firewall_rule, other_kind,
}
use navo.Network.Manager.{Host, prints}
use navo.Network.Coverage.{IsHost}

abbrev same_kind : ResourceKind → ResourceKind → Bool
same_kind endpoint_route endpoint_route = true
same_kind split_route split_route = true
same_kind nrpt_rule nrpt_rule = true
same_kind firewall_rule firewall_rule = true
same_kind (other_kind s) (other_kind t) = str_eq s t
same_kind _ _ = false

same_kind_iff : (a b : ResourceKind) → (same_kind a b ≡ true) ↔ (a ≡ b)
same_kind_iff (other_kind s) (other_kind t) = ground (arith, eq_iff s t)
same_kind_iff a b = ground (arith)

abbrev same_int : ℤ → ℤ → Bool
same_int (pos m) (pos n) = m == n
same_int (negsuc m) (negsuc n) = m == n
same_int _ _ = false

same_int_iff : (a b : ℤ) → (same_int a b ≡ true) ↔ (a ≡ b)
same_int_iff a b = ground (arith)

abbrev same_list : List String → List String → Bool
same_list [] [] = true
same_list (s ∷ ss) (t ∷ ts) = str_eq s t && same_list ss ts
same_list _ _ = false

same_list_iff : (a b : List String) → (same_list a b ≡ true) ↔ (a ≡ b)
same_list_iff (s ∷ ss) (t ∷ ts) = ground (arith, eq_iff s t, same_list_iff ss ts)
same_list_iff a b = ground (arith)

unfoldable pub same : Identity → Identity → Bool
same r s =
    same_kind r.kind s.kind
    && str_eq r.destination_prefix s.destination_prefix
    && str_eq r.address_family s.address_family
    && r.interface_index == s.interface_index
    && str_eq r.interface_guid s.interface_guid
    && str_eq r.interface_alias s.interface_alias
    && str_eq r.next_hop s.next_hop
    && same_int r.route_metric s.route_metric
    && str_eq r.nrpt_namespace s.nrpt_namespace
    && str_eq r.nrpt_comment s.nrpt_comment
    && same_list r.name_servers s.name_servers
    && str_eq r.firewall_display_name s.firewall_display_name

fields :
    (r s : Identity)
    → same r s ≡ true
    → (r.kind ≡ s.kind)
      × (r.destination_prefix ≡ s.destination_prefix)
      × (r.address_family ≡ s.address_family)
      × (r.interface_index ≡ s.interface_index)
      × (r.interface_guid ≡ s.interface_guid)
      × (r.interface_alias ≡ s.interface_alias)
      × (r.next_hop ≡ s.next_hop)
      × (r.route_metric ≡ s.route_metric)
      × (r.nrpt_namespace ≡ s.nrpt_namespace)
      × (r.nrpt_comment ≡ s.nrpt_comment)
      × (r.name_servers ≡ s.name_servers)
      × (r.firewall_display_name ≡ s.firewall_display_name)
unfolding same
fields r s h = ground (
  arith,
  same_kind_iff r.kind s.kind,
  eq_iff r.destination_prefix s.destination_prefix,
  eq_iff r.address_family s.address_family,
  ==_iff r.interface_index s.interface_index,
  eq_iff r.interface_guid s.interface_guid,
  eq_iff r.interface_alias s.interface_alias,
  eq_iff r.next_hop s.next_hop,
  same_int_iff r.route_metric s.route_metric,
  eq_iff r.nrpt_namespace s.nrpt_namespace,
  eq_iff r.nrpt_comment s.nrpt_comment,
  same_list_iff r.name_servers s.name_servers,
  eq_iff r.firewall_display_name s.firewall_display_name,
)

same_self : (r : Identity) → same r r ≡ true
unfolding same
same_self r = ground (
  arith,
  same_kind_iff r.kind r.kind,
  eq_iff r.destination_prefix r.destination_prefix,
  eq_iff r.address_family r.address_family,
  ==_iff r.interface_index r.interface_index,
  eq_iff r.interface_guid r.interface_guid,
  eq_iff r.interface_alias r.interface_alias,
  eq_iff r.next_hop r.next_hop,
  same_int_iff r.route_metric r.route_metric,
  eq_iff r.nrpt_namespace r.nrpt_namespace,
  eq_iff r.nrpt_comment r.nrpt_comment,
  same_list_iff r.name_servers r.name_servers,
  eq_iff r.firewall_display_name r.firewall_display_name,
)

same_iff : (r s : Identity) → (same r s ≡ true) ↔ (r ≡ s)
same_iff r s = (
  λ h.
      (let (p0, p1, p2, p3, p4, p5, p6, p7, p8, p9, p10, p11) = fields r s h in
        λ i. record {
          kind = p0 i;
          destination_prefix = p1 i;
          address_family = p2 i;
          interface_index = p3 i;
          interface_guid = p4 i;
          interface_alias = p5 i;
          next_hop = p6 i;
          route_metric = p7 i;
          nrpt_namespace = p8 i;
          nrpt_comment = p9 i;
          name_servers = p10 i;
          firewall_display_name = p11 i;
        }),
  λ e. subst (λ t. same r t ≡ true) e (same_self r),
)

unfoldable pub has : Identity → List Identity → Bool
has r [] = false
has r (s ∷ e) = if same r s then true else has r e

unfoldable pub without : Identity → List Identity → List Identity
without r [] = []
without r (s ∷ e) = let rest = without r e in if same r s then rest else s ∷ rest

abbrev pub Present : Identity → List Identity → Type 0
Present r e = has r e ≡ true

pub has-added : (r s : Identity) (e : List Identity) → Present s (r ∷ e) → Present s e ⊎ (s ≡ r)
unfolding has
has-added r s e p = ground (arith, same_iff s r)

pub added-has : (r s : Identity) (e : List Identity) → Present s e → Present s (r ∷ e)
unfolding has
added-has r s e p = ground (arith)

pub has-without : (r s : Identity) (e : List Identity) → Present s (without r e) → Present s e
unfolding has without
has-without r s [] p = p
has-without r s (t ∷ e) p = ground (arith, has-without r s e)

pub without-has :
    (r s : Identity) (e : List Identity) → s ≢ r → Present s e → Present s (without r e)
unfolding has without
without-has r s [] n p = p
without-has r s (t ∷ e) n p = ground (
  arith,
  without-has r s e n,
  same_iff s t,
  same_iff r t,
  λ (a : s ≡ t) (b : r ≡ t). n (a ∙ sym b),
)

pub without-gone : (r : Identity) (e : List Identity) → ¬ Present r (without r e)
unfolding has without
without-gone r [] p = absurd (ground arith)
without-gone r (t ∷ e) p = ground (arith, without-gone r e)

-- `broken` says which resources cannot be made.
abbrev pub machine : (Identity → Bool) → Host (List Identity)
machine broken = record {
  inspect = λ r e. (e, prints (if has r e then "EXACT" else "MISSING"));
  apply = λ r e. if broken r then (e, some none) else (r ∷ e, none);
  undo = λ r e. (without r e, none);
  scan_orphans = λ e. (e, prints "CLEAN");
  remove_orphans = λ e. (e, none);
  write = λ e. (e, none);
  remove = λ e. (e, none);
  wait_for_adapter =
      λ plan e. (e, none, record { name = "navo-tun"; interface_index = 9; interface_guid = "" });
  verify_control_plane = λ plan adapter e. (e, none);
}

prints-injective : (s t : String) → prints s ≡ prints t → s ≡ t
prints-injective s t e = cc

not_told : (text : String) → text ≡ "EXACT" → ¬ str_eq (trim_space text) "MISSING" ≡ true
unfolding trim_space
not_told text e told =
    absurd (ground (arith, subst (λ t. str_eq (trim_space t) "MISSING" ≡ true) e told))

pub machine-IsHost : (broken : Identity → Bool) → IsHost Present (machine broken)
machine-IsHost broken = record {
  inspects = λ r e s. (λ p. p, λ p. p);
  tells_missing = λ r e text printed told p.
      not_told text
        (prints-injective text "EXACT"
          (sym (subst (λ b. prints (if b then "EXACT" else "MISSING") ≡ prints text) p printed)))
        told;
  applying_keeps =
      λ r s e p. elim (Bool-cases (broken r)) [ inl b ↦ rw b p | inr b ↦ rw b (added-has r s e p) ];
  applying_adds = λ r s e. elim (Bool-cases (broken r)) [
    | inl b ↦ rw b (λ p. inl p)
    | inr b ↦ rw b (λ p. has-added r s e p)
  ];
  undoing_adds_none = λ r s e p. has-without r s e p;
  undoing_keeps = λ r s e n p. without-has r s e n p;
  undoing_removes = λ r e ok. without-gone r e;
  writes = λ e s. (λ p. p, λ p. p);
  removes = λ e s. (λ p. p, λ p. p);
  scans = λ e s. (λ p. p, λ p. p);
  sweeping_adds_none = λ r e p. p;
  sweeping_keeps = λ r e k p. p;
  waits = λ plan e s. (λ p. p, λ p. p);
  verifies = λ plan adapter e s. (λ p. p, λ p. p);
}
