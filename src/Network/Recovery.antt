-- ===== src/Network/Recovery.antt =====
-- internal/network/manager.go: undoing what a journal lists, and the recovery of an interrupted session.
use mathlib.Core.List.{reverse}
use navo.Base.{
  String, Bool, true, false, not, Option, none, some, List, [], ◌∷◌, ◌++◌, str_eq, ◌==◌,
  if◌then◌else◌, ◌>>=◌,
}
use navo.Base.Int.{pos}
use navo.Base.Text.{concat, trim_space}
use navo.Network.Journal.{
  Identity, JournalAction, Journal, absent, unreadable, holds, Checks, split_route, nrpt_rule,
  firewall_rule, no_identity, validate_journal_resource, validate_recovery_journal,
}
use navo.Network.Manager.{Config, Host, Run, Cause, prints, fails, reaches, write_journal}

-- migrateV1's resource for a name, `none` for one that it refuses.
unfoldable pub legacy_identity : Config → Journal → String → Option Identity
legacy_identity cfg j name =
    let route = λ (prefix : String). record (no_identity split_route) {
      destination_prefix = prefix;
      address_family = "IPv4";
      interface_alias = j.adapter_name;
      next_hop = cfg.tun_ipv4_peer;
      route_metric = pos 1;
    } in
    if str_eq name "IPv4 route 0.0.0.0/1"
    then some (route "0.0.0.0/1")
    else if str_eq name "IPv4 route 128.0.0.0/1"
    then some (route "128.0.0.0/1")
    else if str_eq name "DNS leak protection"
    then some (record (no_identity nrpt_rule) {
      nrpt_namespace = ".";
      nrpt_comment = concat ("Navo:TUN:" ∷ j.session_id ∷ []);
      name_servers = cfg.tun_dns_ipv4 ∷ [];
    })
    else if str_eq name "IPv6 leak protection"
    then some (record (no_identity firewall_rule) {
      firewall_display_name = concat ("Navo TUN IPv6 Block " ∷ j.session_id ∷ []);
    })
    else none

unfoldable pub legacy_actions : Config → Journal → List JournalAction → Option (List JournalAction)
legacy_actions cfg j [] = some []
legacy_actions cfg j (a ∷ actions) = do
  r ← legacy_identity cfg j a.name
  rest ← legacy_actions cfg j actions
  some (record a { resource = record { identity = r; created_by_navo = true } } ∷ rest)

module _ {E : Type 0} (host : Host E) (checks : Checks) (cfg : Config) where
  -- safeUndoForResource, and the run of its command.
  unfoldable pub undo_resource : Identity → Run E → Run E × Option Cause
  undo_resource r run =
      let (env, error) = host.undo r run.env in
      if validate_journal_resource checks r
      then (reaches env run.disk run, error)
      else (run, some none)

  -- The undoing of one action, if Navo has made its resource.
  unfoldable pub undo_action : JournalAction → Run E → Run E × Option Cause
  undo_action a run =
      if a.resource.created_by_navo then undo_resource a.resource.identity run else (run, none)

  -- The loop of rollbackLocked, from the last action to the first: `left` are those before the index, the
  -- nearest first, and `kept` those after it that could not be undone. The flag is `rollbackErr != nil`.
  unfoldable pub undo_all :
      Journal
      → List JournalAction
      → List JournalAction
      → Bool
      → Run E
      → Run E × List JournalAction × Bool
  undo_all j [] kept failed run = (run, kept, failed)
  undo_all j (a ∷ left) kept failed run =
      let undone = undo_action a run in
      let actions = reverse left ++ kept in
      let saved = write_journal host cfg.journal_path (record j { actions = actions }) undone.0 in
      elim undone.1 [
        | some cause ↦ undo_all j left (a ∷ kept) true undone.0
        | none ↦ elim actions [
          | [] ↦ undo_all j left kept failed undone.0
          | b ∷ rest ↦ elim saved.1 [
            | some cause ↦ (saved.0, b ∷ rest, true)
            | none ↦ undo_all j left kept failed saved.0
          ]
        ]
      ]

  -- os.Remove, where a missing file is no error.
  unfoldable pub remove_journal : Run E → Run E × Option Cause
  remove_journal run =
      let (env, error) = host.remove run.env in
      elim error [
        | none ↦ (reaches env absent run, none)
        | some cause ↦ (reaches env run.disk run, some cause)
      ]

  unfoldable pub rollback_locked : Journal → Run E → Run E × Option Cause
  rollback_locked j run =
      let (undone, kept, failed) = undo_all j (reverse j.actions) [] false run in
      if not (validate_recovery_journal checks j)
      then (run, some none)
      else if failed
      then (undone, some none)
      else remove_journal undone

  -- rollbackAfterFailure
  unfoldable pub rollback_after_failure : Journal → Run E → Run E × Option Cause
  rollback_after_failure j run =
      let (undone, error) = rollback_locked j run in
      elim error [
        | none ↦ (undone, none)
        | some cause ↦ (undone, some (some "TUN_ROLLBACK_FAILED"))
      ]

  unfoldable pub migrate_v1 : Journal → Run E → Run E × Option Journal
  migrate_v1 j run = elim (legacy_actions cfg j j.actions) [
    | none ↦ (run, none)
    | some actions ↦
        let migrated = record j { version = 2; actions = actions } in
        let (saved, error) = write_journal host cfg.journal_path migrated run in
        elim error [ none ↦ (saved, some migrated) | some cause ↦ (saved, none) ]
  ]

  unfoldable pub recover_locked : Run E → Run E × Option Cause
  recover_locked run = elim run.disk [
    | absent ↦ (run, none)
    | unreadable ↦ (run, some none)
    | holds j ↦
        let (migrated, value) = migrate_v1 j run in
        if j.version == 1
        then elim value [
          | none ↦ (migrated, some none)
          | some j2 ↦ rollback_after_failure j2 migrated
        ]
        else if j.version == 2
        then rollback_after_failure j run
        else (run, some none)
  ]

  -- cleanupOrphanedFirewallRules
  unfoldable pub cleanup_orphaned_firewall_rules : Run E → Run E × Option Cause
  cleanup_orphaned_firewall_rules run =
      let (env, output) = host.scan_orphans run.env in
      let scanned = reaches env run.disk run in
      let (swept, error) = host.remove_orphans env in
      elim output [
        | fails cause ↦ (scanned, some cause)
        | prints text ↦
            if str_eq (trim_space text) "CLEAN"
            then (scanned, none)
            else if str_eq (trim_space text) "ORPHANED"
            then (reaches swept run.disk scanned, error)
            else (scanned, some none)
      ]

  unfoldable pub recover_network_state : Run E → Run E × Option Cause
  recover_network_state run =
      let (recovered, error) = recover_locked run in
      let (swept, dirty) = cleanup_orphaned_firewall_rules recovered in
      elim error [
        | some cause ↦ (recovered, some cause)
        | none ↦ elim dirty [
          | none ↦ (swept, none)
          | some cause ↦ (swept, some (some "TUN_RECOVERY_DIRTY"))
        ]
      ]
