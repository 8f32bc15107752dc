-- ===== src/Network/Deactivate.antt =====
-- Recover and Deactivate of internal/network/manager.go, with their sweep of orphaned firewall rules.
use navo.Base.{◌≡◌, ◌≢◌, inl, inr, none, [], str_eq, arith, Bool-cases, Option-cases}
use navo.Base.Text.{trim_space}
use navo.Network.Journal.{Identity, firewall_rule, Disk, absent, Checks}
use navo.Network.Manager.{Config, Host, Run}
use navo.Network.Recovery.{recover_locked, cleanup_orphaned_firewall_rules, recover_network_state}
use navo.Network.Coverage.{IsHost, Same, Covers, CoversDisk, IsCovered, Holds}
use navo.Network.Restore.{IsRestored, recover_locked-IsSettled}
use navo.Network.Applying.{Output-cases}
use navo.Network.Session.{fresh, restart}

module _ {E : Type 0} (Present : Identity → E → Type 0) (host : Host E) (laws : IsHost Present host)
    (checks : Checks) where
  -- The journal is gone and the same resources are there as before.
  abbrev pub IsAsBefore : E → Run E → Type 0
  IsAsBefore e run = (run.disk ≡ absent) × Same Present e run.env

  -- The journal is gone, nothing is there that was not before, and of the rest only firewall rules are gone.
  abbrev pub IsSwept : E → Run E → Type 0
  IsSwept e run =
      (run.disk ≡ absent)
      × ((r : Identity) → Present r run.env → Present r e)
      × ((r : Identity) → r.kind ≢ firewall_rule → Present r e → Present r run.env)

  pub restored-IsAsBefore :
      (e : E) (run : Run E) → IsRestored Present (λ r. Present r e) run → IsAsBefore e run
  restored-IsAsBefore e run s = (
    s.no_journal,
    λ r. (s.as_before.kept r, λ p. elim (s.as_before.owned r p) [ inl b ↦ b | inr o ↦ elim o [ ] ]),
  )

  pub fresh-Holds : (e : E) → Holds Present (λ r. Present r e) [] (fresh e)
  fresh-Holds e =
      let empty : Covers Present (λ r. Present r e) [] e = record {
        kept = λ r p. p;
        owned = λ r p. inl p;
        foreign = λ r o. elim o [ ];
      } in
      record { covered = record { now = empty; before = (empty, tt) }; memory = empty }

  pub restart-IsCovered :
      (e : E) (m : Disk × E)
      → CoversDisk Present (λ r. Present r e) m.0 m.1
      → IsCovered Present (λ r. Present r e) (restart m)
  restart-IsCovered e m c = record { now = c; before = (c, tt) }

  cleanup-IsSwept :
      (cfg : Config) (e : E) (run : Run E)
      → IsAsBefore e run
      → (cleanup_orphaned_firewall_rules host checks cfg run).1 ≡ none
      → IsSwept e (cleanup_orphaned_firewall_rules host checks cfg run).0
  unfolding cleanup_orphaned_firewall_rules
  cleanup-IsSwept cfg e run (gone, same) ok =
      let scan = host.scan_orphans run.env in
      let e' = scan.0 in
      let scanned = laws.scans run.env in
      elim (Output-cases scan.1) [
        | inr (cause, error) ↦ absurd (ground (arith, error))
        | inl (text, printed) ↦ elim (Bool-cases (str_eq (trim_space text) "CLEAN")) [
          | inl clean ↦
              rw (cleanup_orphaned_firewall_rules, printed, clean)
                (gone, λ r p. (same r).1 ((scanned r).1 p), λ r k p. (scanned r).0 ((same r).0 p))
          | inr dirty ↦ elim (Bool-cases (str_eq (trim_space text) "ORPHANED")) [
            | inl orphaned ↦
                rw (cleanup_orphaned_firewall_rules, printed, dirty, orphaned)
                  (
                    gone,
                    λ r p. (same r).1 ((scanned r).1 (laws.sweeping_adds_none r e' p)),
                    λ r k p. laws.sweeping_keeps r e' k ((scanned r).0 ((same r).0 p)),
                  )
            | inr other ↦ absurd (ground (arith, printed, dirty, other))
          ]
        ]
      ]

  pub recover_network_state-IsSwept :
      (cfg : Config) (e : E) (run : Run E)
      → IsCovered Present (λ r. Present r e) run
      → (recover_network_state host checks cfg run).1 ≡ none
      → IsSwept e (recover_network_state host checks cfg run).0
  unfolding recover_network_state
  recover_network_state-IsSwept cfg e run c ok =
      let settled =
        recover_locked-IsSettled Present (λ r. Present r e) host laws checks cfg run c in
      let recovered = recover_locked host checks cfg run in
      let swept = cleanup_orphaned_firewall_rules host checks cfg recovered.0 in
      elim (Option-cases recovered.1) [
        | inr (cause, error) ↦ absurd (ground (arith, error))
        | inl fine ↦ elim (Option-cases swept.1) [
          | inr (cause, error) ↦ absurd (ground (arith, fine, error))
          | inl clean ↦
              rw (recover_network_state, fine, clean)
                (cleanup-IsSwept cfg e recovered.0
                  (restored-IsAsBefore e recovered.0 (settled.restored fine)) clean)
        ]
      ]
