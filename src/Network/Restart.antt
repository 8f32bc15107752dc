-- ===== src/Network/Restart.antt =====
-- internal/network/manager.go: what a session leaves behind, wherever it is broken off.
use navo.Base.{
  ◌≡◌, ◌∙◌, inl, inr, refl, sym, subst, ap, true, false, not, if-either, none, str_eq, All, All-map,
  arith, Option-cases,
}
use navo.Network.Journal.{Identity, Disk, absent, unreadable, holds, Checks}
use navo.Network.Manager.{Config, Host, Run}
use navo.Network.Recovery.{recover_locked, recover_network_state}
use navo.Network.Activation.{
  Result, activated, refused, failed, TunError, settled, apply_plan, Manager, activate_locked,
  deactivate,
}
use navo.Network.Coverage.{IsHost, CoversDisk, IsCovered}
use navo.Network.Restore.{recover_locked-IsSettled}
use navo.Network.Session.{fresh, restart, apply_plan-IsEnded}
use navo.Network.Deactivate.{
  IsAsBefore, IsSwept, restored-IsAsBefore, fresh-Holds, restart-IsCovered,
  recover_network_state-IsSwept,
}

module _ {E : Type 0} (Present : Identity → E → Type 0) (host : Host E) (laws : IsHost Present host)
    (checks : Checks) where
  -- Wherever an activation that began with no journal is broken off, a restart whose recovery reports no error
  -- leaves no journal and the same resources as before the activation, on a host that keeps IsHost's laws.
  pub apply_plan-recover_locked :
      (cfg : Config) (e : E)
      → All
          (λ (m : Disk × E).
            (recover_locked host checks cfg (restart m)).1 ≡ none
            → IsAsBefore Present host laws checks e (recover_locked host checks cfg (restart m)).0)
          (apply_plan host checks cfg (fresh e)).0.trail
  apply_plan-recover_locked cfg e =
      All-map {P = λ (m : Disk × E). CoversDisk Present (λ r. Present r e) m.0 m.1}
        (λ m c ok.
          restored-IsAsBefore Present host laws checks e
            (recover_locked host checks cfg (restart m)).0
            ((recover_locked-IsSettled Present (λ r. Present r e) host laws checks cfg (restart m)
                (restart-IsCovered Present host laws checks e m c)).restored
              ok))
        (apply_plan host checks cfg (fresh e)).0.trail
        (apply_plan-IsEnded Present (λ r. Present r e) host laws checks cfg (fresh e)
          (fresh-Holds Present host laws checks e)).covered.before

  -- An activation that began with no journal and fails with the rollback status "complete" leaves no journal
  -- and the same resources as before it, on a host that keeps IsHost's laws.
  pub apply_plan-failed :
      (cfg : Config) (e : E) (error : TunError)
      → (apply_plan host checks cfg (fresh e)).1 ≡ failed error
      → error.rollback_status ≡ "complete"
      → IsAsBefore Present host laws checks e (apply_plan host checks cfg (fresh e)).0
  apply_plan-failed cfg e error broken complete =
      restored-IsAsBefore Present host laws checks e (apply_plan host checks cfg (fresh e)).0 (
        (apply_plan-IsEnded Present (λ r. Present r e) host laws checks cfg (fresh e)
            (fresh-Holds Present host laws checks e)).restored
          error broken complete)

  Disk-keeps :
      (e : E) (r : Identity) (m : Disk × E)
      → Present r e
      → CoversDisk Present (λ r. Present r e) m.0 m.1
      → Present r m.1
  Disk-keeps e r (absent, e') p c = c.kept r p
  Disk-keeps e r (unreadable, e') p c = elim c [ ]
  Disk-keeps e r (holds j, e') p c = c.1.kept r p

  -- At every moment of an activation that began with no journal, its rollback included, every resource that was
  -- there before it is still there, on a host that keeps IsHost's laws.
  pub apply_plan-keeps :
      (cfg : Config) (e : E) (r : Identity)
      → Present r e
      → All (λ (m : Disk × E). Present r m.1) (apply_plan host checks cfg (fresh e)).0.trail
  apply_plan-keeps cfg e r p =
      All-map {P = λ (m : Disk × E). CoversDisk Present (λ r. Present r e) m.0 m.1}
        (λ m c. Disk-keeps e r m p c) (apply_plan host checks cfg (fresh e)).0.trail
        (apply_plan-IsEnded Present (λ r. Present r e) host laws checks cfg (fresh e)
          (fresh-Holds Present host laws checks e)).covered.before

  settled-lem :
      (m : Manager) (result : Run E × Result)
      → ((settled m result).0.cfg ≡ m.cfg) × ((settled m result).1 ≡ result.0)
  settled-lem m (run, activated adapter) = (refl, refl)
  settled-lem m (run, refused cause) = (refl, refl)
  settled-lem m (run, failed error) = (refl, refl)

  -- The configuration stays, and the journal accounts for what was made since then.
  abbrev Accounted : Manager → E → Manager × Run E × Result → Type 0
  Accounted m e (m', run, result) = (m'.cfg ≡ m.cfg) × IsCovered Present (λ r. Present r e) run

  activate_locked-Accounted :
      (m : Manager) (e : E) → Accounted m e (activate_locked host checks false m (fresh e))
  unfolding activate_locked
  activate_locked-Accounted m e =
      let result = apply_plan host checks m.cfg (fresh e) in
      let ended =
        apply_plan-IsEnded Present (λ r. Present r e) host laws checks m.cfg (fresh e)
          (fresh-Holds Present host laws checks e) in
      let covered = (fresh-Holds Present host laws checks e).covered in
      let (same, run) = settled-lem m result in
      if-either (Accounted m e) (not m.cfg.enabled) (refl, covered)
        (if-either (Accounted m e) m.active (refl, covered)
          (if-either (Accounted m e) (str_eq m.cfg.activation_plan.session_id "") (refl, covered)
            (same, subst (IsCovered Present (λ r. Present r e)) (sym run) ended.covered)))

  deactivate-recovers :
      (m : Manager) (run : Run E)
      → m.cfg.enabled ≡ true
      → (deactivate host checks m run).2 ≡ none
      → ((deactivate host checks m run).1 ≡ (recover_network_state host checks m.cfg run).0)
        × ((recover_network_state host checks m.cfg run).1 ≡ none)
  unfolding deactivate
  deactivate-recovers m run enabled ok =
      elim (Option-cases (recover_network_state host checks m.cfg run).1) [
        | inl fine ↦ ground (arith, enabled, fine)
        | inr (cause, error) ↦ absurd (ground (arith, enabled, error))
      ]

  -- After an activation without recovery that began with no journal, whatever it reported, a deactivation of an
  -- enabled manager that reports no error leaves no journal and no resource that was not there before the
  -- activation, and of those that were it removes firewall rules at most, on a host that keeps IsHost's laws.
  pub activate_locked-deactivate :
      (m : Manager) (e : E)
      → m.cfg.enabled ≡ true
      → let activation = activate_locked host checks false m (fresh e) in
        let result = deactivate host checks activation.0 activation.1 in
        result.2 ≡ none → IsSwept Present host laws checks e result.1
  activate_locked-deactivate m e enabled ok =
      let activation = activate_locked host checks false m (fresh e) in
      let (same, covered) = activate_locked-Accounted m e in
      let (run, fine) =
        deactivate-recovers activation.0 activation.1 (ap Config.enabled same ∙ enabled) ok in
      subst (IsSwept Present host laws checks e) (sym run) (
        recover_network_state-IsSwept Present host laws checks activation.0.cfg e activation.1
          covered fine)
