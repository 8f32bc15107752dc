-- ===== src/Service/Capture/Committed.antt =====
-- internal/service/runtime.go and capture_transition.go: the steps that only read, the cleanup and the commit.
use navo.Base.{◌≡◌, inl, inr, refl, ap, String, Option, none, some, List, [], ◌∷◌, Option-cases}
use navo.Network.Activation.{Stage}
use navo.Service.Outbound.{Outbound, find_outbound}
use navo.Service.Capture.Action.{Succeeds}
use navo.Service.Capture.State.{Service, Machine, TunResult, no_result}
use navo.Service.Capture.Core.{set_env, set_tun_stage, set_tun_stages}
use navo.Service.Capture.Runtime.{
  save_selected, committed, commit_healthy_runtime, pin_system_proxy_endpoint, pin_host, pin_found,
}
use navo.Service.Capture.Prepare.{
  deactivate_with, deactivate_tun_network, destroy_tun_adapter, cleanup_tun_for_capture,
  gather_tun_preparation, activate_network, verify_reachable, verify_selected_outbound_reachable,
}
use navo.Service.Capture.Steps.{
  done-Succeeds, fails-Succeeds, step, after, lifted, expected, either, checked, required,
  either-Succeeds, Succeeds-map, undoing-Succeeds, required-last, checked-last, expected-last,
  lifted-last, Untouched, after-Untouched,
}

module _ {E M V W : Type 0} (machine : Machine E M V W) where
  save_selected-Untouched :
      (selected : Option Outbound) (s : Service E M V W)
      → Succeeds (Untouched s) (save_selected machine selected s)
  unfolding save_selected
  save_selected-Untouched none s = done-Succeeds _ _ (s.env, refl)
  save_selected-Untouched (some o) s = step _ _ _ (required-last _ _ _ (λ _. (_, refl)))

  -- A commit that reports no error has made the runtime active, and changed nothing else of the service.
  pub commit_healthy_runtime-Committed :
      (s : Service E M V W)
      → Succeeds
          (λ s' _.
            (env : E) × (s'
              ≡ record s { env = env; runtime = committed machine s.config_path s.runtime }))
          (commit_healthy_runtime machine s)
  unfolding commit_healthy_runtime
  commit_healthy_runtime-Committed s =
      let asked = machine.outbounds s.env in
      step _ _ _ (
        step _ _ _ (
          after-Untouched (set_env asked.0 s) _ _
            (save_selected-Untouched (find_outbound s.runtime.selected_outbound asked.1) _)
            (λ env _. step _ _ _ (
              required _ _ _ _ (λ _.
                after
                  (λ s' _.
                    (env : E) × (s' ≡ record s {
                      env = env;
                      runtime = committed machine s.config_path s.runtime;
                    }))
                  _ _
                  (undoing-Succeeds _ _ _
                    (step _ _ _ (step _ _ _ (step _ _ _ (required-last _ _ _ (λ _. (_, refl)))))))
                  (λ s' _ h. done-Succeeds _ _ (_, ap (set_env _) h.1)))))))

  verify_reachable-Untouched :
      (found : Option Outbound) (s : Service E M V W)
      → Succeeds (Untouched s) (verify_reachable machine found s)
  unfolding verify_reachable
  verify_reachable-Untouched none s = fails-Succeeds _ _
  verify_reachable-Untouched (some o) s = step _ _ _ (required-last _ _ _ (λ _. (_, refl)))

  pub verify_selected_outbound_reachable-Untouched :
      (s : Service E M V W) → Succeeds (Untouched s) (verify_selected_outbound_reachable machine s)
  unfolding verify_selected_outbound_reachable
  verify_selected_outbound_reachable-Untouched s = step _ _ _ (
      either-Succeeds _ _ _ _ (required-last _ _ _ (λ _. (_, refl)))
        (step _ _ _ (Succeeds-map _ _ (λ s' a h. (h.0, h.1)) (verify_reachable-Untouched _ _))))

  pub pin_system_proxy_endpoint-Untouched :
      (id : String) (outbounds : List Outbound) (s : Service E M V W)
      → Succeeds (Untouched s) (pin_system_proxy_endpoint machine id outbounds s)
  unfolding pin_system_proxy_endpoint pin_host pin_found
  pin_system_proxy_endpoint-Untouched id outbounds s =
      either-Succeeds _ _ _ _ (done-Succeeds _ _ (s.env, refl)) (go (find_outbound id outbounds))
    where
      go :
          (found : Option Outbound)
          → Succeeds (Untouched s) (pin_found machine id outbounds found s)
      go none = fails-Succeeds _ _
      go (some o) = either-Succeeds _ _ _ _ (done-Succeeds _ _ (s.env, refl)) (
          step _ _ _ (
            expected _ _ _ _
              (λ addresses _. required _ _ _ _ (λ _. expected-last _ _ _ (λ _. (_, refl))))))

  pub destroy_tun_adapter-Untouched :
      (s : Service E M V W) → Succeeds (Untouched s) (destroy_tun_adapter machine s)
  unfolding destroy_tun_adapter
  destroy_tun_adapter-Untouched s = step _ _ _ (
      either-Succeeds _ _ _ _ (step _ _ _ (checked-last _ _ (λ _. (_, refl)))) (
        step _ _ _ (
          either-Succeeds _ _ _ _ (step _ _ _ (required-last _ _ _ (λ _. (_, refl))))
            (step _ _ _ (checked-last _ _ (λ _. (_, refl)))))))

  -- The network is taken back.
  pub deactivate_tun_network-Released :
      (s : Service E M V W)
      → Succeeds
          (λ s' _. (env : E) × (s' ≡ record s { env = env; manager = none }))
          (deactivate_tun_network machine s)
  unfolding deactivate_with
  deactivate_tun_network-Released s = go s.manager refl
    where
      go :
          (m : Option M)
          → s.manager ≡ m
          → Succeeds
              (λ s' _. (env : E) × (s' ≡ record s { env = env; manager = none }))
              (deactivate_with machine m s)
      go none e = done-Succeeds _ _ (s.env, ap (λ now. record s { manager = now }) e)
      go (some m) e = elim (Option-cases (machine.network.deactivate m s.env).2) [
        | inl fine ↦ rw (deactivate_with, fine) (done-Succeeds _ _ (_, refl))
        | inr (cause, stuck) ↦ rw (deactivate_with, stuck) (fails-Succeeds _ _)
      ]

  pub cleanup_tun_for_capture-Clean :
      (s : Service E M V W)
      → Succeeds
          (λ s' _. (env : E) × (s' ≡ record s { env = env; manager = none; tun = no_result }))
          (cleanup_tun_for_capture machine s)
  unfolding cleanup_tun_for_capture
  cleanup_tun_for_capture-Clean s =
      after (λ s' _. (env : E) × (s' ≡ record s { env = env; manager = none })) _ _
        (deactivate_tun_network-Released s)
        (λ s1 _ h. after-Untouched s1 _ _ (destroy_tun_adapter-Untouched s1) (λ env _. step _ _ _ (
          checked _ _ _ (
            done-Succeeds _ _ (
              _,
              ap
                  (λ (now : Service E M V W). record now {
                    env = (machine.wait_missing env).0;
                    tun = no_result;
                  })
                  h.1,
            )))))

  pub gather_tun_preparation-Untouched :
      (s : Service E M V W) → Succeeds (Untouched s) (gather_tun_preparation machine s)
  unfolding gather_tun_preparation
  gather_tun_preparation-Untouched s = step _ _ _ (
      step _ _ _ (
        step _ _ _ (
          either _ _ _ _ _
            (step _ _ _ (
              step _ _ _ (
                required _ _ _ _ (λ _.
                  expected _ _ _ _
                    (λ direct_ip _. lifted _ _ _ (λ plan. done-Succeeds _ _ (_, refl)))))))
            (step _ _ _ (
              step _ _ _ (
                required _ _ _ _ (λ _.
                  expected _ _ _ _
                    (λ direct_ip _. lifted _ _ _ (λ plan. done-Succeeds _ _ (_, refl))))))))))

  set_tun_stages-tun :
      (stages : List Stage) (s : Service E M V W)
      → set_tun_stages stages s ≡ record s { tun = (set_tun_stages stages s).tun }
  set_tun_stages-tun [] s = refl
  set_tun_stages-tun (stage ∷ stages) s = set_tun_stages-tun stages (set_tun_stage stage s)

  pub activate_network-Activated :
      (m : M) (s : Service E M V W)
      → Succeeds
          (λ s' _.
            (env : E) × (now : M) × (t : TunResult W) × (s'
              ≡ record s { env = env; manager = some now; tun = t }))
          (activate_network machine m s)
  unfolding activate_network
  activate_network-Activated m s =
      let ran = machine.network.activate m s.env in
      let moved = record s { manager = some ran.0; env = ran.1 } in
      lifted-last _ _ (λ _. (_, _, _, set_tun_stages-tun ran.2 moved))
