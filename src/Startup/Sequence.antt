-- ===== src/Startup/Sequence.antt =====
-- cmd/main.go: the calls that the process makes, against the plan of its startup.
use k8boss_operator.Prelude.{
  String, ◌≡◌, ◌⊎◌, inl, inr, Option-cases, refl, arith, Option, none, some, List, [], ◌∷◌,
}
use k8boss_operator.Backend.Errors.{GoError}
use k8boss_operator.Startup.{Operator, main}
use k8boss_operator.Startup.Manager.{
  Flags, default_flags, settings_of, manager_options, Call, add_client_go_scheme,
  add_operator_scheme, get_config, start, new_manager, set_up_segmentation, set_up_runtime,
  set_up_platform, add_healthz_check, add_readyz_check, ping, preflight, End, returned, panicked,
  exited, Log, must, init, run_manager, process,
}

-- A sequence of calls, each with the end of the process that its failure is
abbrev pub Plan : Type 0
Plan = List (Call × (GoError → End))

-- A run of a plan: all of its calls succeed and the process returns, or those before some call do and
-- that call is the last.
abbrev pub IsRun : Plan → End → Log → Type 0
IsRun [] end log = (end ≡ returned) × (log ≡ [])
IsRun ((call, on_error) ∷ plan) end log =
    ((e : GoError) × (end ≡ on_error e) × (log ≡ (call, some e) ∷ []))
    ⊎ ((log' : Log) × (log ≡ (call, none) ∷ log') × IsRun plan end log')

-- The schemes, the manager, the three controllers, the three checks, and the start
abbrev pub startup_plan : Flags → Operator → Plan
startup_plan flags operator =
    (add_client_go_scheme, panicked)
    ∷ (add_operator_scheme, panicked)
    ∷ (get_config, exited "unable to get kubeconfig")
    ∷ (new_manager (manager_options flags), exited "unable to start manager")
    ∷ (
      set_up_segmentation operator.segmentation operator.backend,
      exited "unable to create controller",
    )
    ∷ (set_up_runtime operator.runtime operator.backend, exited "unable to create controller")
    ∷ (set_up_platform operator.platform operator.backend, exited "unable to create controller")
    ∷ (add_healthz_check "healthz" ping, exited "unable to set up health check")
    ∷ (add_readyz_check "readyz" ping, exited "unable to set up ready check")
    ∷ (
      add_readyz_check "preflight" (preflight operator.backend),
      exited "unable to set up preflight ready check",
    )
    ∷ (start, exited "problem running manager")
    ∷ []

module _ {W : Type 0} (outside : Call → W → Option GoError × W) where
  -- What follows in the code is a run of a plan.
  record Follows (plan : Plan) (rest : W → End × Log) : Type 0 where
    run : (w : W) → IsRun plan (rest w).0 (rest w).1

  must-Follows :
      (call : Call) (on_error : GoError → End) {plan : Plan} {rest : W → End × Log}
      → Follows plan rest
      → Follows ((call, on_error) ∷ plan) (must outside call on_error rest)
  unfolding must
  must-Follows call on_error {plan} {rest} h = record {
    run = λ w. elim (Option-cases (outside call w).0) [
      | inl p ↦ inr (
        (rest (outside call w).1).1,
        ground (arith, p),
        ground (arith, p, h.run (outside call w).1),
      )
      | inr (e, p) ↦ inl (e, ground (arith, p), ground (arith, p))
    ];
  }

  returned-Follows : Follows [] (λ w. (returned, []))
  returned-Follows = record { run = λ w. (refl, refl) }

  run_manager-Follows :
      (flags : Flags) (operator : Operator)
      → Follows (startup_plan flags operator) (init outside (run_manager outside flags operator))
  unfolding init run_manager
  run_manager-Follows flags operator =
      (must-Follows _ _ (
        must-Follows _ _ (
          must-Follows _ _ (
            must-Follows _ _ (
              must-Follows _ _ (
                must-Follows _ _ (
                  must-Follows _ _ (
                    must-Follows _ _ (
                      must-Follows _ _
                        (must-Follows _ _ (must-Follows _ _ returned-Follows)))))))))))

  -- On a command line that flag.Parse accepts, the process asks the libraries for the two schemes, the
  -- configuration, the manager, the three controllers, the three checks and the start, in this order.
  -- It stops at the first call that fails, with the panic or exit of that call, and returns only when
  -- every call succeeded. The controllers and the preflight check have one client, and it and the
  -- reconcilers are what main makes of the values of the flags and of the token in the environment.
  pub process-IsRun :
      (atoi_error getenv : String → String) (flag_parse : Flags → Option Flags) (flags : Flags)
      (w : W)
      → flag_parse (default_flags getenv) ≡ some flags
      → let (end, log) = process outside atoi_error getenv flag_parse w in
        IsRun (startup_plan flags (main atoi_error (settings_of getenv flags))) end log
  unfolding process
  process-IsRun atoi_error getenv flag_parse flags w h =
      rw h ((run_manager-Follows flags (main atoi_error (settings_of getenv flags))).run w)
