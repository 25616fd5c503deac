-- ===== src/Startup/Manager.antt =====
-- cmd/main.go: init, the flags, and what main asks of controller-runtime, in order, with the exit on
-- each failure. The libraries are one parameter: an answer, nil or an error, to each call.
use k8boss_operator.Prelude.{String, Bool, false, Option, none, some, List, [], ◌∷◌}
use k8boss_operator.Backend.Errors.{GoError}
use k8boss_operator.Backend.Transport.{Client}
use k8boss_operator.Segmentation.{SegmentationPolicyReconciler}
use k8boss_operator.Runtime.{RuntimeSecurityPolicyReconciler}
use k8boss_operator.Platform.{PlatformConfigReconciler}
use k8boss_operator.Startup.{Settings, Operator, env_or, main}

-- The flags of main; those of zap are left out.
pub record Flags : Type 0 where
  pub metrics_addr : String
  pub probe_addr : String
  pub enable_leader_election : Bool
  pub leader_election_ns : String
  pub backend_url : String
  pub cluster_id_flag : String
  pub platform_config_name : String

-- The defaults that main gives to the flag parser, over os.Getenv
unfoldable pub default_flags : (String → String) → Flags
unfolding env_or
default_flags getenv = record {
  metrics_addr = ":8080";
  probe_addr = ":8081";
  enable_leader_election = false;
  leader_election_ns = getenv "K8BOSS_LEADER_ELECTION_NAMESPACE";
  backend_url = getenv "K8BOSS_BACKEND_URL";
  cluster_id_flag = getenv "K8BOSS_CLUSTER_ID";
  platform_config_name = env_or (getenv "K8BOSS_PLATFORMCONFIG_NAME") "default";
}

-- ctrl.Options
pub record ManagerOptions : Type 0 where
  pub metrics_bind_address : String
  pub health_probe_bind_address : String
  pub leader_election : Bool
  pub leader_election_id : String
  pub leader_election_namespace : String

unfoldable pub manager_options : Flags → ManagerOptions
manager_options flags = record {
  metrics_bind_address = flags.metrics_addr;
  health_probe_bind_address = flags.probe_addr;
  leader_election = flags.enable_leader_election;
  leader_election_id = "k8boss-operator.k8boss.io";
  leader_election_namespace = flags.leader_election_ns;
}

-- The settings of main: the flags, and the token of the environment
unfoldable pub settings_of : (String → String) → Flags → Settings
settings_of getenv flags = record {
  backend_url = flags.backend_url;
  cluster_id = flags.cluster_id_flag;
  operator_token = getenv "K8BOSS_OPERATOR_TOKEN";
  platform_config_name = flags.platform_config_name;
}

-- A check that the manager serves: healthz.Ping, or Check of preflight.New with a client.
pub data Check : Type 0 where
  ping : Check
  preflight : Client → Check

-- What main asks of the libraries. ctrl.GetConfigOrDie exits by itself.
pub data Call : Type 0 where
  add_client_go_scheme add_operator_scheme get_config start : Call
  new_manager : ManagerOptions → Call
  set_up_segmentation : SegmentationPolicyReconciler → Client → Call
  set_up_runtime : RuntimeSecurityPolicyReconciler → Client → Call
  set_up_platform : PlatformConfigReconciler → Client → Call
  add_healthz_check add_readyz_check : String → Check → Call

-- How the process ends: main returns, a panic, os.Exit(1) behind a log line, or the exit of
-- flag.Parse on a command line that it does not accept.
pub data End : Type 0 where
  returned usage : End
  panicked : GoError → End
  exited : String → GoError → End

-- The calls with their answers, in order
abbrev pub Log : Type 0
Log = List (Call × Option GoError)

module _ {W : Type 0} (outside : Call → W → Option GoError × W) where
  -- `if err := call; err != nil { … }`, and what follows
  unfoldable pub must : Call → (GoError → End) → (W → End × Log) → W → End × Log
  must call on_error rest w =
      let (answer, w') = outside call w in
      elim answer [
        | some e ↦ (on_error e, (call, some e) ∷ [])
        | none ↦ let (end, log) = rest w' in (end, (call, none) ∷ log)
      ]

  -- init
  unfoldable pub init : (W → End × Log) → W → End × Log
  init rest = must add_client_go_scheme panicked (must add_operator_scheme panicked rest)

  -- main from ctrl.NewManager on
  unfoldable pub run_manager : Flags → Operator → W → End × Log
  run_manager flags operator = must get_config (exited "unable to get kubeconfig") (
      must (new_manager (manager_options flags)) (exited "unable to start manager") (
        must (set_up_segmentation operator.segmentation operator.backend)
          (exited "unable to create controller")
          (must (set_up_runtime operator.runtime operator.backend)
            (exited "unable to create controller")
            (must (set_up_platform operator.platform operator.backend)
              (exited "unable to create controller")
              (must (add_healthz_check "healthz" ping) (exited "unable to set up health check") (
                must (add_readyz_check "readyz" ping) (exited "unable to set up ready check") (
                  must (add_readyz_check "preflight" (preflight operator.backend))
                    (exited "unable to set up preflight ready check")
                    (must start (exited "problem running manager") (λ w. (returned, []))))))))))

  -- The process. `flag_parse` is flag.Parse on the command line: from the defaults to the values.
  unfoldable pub process :
      (String → String) → (String → String) → (Flags → Option Flags) → W → End × Log
  process atoi_error getenv flag_parse = init (elim (flag_parse (default_flags getenv)) [
    | none ↦ λ w. (usage, [])
    | some flags ↦ run_manager flags (main atoi_error (settings_of getenv flags))
  ])
