-- ===== src/Setup.antt =====
-- What the operator registers: the types of api/v1alpha1 with the scheme (groupversion_info.go and the
-- init functions of the *_types.go files), and the three controllers with the manager
-- (SetupWithManager of internal/controller). The builders are the libraries': what they are given
-- is a value here.
pub mod Loops
use k8boss_operator.Prelude.{String, List, [], ◌∷◌}

-- The types that the package declares as objects
pub data ObjectKind : Type 0 where
  platform_config platform_config_list : ObjectKind
  runtime_security_policy runtime_security_policy_list : ObjectKind
  segmentation_policy segmentation_policy_list : ObjectKind

-- schema.GroupVersion
pub record GroupVersion : Type 0 where
  pub group : String
  pub version : String

abbrev pub group_version : GroupVersion
group_version = record { group = "k8boss.io"; version = "v1alpha1" }

-- What the init function of each file gives to SchemeBuilder.Register
unfoldable pub init_platform_config : List ObjectKind
init_platform_config = platform_config ∷ platform_config_list ∷ []

unfoldable pub init_runtime_security_policy : List ObjectKind
init_runtime_security_policy = runtime_security_policy ∷ runtime_security_policy_list ∷ []

unfoldable pub init_segmentation_policy : List ObjectKind
init_segmentation_policy = segmentation_policy ∷ segmentation_policy_list ∷ []

-- predicate.Predicate, of which the code uses one
pub data WatchPredicate : Type 0 where
  generation_changed : WatchPredicate

-- What ctrl.NewControllerManagedBy is given before Complete
pub record ControllerSetup : Type 0 where
  pub watches : ObjectKind
  pub predicates : List WatchPredicate
  pub name : String

-- SetupWithManager of the three reconcilers
unfoldable pub set_up_platform_config : ControllerSetup
set_up_platform_config = record {
  watches = platform_config;
  predicates = generation_changed ∷ [];
  name = "platformconfig";
}

unfoldable pub set_up_runtime_security_policy : ControllerSetup
set_up_runtime_security_policy = record {
  watches = runtime_security_policy;
  predicates = [];
  name = "runtimesecuritypolicy";
}

unfoldable pub set_up_segmentation_policy : ControllerSetup
set_up_segmentation_policy = record {
  watches = segmentation_policy;
  predicates = [];
  name = "segmentationpolicy";
}
