-- ===== src/Tests/Copies.antt =====
-- A deep copy of a policy in a small memory.
use k8boss_operator.Prelude.{
  String, ℕ, ◌≤◌, ◌≡◌, refl, arith, none, some, [], ◌∷◌, eqb, if◌then◌else◌, pos,
}
use k8boss_operator.DeepCopy.Memory.{Memory, pure}
use k8boss_operator.DeepCopy.Reads.{read_flat}
use k8boss_operator.DeepCopy.Structs.{Cell, numbers, string_map, rules, texts}
use k8boss_operator.DeepCopy.Compose.{flat}
use k8boss_operator.DeepCopy.Objects.{Object, segmentation_policy, deep_copy_object}
use k8boss_operator.DeepCopy.Isolation.{
  ObjectValue, segmentation_policy_value, read_object, deep_copy_object-IsIsolated,
}

-- One ingress rule with two ports, for the workloads of one label
abbrev policy_in_memory : Object String String
policy_in_memory = segmentation_policy record {
  metadata = "web";
  spec = record {
    selector = record { match_labels = some 0 };
    ingress = some 2;
    egress = none;
    provider_ref = "";
  };
  status = record {
    conditions = none;
    observed_generation = pos 1;
    resolved_flow_provider = "hubble";
  };
}

abbrev memory : Memory (Cell String)
memory = record {
  next = 3;
  cells = λ a.
      if eqb a 0
      then string_map (("app", "web") ∷ [])
      else if eqb a 1
      then numbers (pos 80 ∷ pos 443 ∷ [])
      else rules (record { ports = some 1; peer_selector = none; peer_namespace = "edge" } ∷ []);
}

abbrev policy_value : ObjectValue String String
policy_value = segmentation_policy_value (
  "web",
  (
    (
      some (("app", "web") ∷ []),
      (some ((some (pos 80 ∷ pos 443 ∷ []), (none, "edge")) ∷ []), (none, "")),
    ),
    (none, (pos 1, "hubble")),
  ),
)

-- What stands at the three old addresses is overwritten.
abbrev overwritten : ℕ → Cell String
overwritten a =
    if eqb a 0
    then texts []
    else if eqb a 1
    then texts []
    else if eqb a 2
    then texts []
    else (deep_copy_object pure pure policy_in_memory memory).1.cells a

overwritten-new :
    (a : ℕ) → 3 ≤ a → overwritten a ≡ (deep_copy_object pure pure policy_in_memory memory).1.cells a
overwritten-new a l = ground arith

deep_copy_object-IsIsolated_example :
    (o' : Object String String) × ((deep_copy_object pure pure policy_in_memory memory).0 ≡ some o')
    × (read_object read_flat read_flat 0
          (deep_copy_object pure pure policy_in_memory memory).1.next
          overwritten
          o'
        ≡ some policy_value)
    × (read_object read_flat read_flat 0
          (deep_copy_object pure pure policy_in_memory memory).1.next
          memory.cells
          policy_in_memory
        ≡ some policy_value)
deep_copy_object-IsIsolated_example =
    deep_copy_object-IsIsolated read_flat read_flat pure pure flat flat policy_in_memory
      policy_value memory overwritten memory.cells refl (λ a l _. overwritten-new a l) (λ a _. refl)
