-- ===== src/Preflight/Answers.antt =====
-- internal/preflight/preflight.go: when the readiness check passes.
use text.Mathlib.Text.{find?}
use k8boss_operator.Prelude.{
  String, ◌≡◌, ◌↔◌, refl, arith, eq_iff, true, Option, none, some, List, [], ◌∷◌, contains,
  length-pos_iff, All, Option-cases, inl, inr,
}
use k8boss_operator.Backend.Errors.{Result, ok, err, is_unconfigured}
use k8boss_operator.Backend.Wire.{PausedState}
use k8boss_operator.Preflight.{
  Checker, group_version, required_resources, served_names, missing_from, listed_answer,
  probe_answer, lister_of, check_crds, check_backend, check,
}

missing_from-eq-nil :
    (served wants : List String)
    → (missing_from served wants ≡ []) ↔ All (λ want. contains served want ≡ true) wants
unfolding missing_from
missing_from-eq-nil served [] = ground arith
missing_from-eq-nil served (want ∷ wants) = ground (arith, missing_from-eq-nil served wants)

-- The name of a resource, and of no subresource, stays among the served ones; every other goes.
contains-served_names :
    (names : List String) (want : String)
    → find? want "/" ≡ none
    → contains (served_names names) want ≡ contains names want
unfolding served_names
contains-served_names [] want plain_name = refl
contains-served_names (name ∷ names) want plain_name =
    ground (arith, contains-served_names names want plain_name, eq_iff want name)

-- The names show every CRD of the operator.
abbrev pub IsInstalled : Result (List String) → Type 0
IsInstalled (err e) = ⊥
IsInstalled (ok names) =
    (contains names "platformconfigs" ≡ true)
    × (contains names "runtimesecuritypolicies" ≡ true)
    × (contains names "segmentationpolicies" ≡ true)

-- A probe that was answered, or that was not attempted since nothing was configured.
abbrev pub IsReachable : Result PausedState → Type 0
IsReachable (ok state) = Unit
IsReachable (err e) = is_unconfigured e ≡ true

listed_answer-eq-none : (a : Result (List String)) → (listed_answer a ≡ none) ↔ IsInstalled a
unfolding listed_answer
listed_answer-eq-none (err e) = ground arith
listed_answer-eq-none (ok names) = ground (
  arith,
  length-pos_iff (missing_from (served_names names) required_resources),
  missing_from-eq-nil (served_names names) required_resources,
  contains-served_names names "platformconfigs" refl,
  contains-served_names names "runtimesecuritypolicies" refl,
  contains-served_names names "segmentationpolicies" refl,
)

probe_answer-eq-none : (a : Result PausedState) → (probe_answer a ≡ none) ↔ IsReachable a
unfolding probe_answer
probe_answer-eq-none (ok state) = ground arith
probe_answer-eq-none (err e) = ground arith

module _ {W : Type 0} where
  -- The lister that a check asks: the one that is set, else the one that the configuration builds.
  abbrev pub lister_for : Checker W → Option (String → W → Result (List String) × W)
  lister_for c = elim c.discovery [
    | some lister ↦ some lister
    | none ↦ elim c.config [ none ↦ none | some (ok lister) ↦ some lister | some (err e) ↦ none ]
  ]

  -- There are a lister and a probe to ask; the API server lists all three resources under the
  -- operator's group version; and then the control plane answers the probe, or nothing is configured.
  abbrev pub IsReady : Checker W → W → Type 0
  IsReady c w = elim (lister_for c) [
    | none ↦ ⊥
    | some lister ↦ IsInstalled (lister group_version w).0 × elim c.backend [
      | none ↦ ⊥
      | some probe ↦ IsReachable (probe (lister group_version w).1).0
    ]
  ]

  -- The check passes exactly when it has a lister and a probe to ask, the API server lists all three
  -- resources under the operator's group version, and the control plane then answers the probe or
  -- the operator was deployed without its settings. This last case, in which the control plane is not
  -- asked, is the only pass without an answer to each question.
  pub check-eq-none : (c : Checker W) (w : W) → ((check c w).0 ≡ none) ↔ IsReady c w
  unfolding check check_crds check_backend lister_of
  check-eq-none c w = elim (Option-cases (lister_for c)) [
    | inl d ↦ ground (arith)
    | inr (lister, d) ↦ elim (Option-cases c.backend) [
      | inl b ↦ ground (arith, listed_answer-eq-none (lister group_version w).0)
      | inr (probe, b) ↦ ground (
        arith,
        listed_answer-eq-none (lister group_version w).0,
        probe_answer-eq-none (probe (lister group_version w).1).0,
      )
    ]
  ]
