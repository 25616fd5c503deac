-- ===== src/Preflight.antt =====
-- internal/preflight/preflight.go: the readiness check. The discovery client and the backend probe
-- are parameters; the probe's deadline is left out, since nothing of the answer is read from it.
pub mod Answers
use text.Mathlib.Text.{find?}
use k8boss_operator.Prelude.{
  String, ◌<>◌, Option, none, some, List, [], ◌∷◌, contains, ltb, if◌then◌else◌, length, join,
}
use k8boss_operator.Backend.Errors.{
  GoError, plain, wrap, Result, ok, err, is_unconfigured, is_not_found,
}
use k8boss_operator.Backend.Wire.{PausedState}

-- v1alpha1.GroupVersion.String()
abbrev pub group_version : String
group_version = "k8boss.io/v1alpha1"

abbrev pub required_resources : List String
required_resources = "platformconfigs" ∷ "runtimesecuritypolicies" ∷ "segmentationpolicies" ∷ []

-- The Checker. `discovery` is the lister, if one was set; `config` is the building of a discovery
-- client from the Kubernetes configuration, if there is one. A lister answers with the names of the
-- resources that the API server lists for the group version.
pub record Checker (W : Type 0) : Type 0 where
  pub discovery : Option (String → W → Result (List String) × W)
  pub config : Option (Result (String → W → Result (List String) × W))
  pub backend : Option (W → Result PausedState × W)

-- The names without a "/": those of no subresource
unfoldable pub served_names : List String → List String
served_names [] = []
served_names (name ∷ names) = elim (find? name "/") [
  | none ↦ name ∷ served_names names
  | some at ↦ served_names names
]

missing_from : List String → List String → List String
missing_from served [] = []
missing_from served (want ∷ wants) =
    if contains served want then missing_from served wants else want ∷ missing_from served wants

-- checkCRDs, after the answer of the discovery call
unfoldable pub listed_answer : Result (List String) → Option GoError
unfolding missing_from served_names
listed_answer (err e) =
    if is_not_found e
    then some (
        plain (
          "the K8Boss CRDs are NOT installed: the API server serves no "
          <> (group_version <> " resources (run `make install` from operator/)")))
    else some (
        wrap
          ("could not determine whether the K8Boss CRDs are installed: "
            <> ("discovery for " <> (group_version <> " failed: ")))
          e "")
listed_answer (ok names) =
    let missing = missing_from (served_names names) required_resources in
    if ltb 0 (length missing)
    then some (
        plain (
          "the K8Boss CRDs are incompletely installed: "
          <> (group_version
              <> (" serves no " <> (join missing ", " <> " (run `make install` from operator/)")))))
    else none

-- checkBackend, after the answer of GetPaused
unfoldable pub probe_answer : Result PausedState → Option GoError
probe_answer (ok state) = none
probe_answer (err e) =
    if is_unconfigured e
    then none
    else some (
        wrap
          ("the control-plane API is NOT confirmed reachable, so no reconcile "
            <> "could reach the Knowledge Graph: GET /internal/operator/v1/paused failed: ")
          e "")

module _ {W : Type 0} where
  -- New
  unfoldable pub new_checker :
      Option (Result (String → W → Result (List String) × W))
      → (W → Result PausedState × W)
      → Checker W
  new_checker config backend = record { discovery = none; config = config; backend = some backend }

  -- The lister that checkCRDs uses, or its error. A lister that is built stays in `c.Discovery`.
  unfoldable pub lister_of : Checker W → Result (String → W → Result (List String) × W) × Checker W
  lister_of c = elim c.discovery [
    | some lister ↦ (ok lister, c)
    | none ↦ elim c.config [
      | none ↦ (
        err (
            plain (
              "could not determine whether the K8Boss CRDs are installed: "
              <> "no Kubernetes client config was provided to the preflight checker")),
        c,
      )
      | some (err e) ↦ (
        err (
            wrap
              ("could not determine whether the K8Boss CRDs are installed: "
                <> "building a discovery client failed: ")
              e ""),
        c,
      )
      | some (ok lister) ↦ (ok lister, record c { discovery = some lister })
    ]
  ]

  unfoldable pub check_crds : Checker W → W → Option GoError × Checker W × W
  unfolding lister_of listed_answer
  check_crds c w =
      let (found, c') = lister_of c in
      elim found [
        | err e ↦ (some e, c', w)
        | ok lister ↦ let (answer, w') = lister group_version w in (listed_answer answer, c', w')
      ]

  unfoldable pub check_backend : Checker W → W → Option GoError × W
  unfolding probe_answer
  check_backend c w = elim c.backend [
    | none ↦ (
      some (
          plain (
            "could not determine whether the control-plane API is reachable: "
            <> "no backend client was provided to the preflight checker")),
      w,
    )
    | some probe ↦ let (answer, w') = probe w in (probe_answer answer, w')
  ]

  unfoldable pub check : Checker W → W → Option GoError × Checker W × W
  unfolding check_crds check_backend
  check c w =
      let (crds, c', w') = check_crds c w in
      elim crds [
        | some e ↦ (some e, c', w')
        | none ↦ let (answer, w'') = check_backend c' w' in (answer, c', w'')
      ]
