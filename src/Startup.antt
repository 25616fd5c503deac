-- ===== src/Startup.antt =====
-- cmd/main.go: what main makes of its settings: the cluster id, the settings that are missing, the
-- backend client and the three reconcilers. Manager has the flags and the calls of the manager.
pub mod Configured
pub mod Manager
pub mod Sequence
pub mod Environment
pub mod RoundTrip
pub mod Unconfigured
use k8boss_operator.Prelude.{
  ℕ, zero, suc, ◌+◌, ◌*◌, ◌-◌, String, ◌<>◌, Bool, true, false, ◌&&◌, not, Option, none, some, List,
  [], ◌∷◌, ◌++◌, ◌==◌, ltb, leb, eqb, if◌then◌else◌, length, ℤ, pos, negsuc, quote, show_ℤ,
}
use Prim.Native.Char.{code}
use k8boss_operator.Backend.Errors.{plain, wrap, Result, ok, err}
use k8boss_operator.Backend.Transport.{Client, new, new_unconfigured}
use k8boss_operator.Segmentation.{SegmentationPolicyReconciler}
use k8boss_operator.Runtime.{RuntimeSecurityPolicyReconciler}
use k8boss_operator.Platform.{PlatformConfigReconciler}

-- The value of the decimal digits of a text behind those read so far; none if it has another
-- character.
digits : ℕ → String → Option ℕ
digits acc String.[] = some acc
digits acc (String.◌∷◌ c s) =
    if leb b'0' (code c) && leb (code c) b'9' then digits (acc * 10 + (code c - b'0')) s else none

-- A digit string: at least one digit, and nothing else
natural : String → Option ℕ
unfolding digits
natural s = if s == "" then none else digits 0 s

-- strconv.Atoi: a sign, then digits, within 64 bits
unfoldable pub atoi : String → Option ℤ
unfolding natural
atoi String.[] = none
atoi (String.◌∷◌ c s) =
    if eqb (code c) b'-'
    then elim (natural s) [
      | none ↦ none
      | some zero ↦ some (pos 0)
      | some (suc n) ↦ if ltb n 0x8000000000000000 then some (negsuc n) else none
    ]
    else elim (if eqb (code c) b'+' then natural s else natural (String.◌∷◌ c s)) [
      | none ↦ none
      | some n ↦ if ltb n 0x8000000000000000 then some (pos n) else none
    ]

is_positive : ℤ → Bool
is_positive (pos n) = ltb 0 n
is_positive (negsuc n) = false

-- parseClusterID. On an error Go's int is 0. The text of strconv's own error is an argument.
unfoldable pub parse_cluster_id : (String → String) → String → Result ℤ
unfolding is_positive
parse_cluster_id atoi_error raw = if raw == "" then err (plain "not set") else elim (atoi raw) [
  | none ↦ err (wrap (quote raw <> " is not an integer: ") (plain (atoi_error raw)) "")
  | some id ↦
      if not (is_positive id)
      then err (plain (show_ℤ id <> " is not a positive cluster id"))
      else ok id
]

-- envOr, over the value that os.Getenv gives
unfoldable pub env_or : String → String → String
env_or value fallback = if not (value == "") then value else fallback

-- The settings that main reads, after the flags
pub record Settings : Type 0 where
  pub backend_url : String
  pub cluster_id : String
  pub operator_token : String
  pub platform_config_name : String

unless_present : Bool → String → List String
unless_present true name = []
unless_present false name = name ∷ []

is_ok : Result ℤ → Bool
is_ok (ok id) = true
is_ok (err e) = false

unfoldable pub missing_settings : (String → String) → Settings → List String
unfolding unless_present is_ok
missing_settings atoi_error s =
    unless_present (not (s.backend_url == "")) "K8BOSS_BACKEND_URL"
    ++ (unless_present (is_ok (parse_cluster_id atoi_error s.cluster_id)) "K8BOSS_CLUSTER_ID"
        ++ unless_present (not (s.operator_token == "")) "K8BOSS_OPERATOR_TOKEN")

-- What the manager runs with
pub record Operator : Type 0 where
  pub backend : Client
  pub segmentation : SegmentationPolicyReconciler
  pub runtime : RuntimeSecurityPolicyReconciler
  pub platform : PlatformConfigReconciler

or_zero : Result ℤ → ℤ
or_zero (ok id) = id
or_zero (err e) = pos 0

unfoldable pub main : (String → String) → Settings → Operator
unfolding missing_settings or_zero
main atoi_error s =
    let missing = missing_settings atoi_error s in
    let id = or_zero (parse_cluster_id atoi_error s.cluster_id) in
    record {
      backend =
          if ltb 0 (length missing)
          then new_unconfigured missing
          else new s.backend_url s.operator_token;
      segmentation = record { cluster_id = id; platform_config_name = s.platform_config_name };
      runtime = record { cluster_id = id; platform_config_name = s.platform_config_name };
      platform = record { cluster_id = id; platform_config_name = s.platform_config_name };
    }
