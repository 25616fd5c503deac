-- ===== src/Startup/Configured.antt =====
-- cmd/main.go: what a configured operator is configured with.
use k8boss_operator.Prelude.{
  ℕ, ◌<◌, String, ◌≡◌, ◌≢◌, ◌↔◌, refl, arith, eq_iff, true, none, some, [], ℤ, pos, negsuc,
  Option-cases, length-pos_iff, inl, inr,
}
use k8boss_operator.Backend.Errors.{ok}
use k8boss_operator.Backend.Transport.{new, new_unconfigured}
use k8boss_operator.Startup.{
  Settings, atoi, is_positive, parse_cluster_id, unless_present, is_ok, missing_settings, or_zero,
  main,
}

-- A 64-bit two's complement number
abbrev pub IsInt64 : ℤ → Type 0
IsInt64 (pos n) = n < 0x8000000000000000
IsInt64 (negsuc n) = n < 0x8000000000000000

atoi-IsInt64 : (raw : String) (z : ℤ) → atoi raw ≡ some z → IsInt64 z
unfolding atoi
atoi-IsInt64 String.[] z h = ground arith
atoi-IsInt64 (String.◌∷◌ c s) (pos n) h = ground arith
atoi-IsInt64 (String.◌∷◌ c s) (negsuc n) h = ground arith

atoi-nil : atoi "" ≡ none
unfolding atoi
atoi-nil = refl

parse_cluster_id-is_ok :
    (atoi_error : String → String) (raw : String)
    → (is_ok (parse_cluster_id atoi_error raw) ≡ true)
      ↔ ((n : ℕ) × (atoi raw ≡ some (pos n)) × (0 < n))
unfolding parse_cluster_id is_positive is_ok
parse_cluster_id-is_ok atoi_error raw = elim (Option-cases (atoi raw)) [
  | inl h ↦ ground arith
  | inr (pos n, h) ↦ ground (arith, eq_iff raw "", atoi-nil)
  | inr (negsuc n, h) ↦ ground (arith, eq_iff raw "", atoi-nil)
]

missing_settings-eq-nil :
    (atoi_error : String → String) (s : Settings)
    → (missing_settings atoi_error s ≡ []) ↔ (
        (s.backend_url ≢ "")
        × (s.operator_token ≢ "")
        × ((n : ℕ) × (atoi s.cluster_id ≡ some (pos n)) × (0 < n)))
unfolding missing_settings unless_present
missing_settings-eq-nil atoi_error s = ground (
  arith,
  parse_cluster_id-is_ok atoi_error s.cluster_id,
  eq_iff s.backend_url "",
  eq_iff s.operator_token "",
)

-- A cluster id that is accepted is the number that its text denotes, positive and within 64 bits.
-- Anything else is refused.
pub parse_cluster_id-eq-ok :
    (atoi_error : String → String) (raw : String) (id : ℤ)
    → (parse_cluster_id atoi_error raw ≡ ok id)
      ↔ ((n : ℕ) × (atoi raw ≡ some (pos n)) × (id ≡ pos n) × (0 < n) × (n < 0x8000000000000000))
unfolding parse_cluster_id is_positive
parse_cluster_id-eq-ok atoi_error raw id = elim (Option-cases (atoi raw)) [
  | inl h ↦ ground arith
  | inr (pos n, h) ↦ ground (arith, eq_iff raw "", atoi-nil, atoi-IsInt64 raw (pos n) h)
  | inr (negsuc n, h) ↦ ground (arith, eq_iff raw "", atoi-nil)
]

-- The client that main builds is one that calls exactly when there are a backend URL and a token, and
-- the cluster id's text denotes a positive number of 64 bits; otherwise it is the unconfigured one.
pub main-configured :
    (atoi_error : String → String) (s : Settings)
    → ((main atoi_error s).backend.missing ≡ []) ↔ (
        (s.backend_url ≢ "")
        × (s.operator_token ≢ "")
        × ((n : ℕ) × (atoi s.cluster_id ≡ some (pos n)) × (0 < n)))
unfolding main new_unconfigured new
main-configured atoi_error s =
    ground
      (arith, missing_settings-eq-nil atoi_error s, length-pos_iff (missing_settings atoi_error s))

or_zero_lem :
    (atoi_error : String → String) (raw : String) (n : ℕ)
    → atoi raw ≡ some (pos n)
    → 0 < n
    → or_zero (parse_cluster_id atoi_error raw) ≡ pos n
unfolding or_zero parse_cluster_id is_positive
or_zero_lem atoi_error raw n h p = ground (arith, eq_iff raw "", atoi-nil)

-- If the client that main builds is one that calls, then the three reconcilers act for one and the
-- same cluster id, which is positive and is what the setting's text denotes.
pub main-cluster_id :
    (atoi_error : String → String) (s : Settings)
    → (main atoi_error s).backend.missing ≡ []
    → (n : ℕ) × (0 < n)
      × (atoi s.cluster_id ≡ some (pos n))
      × ((main atoi_error s).segmentation.cluster_id ≡ pos n)
      × ((main atoi_error s).runtime.cluster_id ≡ pos n)
      × ((main atoi_error s).platform.cluster_id ≡ pos n)
unfolding main
main-cluster_id atoi_error s h =
    let (_, _, (n, denotes, positive)) = (main-configured atoi_error s).0 h in
    (
      n,
      positive,
      denotes,
      or_zero_lem atoi_error s.cluster_id n denotes positive,
      or_zero_lem atoi_error s.cluster_id n denotes positive,
      or_zero_lem atoi_error s.cluster_id n denotes positive,
    )
