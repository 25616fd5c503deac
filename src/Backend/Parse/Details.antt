-- ===== src/Backend/Parse/Details.antt =====
-- internal/backendclient/client.go: what parseAPIError reads from each shape of an error response.
use k8boss_operator.Prelude.{
  ℕ, String, ◌≡◌, refl, ◌⊎◌, ◌≢◌, true, Option, none, some, arith, eq_iff, Option-cases, inl, inr,
  ◌==◌, if◌then◌else◌,
}
use k8boss_operator.Backend.Errors.{api, is_paused, is_provider_unavailable}
use k8boss_operator.Backend.Json.{Json, decode_string, str, obj, no_members, member}
use k8boss_operator.Backend.Parse.{
  parse_api_error, from_detail, from_plain, with_message, decode_error_detail,
}

status-from_plain :
    (status : ℕ) (body reason : String) (plain : Option String)
    → (from_plain status body reason plain).status_code ≡ status
unfolding from_plain with_message
status-from_plain status body reason none = refl
status-from_plain status body reason (some m) = refl

status-from_detail :
    (status : ℕ) (body reason : String) (detail : Json)
    → (from_detail status body reason detail).status_code ≡ status
unfolding from_detail
status-from_detail status body reason detail =
    ground (arith, status-from_plain status body reason (decode_string "" detail))

status-parse_api_error_lem :
    (status : ℕ) (body : String) (json : Option Json)
    → (parse_api_error status body json).status_code ≡ status
unfolding parse_api_error with_message
status-parse_api_error_lem status body none = refl
status-parse_api_error_lem status body (some json) =
    elim (Option-cases (decode_error_detail json)) [
      | inl e ↦ rw (e, parse_api_error)
      | inr (env, e) ↦ elim (Option-cases env.detail) [
        | inl d ↦ rw (e, d, parse_api_error)
        | inr (detail, d) ↦
            rw (e, d, parse_api_error) (status-from_detail status body env.reason detail)
      ]
    ]

-- The status of a refused call is kept whatever its body says, so a 423 always reads as paused and
-- a 503 always as an unavailable provider.
pub status-parse_api_error :
    (status : ℕ) (body : String) (json : Option Json)
    → ((parse_api_error status body json).status_code ≡ status)
      × (status ≡ 423 → is_paused (api (parse_api_error status body json)) ≡ true)
      × (status ≡ 503 → is_provider_unavailable (api (parse_api_error status body json)) ≡ true)
unfolding is_paused is_provider_unavailable
status-parse_api_error status body json =
    let e = status-parse_api_error_lem status body json in
    (e, λ s. ground (arith, e), λ s. ground (arith, e))

-- The body {"detail": {"category": …, "code": …, "message": …}}
abbrev pub structured_body : String → String → String → Json
structured_body category code message = obj (
    member "detail"
      (obj (
        member "category" (str category)
          (member "code" (str code) (member "message" (str message) no_members))))
      no_members)

-- The body {"detail": …, "reason": …}
abbrev pub cluster_body : String → String → Json
cluster_body detail reason =
    obj (member "detail" (str detail) (member "reason" (str reason) no_members))

-- A structured error body, with a category or a code that is not empty, is read as it stands.
parse_api_error-structured_body :
    (status : ℕ) (body category code message : String)
    → (category ≢ "") ⊎ (code ≢ "")
    → parse_api_error status body (some (structured_body category code message))
      ≡ record { status_code = status; category = category; code = code; message = message }
unfolding parse_api_error
parse_api_error-structured_body status body category code message h =
    ground (arith, eq_iff category "", eq_iff code "")

-- An error body of the cluster layer, whose detail is a text, is read with that text as the message
-- and its reason as the code, under the category "cluster" if there is a reason.
parse_api_error-cluster_body :
    (status : ℕ) (body detail reason : String)
    → parse_api_error status body (some (cluster_body detail reason)) ≡ record {
      status_code = status;
      category = if reason == "" then "" else "cluster";
      code = reason;
      message = detail;
    }
unfolding parse_api_error
parse_api_error-cluster_body status body detail reason = ground arith
