-- ===== src/Backend/Parse.antt =====
-- internal/backendclient/client.go: parseAPIError and truncate.
pub mod Details
pub mod Truncate
use Prim.Native.String.{len, slice}
use k8boss_operator.Prelude.{
  ℕ, String, ◌<>◌, ◌||◌, not, Option, none, some, ◌==◌, ltb, if◌then◌else◌, trim_space,
}
use k8boss_operator.Backend.Errors.{ApiError}
use k8boss_operator.Backend.Json.{Json, ◌>>=◌, names_field, decode_string, decode_struct}

-- errorDetail. `detail` is a json.RawMessage, which keeps any value, null included.
pub record ErrorDetail : Type 0 where
  pub detail : Option Json
  pub reason : String

pub record StructuredDetail : Type 0 where
  pub category : String
  pub code : String
  pub message : String

set_error_detail : ErrorDetail → String → Json → Option ErrorDetail
unfolding names_field decode_string
set_error_detail r k j =
    if names_field k "detail"
    then some (record r { detail = some j })
    else if names_field k "reason"
    then decode_string r.reason j >>= (λ v. some (record r { reason = v }))
    else some r

unfoldable pub decode_error_detail : Json → Option ErrorDetail
unfolding set_error_detail decode_struct
decode_error_detail = decode_struct set_error_detail (record { detail = none; reason = "" })

set_structured_detail : StructuredDetail → String → Json → Option StructuredDetail
unfolding names_field decode_string
set_structured_detail r k j =
    if names_field k "category"
    then decode_string r.category j >>= (λ v. some (record r { category = v }))
    else if names_field k "code"
    then decode_string r.code j >>= (λ v. some (record r { code = v }))
    else if names_field k "message"
    then decode_string r.message j >>= (λ v. some (record r { message = v }))
    else some r

unfoldable pub decode_structured_detail : Json → Option StructuredDetail
unfolding set_structured_detail decode_struct
decode_structured_detail =
    decode_struct set_structured_detail (record { category = ""; code = ""; message = "" })

-- truncate of a trimmed text: 512 bytes at most, and never an empty text. Where byte 512 falls
-- inside a character, the source keeps the character's first bytes and this leaves it out.
unfoldable pub cut : String → String
cut s =
    if ltb 512 (len s) then slice s 0 512 <> "…" else if s == "" then "(empty response body)" else s

unfoldable pub truncate : String → String
unfolding cut
truncate body = cut (trim_space body)

with_message : ℕ → String → ApiError
with_message status message = record {
  status_code = status;
  category = "";
  code = "";
  message = message;
}

-- The shape of the cluster layer: `detail` is a text, and `reason` the machine key.
from_plain : ℕ → String → String → Option String → ApiError
unfolding with_message truncate
from_plain status body reason none = with_message status (truncate body)
from_plain status body reason (some message) = record {
  status_code = status;
  category = if reason == "" then "" else "cluster";
  code = reason;
  message = message;
}

-- The second and third readings of `detail`
from_detail : ℕ → String → String → Json → ApiError
unfolding from_plain decode_structured_detail decode_string
from_detail status body reason detail =
    let otherwise = from_plain status body reason (decode_string "" detail) in
    elim (decode_structured_detail detail) [
      | none ↦ otherwise
      | some sd ↦
          if not (sd.category == "") || not (sd.code == "")
          then record {
            status_code = status;
            category = sd.category;
            code = sd.code;
            message = sd.message;
          }
          else otherwise
    ]

-- `json` is what the text of the body reads as, if it is JSON.
unfoldable pub parse_api_error : ℕ → String → Option Json → ApiError
unfolding from_detail with_message truncate decode_error_detail
parse_api_error status body json = elim (json >>= decode_error_detail) [
  | none ↦ with_message status (truncate body)
  | some env ↦ elim env.detail [
    | none ↦ with_message status (truncate body)
    | some detail ↦ from_detail status body env.reason detail
  ]
]
