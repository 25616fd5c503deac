-- ===== src/Backend/Transport.antt =====
-- internal/backendclient/client.go: Client, its two constructors and `do`. What net/http and
-- encoding/json do below it is a parameter: the round trip, the check of a request's URL and the
-- reading of a text as JSON. A body's encoding cannot fail at the types that the operator sends.
use k8boss_operator.Prelude.{
  ℕ, String, ◌<>◌, ◌||◌, Option, none, some, List, [], ◌∷◌, ◌==◌, ltb, if◌then◌else◌,
  trim_right_slash,
}
use k8boss_operator.Backend.Errors.{unconfigured, api, plain, wrap, Result, ok, err}
use k8boss_operator.Backend.Json.{Json, ◌>>=◌}
use k8boss_operator.Backend.Parse.{parse_api_error, truncate}

pub record Client : Type 0 where
  pub base_url : String
  pub token : String
  pub missing : List String

unfoldable pub new : String → String → Client
unfolding trim_right_slash
new base_url token = record { base_url = trim_right_slash base_url; token = token; missing = [] }

unfoldable pub new_unconfigured : List String → Client
new_unconfigured missing = record { base_url = ""; token = ""; missing = missing }

-- An http.Request. An absent header is `none`.
pub record HttpRequest : Type 0 where
  pub method : String
  pub url : String
  pub content_type : Option String
  pub accept : String
  pub authorization : Option String
  pub body : Option Json

-- How a round trip ends: with no response, with one whose body breaks off, or with a response.
pub data Exchange : Type 0 where
  no_response : String → Exchange
  broken_body : String → Exchange
  response : ℕ → String → Exchange

-- The libraries below the client, over the state `W` of everything outside the operator.
pub record Http (W : Type 0) : Type 0 where
  -- the error of http.NewRequestWithContext, if the method and URL are refused
  pub bad_request : String → String → Option String
  pub round_trip : HttpRequest → W → Exchange × W
  -- the value that a text is, if it is JSON
  pub parse_json : String → Option Json
  -- the text of json.Unmarshal's error on a body
  pub json_error : String → String

unfoldable pub build_request : Client → String → String → Option Json → HttpRequest
build_request c method path body = record {
  method = method;
  url = c.base_url <> path;
  content_type = elim body [ none ↦ none | some j ↦ some "application/json" ];
  accept = "application/json";
  authorization = if c.token == "" then none else some ("Bearer " <> c.token);
  body = body;
}

module _ {W : Type 0} (http : Http W) {A : Type 0} where
  -- What `do` makes of the exchange.
  unfoldable pub read_response : String → String → (Json → Option A) → Exchange → Result A
  read_response method path decode (no_response text) =
      err (wrap ("calling " <> (method <> (" " <> (path <> ": ")))) (plain text) "")
  read_response method path decode (broken_body text) =
      err (wrap ("reading response from " <> (method <> (" " <> (path <> ": ")))) (plain text) "")
  read_response method path decode (response status body) =
      if ltb status 200 || ltb 299 status
      then err (api (parse_api_error status body (http.parse_json body)))
      else elim (http.parse_json body >>= decode) [
        | none ↦ err (
            wrap ("decoding 200 response from " <> (method <> (" " <> (path <> ": "))))
              (plain (http.json_error body)) (" (body: " <> (truncate body <> ")")))
        | some a ↦ ok a
      ]

  -- `do`, with an `out` that is never nil
  unfoldable pub do_request :
      Client → String → String → Option Json → (Json → Option A) → W → Result A × W
  unfolding read_response build_request
  do_request c method path body decode w = elim c.missing [
    | setting ∷ more ↦ (err (unconfigured (setting ∷ more)), w)
    | [] ↦ elim (http.bad_request method (c.base_url <> path)) [
      | some text ↦ (
        err (wrap ("building request " <> (method <> (" " <> (path <> ": ")))) (plain text) ""),
        w,
      )
      | none ↦
          let (exchange, w') = http.round_trip (build_request c method path body) w in
          (read_response method path decode exchange, w')
    ]
  ]
