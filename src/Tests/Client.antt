-- ===== src/Tests/Client.antt =====
-- The client of the control plane run on a few responses.
use k8boss_operator.Prelude.{◌≤◌, ◌≡◌, ◌≢◌, ◌↔◌, true, none, []}
use Prim.Native.String.{len}
use k8boss_operator.Backend.Errors.{ok}
use k8boss_operator.Backend.Decode.{decode_paused_state}
use k8boss_operator.Backend.Parse.{truncate}
use k8boss_operator.Backend.Parse.Truncate.{truncate_bounds}
use k8boss_operator.Backend.Transport.{Client, build_request, do_request}
use k8boss_operator.Backend.Answers.{do_request-eq-ok, IsSuccess}
use k8boss_operator.Tests.Cluster.{refusing_http}

abbrev client : Client
client = record { base_url = "https://plane"; token = "t"; missing = [] }

do_request-eq-ok_example :
    ((do_request refusing_http client "GET" "/p" none decode_paused_state tt).0
      ≡ ok (record { paused = true; updated_at = none; updated_by = none; ever_set = true }))
    ↔ ((client.missing ≡ [])
        × (refusing_http.bad_request "GET" "https://plane/p" ≡ none)
        × IsSuccess refusing_http decode_paused_state
            (record { paused = true; updated_at = none; updated_by = none; ever_set = true })
            (refusing_http.round_trip (build_request client "GET" "/p" none) tt).0)
do_request-eq-ok_example =
    do_request-eq-ok refusing_http "GET" "/p" decode_paused_state client none tt
      (record { paused = true; updated_at = none; updated_by = none; ever_set = true })

truncate_bounds_example : (len (truncate "  bad gateway ") ≤ 515) × (truncate "  bad gateway " ≢ "")
truncate_bounds_example = truncate_bounds "  bad gateway "
