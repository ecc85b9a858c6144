-- ===== src/Tests/Requests.antt =====
-- Requests to the server at concrete inputs.
use real_tube.Prelude.{◌+◌, ◌≤◌, ◌≡◌, String, sym, ap, Option, none}
use real_tube.Browser.{Endpoint, Request, Outcome, responded, rejected, truthy}
use real_tube.ApiClient.{fetch_from, fetch_with_retry, get_request}
use real_tube.ApiClient.Rounds.{fetch_with_retry-ends}
use real_tube.ApiClient.Retry.{
  Settled, NoRetryAfter, waited, fetch_with_retry-Settled, waited-fetch_with_retry,
}
use real_tube.Tests.Fixtures.{refusing, waiting}

abbrev asked : Request
asked = get_request "https://realtube.example/api/sync/full"

fetch_with_retry_example :
    Settled
      (refusing 429)
      Endpoint.sync_full
      asked
      4
      waiting
      (fetch_with_retry (refusing 429) Endpoint.sync_full asked waiting)
fetch_with_retry_example = fetch_with_retry-Settled (refusing 429) Endpoint.sync_full asked waiting

-- the header of a response
abbrev header : {A : Type 0} → Outcome A → Option String
header (responded r) = truthy r.retry_after
header (rejected message) = none

refusing-NoRetryAfter : NoRetryAfter (refusing 429) Endpoint.sync_full asked
refusing-NoRetryAfter t r e = sym (ap header e)

waited_example :
    waited (fetch_with_retry (refusing 429) Endpoint.sync_full asked waiting).1.trace ≤ 0 + 7000
waited_example =
    waited-fetch_with_retry (refusing 429) Endpoint.sync_full asked refusing-NoRetryAfter waiting

fetch_with_retry-ends_example :
    fetch_from (refusing 429) (4 + 5) 0 3 Endpoint.sync_full asked waiting
    ≡ fetch_with_retry (refusing 429) Endpoint.sync_full asked waiting
fetch_with_retry-ends_example =
    fetch_with_retry-ends (refusing 429) Endpoint.sync_full asked 5 waiting
