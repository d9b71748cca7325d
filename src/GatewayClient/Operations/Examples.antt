-- ===== src/GatewayClient/Operations/Examples.antt =====
-- Runs of the client: a gateway that is unavailable twice, and the path of an id with a slash.
use workspace_service.Base.{
  ◌≡◌, refl, ◌≤◌, ◌⊎◌, ℕ, zero, suc, ◌+◌, pos, true, false, not, ◌||◌, codes, none, [],
}
use workspace_service.Errors.{Result, ok}
use workspace_service.GatewayClient.{GatewayRequest, GatewayResponse, get}
use workspace_service.GatewayClient.Paths.{
  session_path, kernel_path, sessions_endpoint, kernels_endpoint,
}
use workspace_service.GatewayClient.Paths.Segments.{
  IsOneSegment, are_runes, session_path-IsOneSegment,
}
use workspace_service.GatewayClient.Transport.{
  Network, is_retriable, is_settled, round_trip, max_retries_of,
}
use workspace_service.GatewayClient.Transport.Retries.{
  counting, round_trip-IsBounded, round_trip-IsFinal,
}

abbrev response : ℕ → GatewayResponse
response status = record { status_code = status; content_type = codes ""; body = codes "" }

-- Unavailable until the state is used up.
abbrev answer_at : ℕ → Result GatewayResponse × ℕ
answer_at zero = (ok (response 200), zero)
answer_at (suc n) = (ok (response 503), n)

abbrev network : Network ℕ
network = record { round_trip = λ req. answer_at; wait = λ n w. (none, w) }

abbrev list_request : GatewayRequest
list_request = record { method = get; path = codes "/api/kernels"; body = none; headers = [] }

third_time : round_trip (counting network) 2 list_request (2, 0) ≡ (ok (response 200), (0, 3))
unfolding round_trip is_retriable is_settled
third_time = refl

round_trip-IsBounded_example :
    ((round_trip (counting network) (max_retries_of (pos 50)) list_request (2, 0)).1.1 ≤ 0 + 11)
    × (is_retriable list_request.method ≡ false
        → (round_trip (counting network) (max_retries_of (pos 50)) list_request (2, 0)).1.1 ≡ 1)
round_trip-IsBounded_example = round_trip-IsBounded network (pos 50) list_request 2 0

round_trip-IsFinal_example :
    (not (is_retriable list_request.method)
        || is_settled (round_trip (counting network) 2 list_request (2, 0)).0
      ≡ true)
    ⊎ ((round_trip (counting network) 2 list_request (2, 0)).1.1 ≡ suc 0 + 2)
round_trip-IsFinal_example = round_trip-IsFinal network list_request (λ n w. refl) 2 2 0

up_runes : are_runes (codes "../kernels/k 1") ≡ true
unfolding are_runes
up_runes = refl

session_path-IsOneSegment_example :
    IsOneSegment sessions_endpoint (codes "../kernels/k 1") (session_path (codes "../kernels/k 1"))
    × IsOneSegment kernels_endpoint (codes "../kernels/k 1") (kernel_path (codes "../kernels/k 1"))
session_path-IsOneSegment_example = session_path-IsOneSegment (codes "../kernels/k 1") up_runes
