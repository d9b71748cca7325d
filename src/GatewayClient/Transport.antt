-- ===== src/GatewayClient/Transport.antt =====
-- retryingTransport of internal/infra/gateway/client.go: idempotent requests are sent again after
-- transient failures.
pub mod Retries
use workspace_service.Base.{
  ℕ, zero, suc, ℤ, pos, negsuc, Bool, true, false, not, ◌||◌, ◌&&◌, ◌==◌, ltb, Option, none, some,
  if◌then◌else◌,
}
use workspace_service.Calls.{Call}
use workspace_service.Errors.{Error, Result, ok, err}
use workspace_service.GatewayClient.{
  Method, get, post, patch, delete, GatewayRequest, GatewayResponse,
}

-- The transport below, and the wait behind an attempt: `none` when the timer fires, the error of the
-- context when it is done before.
pub record Network (W : Type 0) : Type 0 where
  pub round_trip : GatewayRequest → Call W GatewayResponse
  pub wait : ℕ → W → Option Error × W

-- NewOptionalGateway's bound on the retries
unfoldable pub max_retries_of : ℤ → ℕ
max_retries_of (negsuc n) = 2
max_retries_of (pos n) = if ltb 10 n then 10 else n

-- isRetriableStatus
unfoldable pub is_retriable_status : ℕ → Bool
is_retriable_status status = status == 502 || status == 503 || status == 504

unfoldable pub is_retriable : Method → Bool
is_retriable get = true
is_retriable delete = true
is_retriable post = false
is_retriable patch = false

-- An answer that is not transient.
unfoldable pub is_settled : Result GatewayResponse → Bool
unfolding is_retriable_status
is_settled (ok response) = not (is_retriable_status response.status_code)
is_settled (err e) = false

after_wait :
    {W : Type 0} → (W → Result GatewayResponse × W) → Option Error × W → Result GatewayResponse × W
after_wait again (none, w) = again w
after_wait again (some e, w) = (err e, w)

module _ {W : Type 0} (net : Network W) (req : GatewayRequest) where
  -- The loop of RoundTrip, with the retries that are left.
  unfoldable pub attempts : ℕ → ℕ → Call W GatewayResponse
  unfolding is_retriable is_settled after_wait
  attempts zero attempt w = net.round_trip req w
  attempts (suc left) attempt w =
      let (answer, w') = net.round_trip req w in
      elim (not (is_retriable req.method) || is_settled answer) [
        | true ↦ (answer, w')
        | false ↦ after_wait (attempts left (suc attempt)) (net.wait attempt w')
      ]

-- retryingTransport.RoundTrip
unfoldable pub round_trip : {W : Type 0} → Network W → ℕ → GatewayRequest → Call W GatewayResponse
unfolding attempts
round_trip net max_retries req = attempts net req max_retries 0
