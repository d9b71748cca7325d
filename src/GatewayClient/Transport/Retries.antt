-- ===== src/GatewayClient/Transport/Retries.antt =====
-- How often a request is sent, and that no transient answer is taken before the retries are used up.
use workspace_service.Base.{
  ◌≡◌, refl, ◌≤◌, ℕ, ℤ, pos, negsuc, zero, suc, ◌+◌, ◌⊎◌, inl, inr, Bool, true, false, not, ◌||◌,
  Bool-cases, Option, none, some, arith,
}
use workspace_service.Errors.{Error, Result}
use workspace_service.GatewayClient.{GatewayRequest, GatewayResponse}
use workspace_service.GatewayClient.Transport.{
  Network, attempts, after_wait, is_retriable, is_settled, round_trip, max_retries_of,
}

-- The network that counts the requests it carries.
abbrev pub counting : {W : Type 0} → Network W → Network (W × ℕ)
counting net = record {
  round_trip = λ req v. let (answer, w) = net.round_trip req v.0 in (answer, (w, suc v.1));
  wait = λ n v. let (cancelled, w) = net.wait n v.0 in (cancelled, (w, v.1));
}

-- The requests that were carried, before them k.
abbrev IsBounded : {W : Type 0} → Bool → ℕ → ℕ → Result GatewayResponse × (W × ℕ) → Type 0
IsBounded retriable left k out = (out.1.1 ≤ suc k + left) × (retriable ≡ false → out.1.1 ≡ suc k)

module _ {W : Type 0} (net : Network W) (req : GatewayRequest) where
  after_wait-IsBounded :
      (left attempt k : ℕ) (cancelled : Option Error) (v : W × ℕ)
      → v.1 ≡ suc k
      → is_retriable req.method ≡ true
      → ((w : W × ℕ)
          → IsBounded
              (is_retriable req.method)
              left
              w.1
              (attempts (counting net) req left attempt w))
      → IsBounded
          (is_retriable req.method)
          (suc left)
          k
          (after_wait (attempts (counting net) req left attempt) (cancelled, v))
  unfolding after_wait
  after_wait-IsBounded left attempt k none v h r again =
      (omega (arith, (again v).0), λ no. absurd (cc (r, no)))
  after_wait-IsBounded left attempt k (some e) v h r again =
      (omega arith, λ no. absurd (cc (r, no)))

  attempts-IsBounded :
      (left attempt : ℕ) (v : W × ℕ)
      → IsBounded (is_retriable req.method) left v.1 (attempts (counting net) req left attempt v)
  unfolding attempts
  attempts-IsBounded zero attempt v = (omega arith, λ _. refl)
  attempts-IsBounded (suc left) attempt v =
      let answered = (counting net).round_trip req v in
      elim (Bool-cases (not (is_retriable req.method) || is_settled answered.0)) [
        | inl stop ↦ rw (attempts, stop) (omega arith, λ _. refl)
        | inr again ↦
            rw (attempts, again)
              (after_wait-IsBounded left (suc attempt) v.1 (net.wait attempt answered.1.0).0
                ((net.wait attempt answered.1.0).1, answered.1.1) refl (ground arith)
                λ w. attempts-IsBounded left (suc attempt) w)
      ]

max_retries_of-bounded : (n : ℤ) → max_retries_of n ≤ 10
unfolding max_retries_of
max_retries_of-bounded (negsuc n) = omega arith
max_retries_of-bounded (pos n) = ground arith

-- Whatever number of retries is configured, a request to the gateway is sent at most eleven
-- times, and exactly once when its method is not GET or DELETE.
pub round_trip-IsBounded :
    {W : Type 0} (net : Network W) (configured : ℤ) (req : GatewayRequest) (w : W) (k : ℕ)
    → let sent = (round_trip (counting net) (max_retries_of configured) req (w, k)).1.1 in
      (sent ≤ k + 11) × (is_retriable req.method ≡ false → sent ≡ suc k)
unfolding round_trip
round_trip-IsBounded net configured req w k =
    let (most, once) = attempts-IsBounded net req (max_retries_of configured) 0 (w, k) in
    (omega (arith, most, max_retries_of-bounded configured), once)

-- The answer is settled, or the request is not sent twice, or every retry is used up.
abbrev IsFinal : {W : Type 0} → Bool → ℕ → ℕ → Result GatewayResponse × (W × ℕ) → Type 0
IsFinal retriable left k out = (not retriable || is_settled out.0 ≡ true) ⊎ (out.1.1 ≡ suc k + left)

module _ {W : Type 0} (net : Network W) (req : GatewayRequest)
    (waits : (n : ℕ) (w : W) → (net.wait n w).0 ≡ none) where
  after_wait-IsFinal :
      (left attempt k : ℕ) (cancelled : Option Error) (v : W × ℕ)
      → cancelled ≡ none
      → v.1 ≡ suc k
      → ((w : W × ℕ)
          → IsFinal (is_retriable req.method) left w.1 (attempts (counting net) req left attempt w))
      → IsFinal
          (is_retriable req.method)
          (suc left)
          k
          (after_wait (attempts (counting net) req left attempt) (cancelled, v))
  unfolding after_wait
  after_wait-IsFinal left attempt k (some e) v h n again = absurd (cc h)
  after_wait-IsFinal left attempt k none v h n again = elim (again v) [
    | inl settled ↦ inl settled
    | inr used ↦ inr (omega (arith, used, n))
  ]

  attempts-IsFinal :
      (left attempt : ℕ) (v : W × ℕ)
      → IsFinal (is_retriable req.method) left v.1 (attempts (counting net) req left attempt v)
  unfolding attempts
  attempts-IsFinal zero attempt v = inr (omega arith)
  attempts-IsFinal (suc left) attempt v =
      let answered = (counting net).round_trip req v in
      elim (Bool-cases (not (is_retriable req.method) || is_settled answered.0)) [
        | inl stop ↦ rw (attempts, stop) (inl stop)
        | inr again ↦
            rw (attempts, again)
              (after_wait-IsFinal left (suc attempt) v.1 (net.wait attempt answered.1.0).0
                ((net.wait attempt answered.1.0).1, answered.1.1) (waits attempt answered.1.0) refl
                λ w. attempts-IsFinal left (suc attempt) w)
      ]

  -- When no wait is cut off by its context, the answer to a GET or DELETE request is neither an
  -- error of the transport nor a status of 502, 503 or 504, unless the request was sent one time
  -- more than there are retries.
  pub round_trip-IsFinal :
      (max_retries : ℕ) (w : W) (k : ℕ)
      → let out = round_trip (counting net) max_retries req (w, k) in
        (not (is_retriable req.method) || is_settled out.0 ≡ true) ⊎ (out.1.1 ≡ suc k + max_retries)
  unfolding round_trip
  round_trip-IsFinal max_retries w k = attempts-IsFinal max_retries 0 (w, k)
