-- ===== src/Watcher/Rpc/Errors.antt =====
-- The taxonomy of provider failures (watcher/rpc/errors.py). Of an `RpcError` the model keeps the
-- class and `retry_after`, which the code branches on; its labels and text are not modelled.
use notchstave.Common.{
  ℕ, ◌≤◌, ◌<◌, ◌≡◌, ◌⊎◌, Bool, true, false, ◌&&◌, ◌||◌, Option, none, some, List, [], ◌∷◌, map,
  arith, leb, ltb, ◌==◌, if◌then◌else◌,
}
use notchstave.Common.Int.{ℤ, negsuc, eq_ℤ}
use notchstave.Common.Text.{codes, to_lower, contains_any}

pub data RpcErrorClass : Type 0 where
  transport timeout rate_limited server_error malformed_response : RpcErrorClass
  range_too_large invalid_request circuit_open budget_exhausted no_provider : RpcErrorClass

pub record RpcError : Type 0 where
  pub error_class : RpcErrorClass
  pub retry_after : Option ℕ

-- `RETRYABLE_SAME_PROVIDER`
unfoldable pub is_retryable : RpcErrorClass → Bool
is_retryable RpcErrorClass.transport = true
is_retryable RpcErrorClass.timeout = true
is_retryable RpcErrorClass.server_error = true
is_retryable _ = false

-- `FAILOVER`
unfoldable pub is_failover : RpcErrorClass → Bool
is_failover RpcErrorClass.transport = true
is_failover RpcErrorClass.timeout = true
is_failover RpcErrorClass.rate_limited = true
is_failover RpcErrorClass.server_error = true
is_failover RpcErrorClass.malformed_response = true
is_failover RpcErrorClass.circuit_open = true
is_failover RpcErrorClass.budget_exhausted = true
is_failover _ = false

-- `COUNTS_AS_PROVIDER_FAILURE`
unfoldable pub is_provider_failure : RpcErrorClass → Bool
is_provider_failure RpcErrorClass.transport = true
is_provider_failure RpcErrorClass.timeout = true
is_provider_failure RpcErrorClass.rate_limited = true
is_provider_failure RpcErrorClass.server_error = true
is_provider_failure RpcErrorClass.malformed_response = true
is_provider_failure _ = false

abbrev pub is_range_too_large : RpcErrorClass → Bool
is_range_too_large RpcErrorClass.range_too_large = true
is_range_too_large _ = false

abbrev pub is_invalid_request : RpcErrorClass → Bool
is_invalid_request RpcErrorClass.invalid_request = true
is_invalid_request _ = false

abbrev pub is_rate_limited : RpcErrorClass → Bool
is_rate_limited RpcErrorClass.rate_limited = true
is_rate_limited _ = false

-- The properties `retryable`, `should_failover`, `should_split_range` and
-- `counts_as_provider_failure`.
unfoldable pub retryable : RpcError → Bool
unfolding is_retryable
retryable e = is_retryable e.error_class

unfoldable pub should_failover : RpcError → Bool
unfolding is_failover
should_failover e = is_failover e.error_class

unfoldable pub should_split_range : RpcError → Bool
should_split_range e = is_range_too_large e.error_class

unfoldable pub counts_as_provider_failure : RpcError → Bool
unfolding is_provider_failure
counts_as_provider_failure e = is_provider_failure e.error_class

abbrev pub range_markers : List (List ℕ)
range_markers = map codes (
    "query returned more than" ∷ "response size exceeded" ∷ "log response size exceeded"
    ∷ "block range" ∷ "range too large" ∷ "exceeds the range" ∷ "too many results"
    ∷ "query timeout exceeded" ∷ "limit exceeded" ∷ [])

abbrev pub rate_markers : List (List ℕ)
rate_markers =
    map codes
      ("rate limit" ∷ "too many requests" ∷ "throughput" ∷ "capacity exceeded" ∷ "quota" ∷ [])

-- -32600, -32601 and -32602
abbrev pub is_request_code : Option ℤ → Bool
is_request_code none = false
is_request_code (some c) = eq_ℤ c (negsuc 32599) || (eq_ℤ c (negsuc 32600) || eq_ℤ c (negsuc 32601))

-- -32005
abbrev pub is_limit_code : Option ℤ → Bool
is_limit_code none = false
is_limit_code (some c) = eq_ℤ c (negsuc 32004)

abbrev pub or_empty : Option (List ℕ) → List ℕ
or_empty none = []
or_empty (some text) = text

unfoldable pub classify_json_rpc_error : Option ℤ → Option (List ℕ) → RpcErrorClass
classify_json_rpc_error code message =
    let text = to_lower (or_empty message) in
    if contains_any range_markers text
    then RpcErrorClass.range_too_large
    else if contains_any rate_markers text
    then RpcErrorClass.rate_limited
    else if is_request_code code
    then RpcErrorClass.invalid_request
    else if is_limit_code code
    then RpcErrorClass.rate_limited
    else RpcErrorClass.server_error

unfoldable pub classify_http_status : ℕ → RpcErrorClass
classify_http_status status =
    if status == 429
    then RpcErrorClass.rate_limited
    else if status == 401 || status == 403
    then RpcErrorClass.invalid_request
    else if status == 413
    then RpcErrorClass.range_too_large
    else if leb 500 status && ltb status 600
    then RpcErrorClass.server_error
    else if leb 400 status && ltb status 500
    then RpcErrorClass.invalid_request
    else RpcErrorClass.server_error

-- A failure that is retried on the same provider counts against its breaker, and one that counts
-- sends the walk on to the next provider; a range to split does none of the three.
pub class_inclusions :
    (e : RpcError)
    → (retryable e ≡ true → counts_as_provider_failure e ≡ true)
      × (counts_as_provider_failure e ≡ true → should_failover e ≡ true)
      × (should_split_range e ≡ true → should_failover e ≡ false)
unfolding retryable counts_as_provider_failure should_failover should_split_range
class_inclusions e = ground arith

-- A client error of the transport other than 429, a rejected key's 401 and 403 included, has a class
-- that is no reason for a failover.
pub http_client_error_ends_walk :
    (status : ℕ) (wait : Option ℕ)
    → 400 ≤ status
    → status < 500
    → (status ≡ 429)
      ⊎ (should_failover (record { error_class = classify_http_status status; retry_after = wait })
          ≡ false)
unfolding classify_http_status should_failover
http_client_error_ends_walk status wait lo hi = ground arith
