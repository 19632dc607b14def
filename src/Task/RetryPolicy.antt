-- ===== src/Task/RetryPolicy.antt =====
-- The retry policy (apps/canvas-api/src/task/retry-policy.ts) and the error codes that it reads
-- (packages/shared-types/src/error-codes.ts).
pub mod Bounds
use xg_canvas.Prelude.{
  leb, ◌==◌, nat_eq, string_eq, if◌then◌else◌, any, ℕ, ◌*◌, ◌^◌, min, String, Bool, true, false,
  not, ◌||◌, List, [], ◌∷◌,
}

unfoldable pub error_codes : List String
error_codes =
    "VALIDATION_FAILED" ∷ "CONSTRAINT_VIOLATION" ∷ "UNAUTHORIZED" ∷ "FORBIDDEN" ∷ "NOT_FOUND"
    ∷ "CONFLICT" ∷ "CATALOG_RESOURCE_READ_ONLY" ∷ "CATALOG_REVISION_CONFLICT"
    ∷ "CATALOG_RESOURCE_IN_USE" ∷ "PAYLOAD_TOO_LARGE" ∷ "RATE_LIMITED" ∷ "TASK_NOT_FOUND"
    ∷ "TASK_ALREADY_TERMINAL" ∷ "INVOKE_OUTCOME_UNKNOWN" ∷ "INVOKE_RESULT_LOST"
    ∷ "CATALOG_REVISION_MISSING" ∷ "MODEL_NOT_FOUND" ∷ "MODEL_DISABLED" ∷ "CHANNEL_UNAVAILABLE"
    ∷ "CREDENTIAL_INVALID" ∷ "QUOTA_EXCEEDED" ∷ "ADAPTER_INTERNAL" ∷ "VENDOR_TIMEOUT"
    ∷ "VENDOR_REJECTED" ∷ "VENDOR_CONTENT_FILTERED" ∷ "VENDOR_UNAVAILABLE" ∷ "ASSET_DOWNLOAD_FAILED"
    ∷ "ASSET_TOO_LARGE" ∷ "STORAGE_UNAVAILABLE" ∷ "CLI_UNREACHABLE" ∷ "CLI_LOGIN_REQUIRED"
    ∷ "CLI_INVOCATION_FAILED" ∷ "INTERNAL_ERROR" ∷ []

unfoldable pub retryable : List String
retryable =
    "RATE_LIMITED" ∷ "VENDOR_TIMEOUT" ∷ "VENDOR_UNAVAILABLE" ∷ "STORAGE_UNAVAILABLE"
    ∷ "CLI_UNREACHABLE" ∷ "ASSET_DOWNLOAD_FAILED" ∷ []

unfoldable pub is_retryable : String → Bool
unfolding retryable
is_retryable code = any (λ c. c == code) retryable

pub record RetryDecision : Type 0 where
  pub retry : Bool
  pub delay_ms : ℕ
  pub max_attempts : ℕ

abbrev pub max_attempts : ℕ
max_attempts = 3

unfoldable pub is_known : String → Bool
unfolding error_codes
is_known code = any (λ c. c == code) error_codes

abbrev pub backoff : ℕ → ℕ
backoff current_attempts = min 30000 (2000 * 4 ^ current_attempts)

unfoldable pub decide_retry : String → ℕ → RetryDecision
decide_retry code current_attempts =
    let can = if is_known code then is_retryable code else false in
    if not can || leb max_attempts current_attempts
    then record { retry = false; delay_ms = 0; max_attempts = max_attempts }
    else record { retry = true; delay_ms = backoff current_attempts; max_attempts = max_attempts }
