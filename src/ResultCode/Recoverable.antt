-- ===== src/ResultCode/Recoverable.antt =====
-- Which conversions of operating system errors are recoverable.
use content_analysis_sdk.Prelude.{ℕ, ◌≡◌, ◌↔◌, ◌⊎◌, true, false, arith}
use content_analysis_sdk.ResultCode.{
  ResultCode, ok, code_eq, is_recoverable_error, error_to_result_code, error_access_denied,
  error_invalid_name, error_success,
}

pub code_eq→eq : (a b : ResultCode) → code_eq a b ≡ true → a ≡ b
code_eq→eq a b h = ground arith

-- Only a refused access and an invalid name are converted to an unrecoverable code, and only
-- `ERROR_SUCCESS` is converted to `OK`.
pub error_to_result_code_classes :
    (err : ℕ)
    → ((is_recoverable_error (error_to_result_code err) ≡ false)
        ↔ ((err ≡ error_access_denied) ⊎ (err ≡ error_invalid_name)))
      × ((error_to_result_code err ≡ ok) ↔ (err ≡ error_success))
unfolding is_recoverable_error error_to_result_code
error_to_result_code_classes err = ground arith
