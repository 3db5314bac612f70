-- ===== src/Utils/Tests.antt =====
-- Retries of src/common/utils.rs against a function that mends at its third call.
use minikv.Prelude.{ℕ, ◌≡◌, refl, arith, [], ◌∷◌, leb, if◌then◌else◌}
use minikv.Errors.{Result, ok, err, timeout, is_retryable, invalid_config}
use minikv.Utils.{retry_with_backoff, retry_loop, validate_key, has_control}
use minikv.Utils.Retry.{IsRetried, retry_with_backoff-IsRetried}

abbrev mends : ℕ → Result ℕ
mends n = if leb 2 n then ok n else err (timeout "later")

retry_with_backoff-IsRetried_example : IsRetried mends 5 0 100 (retry_with_backoff mends 5 100)
retry_with_backoff-IsRetried_example = retry_with_backoff-IsRetried mends 5 100 (omega arith)

retry_with_backoff_test :
    retry_with_backoff mends 5 100 ≡ record { result = ok 2; sleeps = 100 ∷ 200 ∷ []; calls = 3 }
unfolding retry_with_backoff retry_loop is_retryable
retry_with_backoff_test = refl

validate_key_test :
    validate_key (0x61 ∷ 0xc2 ∷ 0x85 ∷ []) ≡ err (invalid_config "key contains invalid characters")
unfolding validate_key has_control
validate_key_test = refl
