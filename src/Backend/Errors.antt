-- ===== src/Backend/Errors.antt =====
-- The failures of the endpoints: `ApiError` of backend/src/ledgergraph_api/errors.py with the codes
-- that the modelled routers raise, and the refusals of deps.py.
use ai_finance_controller.Common.{ℕ}

pub data ApiError : Type 0 where
  weak_password email_taken invalid_credentials no_refresh_cookie refresh_invalid : ApiError
  refresh_reused refresh_expired account_unavailable : ApiError
  user_not_found cannot_change_own_role cannot_deactivate_self : ApiError
  missing_token token_expired token_invalid unknown_subject account_inactive : ApiError
  insufficient_role not_found already_decided controller_approval_required : ApiError
  not_a_human_resolution reason_code_required validation_failed : ApiError
  unknown_dataset file_too_large no_data run_in_progress invalid_cursor : ApiError

-- The HTTP status that goes with each.
unfoldable pub status_code : ApiError → ℕ
status_code weak_password = 422
status_code email_taken = 409
status_code user_not_found = 404
status_code cannot_change_own_role = 409
status_code cannot_deactivate_self = 409
status_code insufficient_role = 403
status_code not_found = 404
status_code already_decided = 409
status_code controller_approval_required = 403
status_code not_a_human_resolution = 422
status_code reason_code_required = 422
status_code validation_failed = 422
status_code unknown_dataset = 422
status_code file_too_large = 413
status_code no_data = 409
status_code run_in_progress = 409
status_code invalid_cursor = 400
status_code _ = 401
