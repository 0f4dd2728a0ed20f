-- ===== src/Domain/Errors.antt =====
-- backend-api/internal/domain/errors.go: AppError with its constructors and sentinel values, and
-- the Go `error` values that the services pass around.
use code_intelegence.Base.{ℕ, String, Bool, true, false, List, []}

pub record AppError : Type 0 where
  pub status : ℕ
  pub code : String
  pub message : String
  pub details : List (String × String)

pub new_app_error : ℕ → String → String → AppError
new_app_error status code message = record {
  status = status;
  code = code;
  message = message;
  details = [];
}

abbrev pub err_not_found : AppError
err_not_found = record { status = 404; code = "not_found"; message = "not found"; details = [] }

abbrev pub err_conflict : AppError
err_conflict = record {
  status = 409;
  code = "conflict";
  message = "resource already exists";
  details = [];
}

abbrev pub err_bad_request : AppError
err_bad_request = record {
  status = 400;
  code = "bad_request";
  message = "invalid request";
  details = [];
}

abbrev pub err_forbidden : AppError
err_forbidden = record { status = 403; code = "forbidden"; message = "forbidden"; details = [] }

abbrev pub err_unauthorized : AppError
err_unauthorized = record {
  status = 401;
  code = "unauthorized";
  message = "authentication required";
  details = [];
}

abbrev pub err_internal : AppError
err_internal = record {
  status = 500;
  code = "internal_error";
  message = "internal server error";
  details = [];
}

abbrev pub err_validation : AppError
err_validation = record {
  status = 422;
  code = "validation_error";
  message = "validation failed";
  details = [];
}

-- The constructors that keep a sentinel's status and code under a message of their own.
abbrev pub not_found : String → AppError
not_found msg = record err_not_found { message = msg }

abbrev pub conflict : String → AppError
conflict msg = record err_conflict { message = msg }

abbrev pub forbidden : String → AppError
forbidden msg = record err_forbidden { message = msg }

abbrev pub bad_request : String → AppError
bad_request msg = record err_bad_request { message = msg }

abbrev pub unauthorized : String → AppError
unauthorized msg = record err_unauthorized { message = msg }

abbrev pub validation_error : List (String × String) → AppError
validation_error fields = record err_validation { details = fields }

-- A Go `error`: an AppError, a driver error that the code tells apart, any other, or a wrapping by
-- `fmt.Errorf("...: %w", err)`.
pub data GoError : Type 0 where
  app : AppError → GoError
  no_rows unique_violation deadlock cancelled : GoError
  other : String → GoError
  wrap : String → GoError → GoError

-- errors.Is(err, pgx.ErrNoRows): looks through wrappings.
abbrev pub is_no_rows : GoError → Bool
is_no_rows no_rows = true
is_no_rows (wrap msg e) = is_no_rows e
is_no_rows _ = false

-- postgres.IsUniqueViolation and postgres.IsDeadlock: errors.As over the SQLSTATE.
abbrev pub is_unique_violation : GoError → Bool
is_unique_violation unique_violation = true
is_unique_violation (wrap msg e) = is_unique_violation e
is_unique_violation _ = false

abbrev pub is_deadlock : GoError → Bool
is_deadlock deadlock = true
is_deadlock (wrap msg e) = is_deadlock e
is_deadlock _ = false

-- A Go function's `(value, error)` pair, of which exactly one half is meant.
pub data Result (E : Type 0) (A : Type 0) : Type 0 where
  ok : A → Result E A
  err : E → Result E A

-- `if appErr, ok := err.(*domain.AppError); ok { return appErr }; return domain.ErrInternal`: the
-- type assertion does not look through wrappings.
abbrev pub app_error_of : GoError → AppError
app_error_of (app e) = e
app_error_of _ = err_internal
