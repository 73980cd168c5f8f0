-- ===== src/Errors.antt =====
-- src/error.rs: the errors of the handlers and their HTTP status.
use orcusapi.Base.{ℕ, String, [], ◌∷◌}
use orcusapi.Base.Text.{append}
use orcusapi.Json.{Json, string, obj}

pub data AppError : Type 0 where
  bad_request not_found method_not_allowed upstream internal : String → AppError

abbrev pub message : AppError → String
message (bad_request m) = m
message (not_found m) = m
message (method_not_allowed m) = m
message (upstream m) = m
message (internal m) = m

abbrev pub status : AppError → ℕ
status (bad_request m) = 400
status (not_found m) = 404
status (method_not_allowed m) = 405
status (upstream m) = 502
status (internal m) = 500

-- `into_response`: the status and the body
unfoldable pub into_response : AppError → ℕ × Json
into_response e = (status e, obj (("error", string (message e)) ∷ []))

-- `Display`
unfoldable pub display : AppError → String
display (bad_request m) = append "bad request: " m
display (not_found m) = append "not found: " m
display (method_not_allowed m) = append "method not allowed: " m
display (upstream m) = append "upstream error: " m
display (internal m) = append "internal error: " m
