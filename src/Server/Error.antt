-- ===== src/Server/Error.antt =====
-- server/src/error.rs. A message is the literal of the source; the one message that the server
-- formats from numbers, of `validate_remote_port`, keeps the numbers.
use Prim.Native.String.{String}
use tunnelbridge.Prelude.{ℕ}

pub data Message : Type 0 where
  literal : String → Message
  port_range : ℕ → ℕ → Message

-- The error that an `Internal` wraps is only logged.
pub data AppError : Type 0 where
  bad_request : Message → AppError
  unauthorized forbidden not_found : AppError
  conflict : String → AppError
  internal : AppError

pub record ApiError : Type 0 where
  pub status : ℕ
  pub code : String
  pub message : Message

-- `AppError::into_response`.
unfoldable pub into_response : AppError → ApiError
into_response (bad_request message) = record {
  status = 400;
  code = "bad_request";
  message = message;
}
into_response unauthorized = record {
  status = 401;
  code = "unauthorized";
  message = literal "Authentication required";
}
into_response forbidden = record { status = 403; code = "forbidden"; message = literal "Forbidden" }
into_response not_found = record { status = 404; code = "not_found"; message = literal "Not found" }
into_response (conflict message) = record {
  status = 409;
  code = "conflict";
  message = literal message;
}
into_response internal = record {
  status = 500;
  code = "internal_error";
  message = literal "Internal server error";
}
