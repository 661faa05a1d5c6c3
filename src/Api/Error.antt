-- ===== src/Api/Error.antt =====
-- The errors of src/api/mod.rs, with their HTTP status.
use evorule_rule.Prelude.{ℕ, String}

pub record ApiError : Type 0 where
  pub status : ℕ
  pub code : String
  pub message : String

abbrev pub bad_request : String → ApiError
bad_request message = record { status = 400; code = "bad_request"; message = message }

abbrev pub unauthorized : String → ApiError
unauthorized message = record { status = 401; code = "unauthorized"; message = message }

abbrev pub conflict : String → ApiError
conflict message = record { status = 409; code = "conflict"; message = message }
