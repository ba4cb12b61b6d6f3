-- ===== src/Exceptions.antt =====
-- What the services throw: `NotFoundException` and `ConflictException` of Nest, `Error`, and
-- `QueryFailedError`, which is what TypeORM throws.
use order_orchestrator.Base.{String, text_append}

pub data Exception : Type 0 where
  not_found : String → Exception
  conflict : String → Exception
  error : String → Exception
  query_failed : String → Exception

-- `error instanceof Error ? error.message : String(error)`; all that is thrown is an `Error`.
abbrev pub message : Exception → String
message (Exception.not_found m) = m
message (Exception.conflict m) = m
message (Exception.error m) = m
message (Exception.query_failed m) = m

-- `String(error)`: the name of the class, and the message.
abbrev pub describe : Exception → String
describe (Exception.not_found m) = text_append "NotFoundException: " m
describe (Exception.conflict m) = text_append "ConflictException: " m
describe (Exception.error m) = text_append "Error: " m
describe (Exception.query_failed m) = text_append "QueryFailedError: " m

pub data Result (A : Type 0) : Type 0 where
  ok : A → Result A
  err : Exception → Result A
