-- ===== src/Shared/Response.antt =====
-- shared/dto/base.dto.ts: the answer of every route, and the errors that carry parameters.
use codebase_be_nestjs.Common.{String, Option, List}

-- `result_data` is the property `data` where it counts as true, and else none: 0, false, null and an
-- empty text are as though it were not there.
pub record ErrorDetailWithParams (D : Type 0) : Type 0 where
  pub code : String
  pub params : List (String × String)
  pub result_data : Option D

pub record ResponseDto (D E : Type 0) : Type 0 where
  pub result_data : D
  pub message : String
  pub system_code : String
  pub debug_error : Option E
