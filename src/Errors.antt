-- ===== src/Errors.antt =====
-- src/utils/errors.ts: the errors that services throw. A message is the source's text; the one
-- template message keeps its hole. What is no `AppError` is a failure of a call to a store, or a
-- property read on null.
use Prim.Native.Nat.{ℕ}
use Prim.Native.String.{String}

pub data Message : Type 0 where
  text : String → Message
  time_left : ℕ → Message

pub data Error : Type 0 where
  app_error : ℕ → Message → Error
  unavailable : Error
  record_not_found : Error
  unique_violation : Error
  type_error : Error
  -- a loop of the model ran out of fuel; no run ends so, see Queue/Counting.antt
  out_of_fuel : Error
