-- ===== src/Client/Failures.antt =====
-- client/src/lib/errors.ts: the message that a page shows for what a promise was rejected with.
use Prim.Native.String.{String}
use ticket_queue_platform.Prelude.{ℕ, Bool, if◌then◌else◌, Option, none, some}

pub record Failure : Type 0 where
  -- `axios.isAxiosError(err)` and `err instanceof Error`
  pub is_axios : Bool
  pub is_error : Bool
  -- `err.response?.status` and `err.response?.data?.message`
  pub status : Option ℕ
  pub server_message : Option String
  pub message : String
  -- `err.code`
  pub code : Option String

-- `o ?? fallback`
abbrev pub default {ℓ} : {A : Type ℓ} → A → Option A → A
default fallback none = fallback
default fallback (some a) = a

unfoldable pub get_error_message : Failure → String → String
get_error_message e fallback =
    if e.is_axios
    then default fallback e.server_message
    else if e.is_error
    then e.message
    else fallback
