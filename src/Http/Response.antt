-- ===== src/Http/Response.antt =====
-- src/utils/response.ts and src/middlewares/error.middleware.ts: the envelope of a response, and what
-- an error becomes. Validation is zod's: a handler gets what the parse of its body returned.
use Prim.Native.String.{String}
use ticket_queue_platform.Prelude.{ℕ, Bool, true, false, Option, none, some, List, Action, ok, err}
use ticket_queue_platform.Errors.{Error, Message, app_error, text}
use ticket_queue_platform.Platform.{Platform, World}
use ticket_queue_platform.Auth.Middleware.{AuthUser, Header, require_auth, require_admin}

-- `Dto.parse(body)`: the input, or the messages of the issues that a `ZodError` carries
pub data Parsed (A : Type 0) : Type 0 where
  valid : A → Parsed A
  invalid : List String → Parsed A

-- the text of a message, or the messages of the issues, joined
pub data Note : Type 0 where
  said : Message → Note
  joined : List String → Note

pub record Response (A : Type 0) : Type 0 where
  pub status : ℕ
  pub success : Bool
  pub data_ : Option A
  pub message : Option Note

module _ {A : Type 0} where
  abbrev pub success_response : ℕ → Option A → Option Note → Response A
  success_response status payload message = record {
    status = status;
    success = true;
    data_ = payload;
    message = message;
  }

  abbrev pub error_response : ℕ → Note → Response A
  error_response status message = record {
    status = status;
    success = false;
    data_ = none;
    message = some message;
  }

  -- `errorHandler`, for what services throw
  abbrev pub error_handler : Error → Response A
  error_handler (app_error status message) = error_response status (said message)
  error_handler _ = error_response 500 (said (text "서버 오류가 발생했습니다"))

  -- `errorHandler`, for a `ZodError`
  abbrev pub issues_handler : List String → Response A
  issues_handler issues = error_response 400 (joined issues)

-- A request handler, with the error handler behind it.
abbrev pub Handler : Platform → Type 0 → Type 0
Handler p A = World p → Response A × World p

module _ {p : Platform} {A : Type 0} where
  -- `const x = await service(...); res.status(n).json(successResponse(shown(x), message))`
  abbrev pub answer :
      {B : Type 0} → ℕ → (B → Option A) → Option Note → Action (World p) B → Handler p A
  answer status shown message service w =
      let (r, v) = service w in
      elim r [
        | ok b ↦ (success_response status (shown b) message, v)
        | err e ↦ (error_handler e, v)
      ]

  abbrev pub with_body : {B : Type 0} → Parsed B → (B → Handler p A) → Handler p A
  with_body (valid input) handler w = handler input w
  with_body (invalid issues) handler w = (issues_handler issues, w)

  -- a guard before a handler
  abbrev pub guarded : {B : Type 0} → Action (World p) B → (B → Handler p A) → Handler p A
  guarded guard handler w =
      let (r, v) = guard w in elim r [ ok b ↦ handler b v | err e ↦ (error_handler e, v) ]

  abbrev pub as_user : Header p.crypto.Token → (AuthUser → Handler p A) → Handler p A
  as_user header = guarded (require_auth header)

  abbrev pub as_admin : Header p.crypto.Token → (AuthUser → Handler p A) → Handler p A
  as_admin header handler =
      as_user header (λ user. guarded (require_admin (some user)) (λ _. handler user))
