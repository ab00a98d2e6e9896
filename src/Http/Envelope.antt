-- ===== src/Http/Envelope.antt =====
-- The shape of answers: src/common/interceptors/response-envelope.interceptor.ts for what a handler
-- returns and src/common/filters/http-exception.filter.ts for what it throws.
use reedri_end.Base.{ℕ, Bool, Option, none, some, List, String, or_default, if◌then◌else◌}
use reedri_end.Schema.{Time}
use reedri_end.World.{
  World, HttpException, bad_request, unauthorized, forbidden, not_found, conflict, Failure, http,
  prisma, storage_failure, queue_failure, ok, err, M,
}

-- `SuccessResponse`
pub record SuccessResponse {ℓ} (A : Type ℓ) : Type ℓ where
  pub status_code : ℕ
  pub message : String
  pub content : A
  pub path : String
  pub timestamp : Time

-- What goes to the client of what a handler returned.
pub data Body {ℓ} (A : Type ℓ) : Type ℓ where
  bare : Option A → Body A
  wrapped : SuccessResponse A → Body A

-- What the interceptor reads of the handler's decorators and of the request.
pub record Exchange : Type 0 where
  pub is_http : Bool
  pub skip_envelope : Bool
  pub response_message : Option String
  pub status_code : ℕ
  pub headers_sent : Bool
  pub url : String

-- `intercept`, of what the handler returned; `none` is `undefined`.
unfoldable pub intercept {ℓ} : {A : Type ℓ} → Exchange → Time → Option A → Body A
intercept x now none = bare none
intercept x now (some a) =
    if x.is_http
    then (if x.skip_envelope
        then bare (some a)
        else if x.headers_sent
        then bare (some a)
        else wrapped (record {
          status_code = x.status_code;
          message = or_default x.response_message "Success";
          content = a;
          path = x.url;
          timestamp = now;
        }))
    else bare (some a)

-- The body of an `HttpException`: a text, or an object with or without messages.
pub data Message : Type 0 where
  one : String → Message
  many : List String → Message

pub data ExceptionBody : Type 0 where
  text : String → ExceptionBody
  object : Option Message → ExceptionBody

-- What is thrown: an `HttpException`, or anything else.
pub data Exception : Type 0 where
  http_exception :
      (name : String) → (status : ℕ) → (body : ExceptionBody) → (message : String) → Exception
  other_error : Exception

pub record ErrorResponse : Type 0 where
  pub status_code : ℕ
  pub message : Message
  pub error : String
  pub path : String
  pub timestamp : Time

abbrev pub message_of : ExceptionBody → String → Message
message_of (text t) m = one t
message_of (object none) m = one m
message_of (object (some found)) m = found

-- `catch`, without its log.
unfoldable pub catch_exception : Exception → (url : String) → Time → ErrorResponse
catch_exception (http_exception name status body message) url now = record {
  status_code = status;
  message = message_of body message;
  error = name;
  path = url;
  timestamp = now;
}
catch_exception other_error url now = record {
  status_code = 500;
  message = one "Internal server error";
  error = "InternalServerError";
  path = url;
  timestamp = now;
}

-- The exception classes that the services throw, as the framework documents them.
abbrev pub http_exception_of : HttpException → Exception
http_exception_of (bad_request m) =
    http_exception "BadRequestException" 400 (object (some (one m))) m
http_exception_of (unauthorized m) =
    http_exception "UnauthorizedException" 401 (object (some (one m))) m
http_exception_of (forbidden m) = http_exception "ForbiddenException" 403 (object (some (one m))) m
http_exception_of (not_found m) = http_exception "NotFoundException" 404 (object (some (one m))) m
http_exception_of (conflict m) = http_exception "ConflictException" 409 (object (some (one m))) m

abbrev pub exception_of : Failure → Exception
exception_of (http e) = http_exception_of e
exception_of (prisma e) = other_error
exception_of storage_failure = other_error
exception_of queue_failure = other_error

pub data Response {ℓ} (A : Type ℓ) : Type ℓ where
  success : Body A → Response A
  failure : ErrorResponse → Response A

-- A handler that is called in a state, behind the interceptor and the filter. It returns
-- `undefined` as `none`.
unfoldable pub respond {ℓ} : {A : Type ℓ} → Exchange → M (Option A) → World → Response A × World
respond x m w =
    let (r, w') = m w in
    elim r [
      | ok returned ↦ (success (intercept x w'.now returned), w')
      | err e ↦ (failure (catch_exception (exception_of e) x.url w'.now), w')
    ]
