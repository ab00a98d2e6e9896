-- ===== src/Http/Api/Told.antt =====
-- What the client is told of a request (src/common/interceptors/response-envelope.interceptor.ts and
-- src/common/filters/http-exception.filter.ts, around the controllers under src/).
use reedri_end.Base.{ℕ, ◌≡◌, ◌⊎◌, Bool, true, false, Option, none, some, String, or_default}
use reedri_end.Schema.{Time}
use reedri_end.World.{
  World, ok, err, http, Result, HttpException, bad_request, unauthorized, forbidden, not_found,
  conflict,
}
use reedri_end.Http.{answered}
use reedri_end.Http.Envelope.{
  Exchange, Response, ErrorResponse, one, success, failure, bare, wrapped, respond,
}
use reedri_end.Http.{Claims}
use reedri_end.Http.Api.{
  Answer, Server, Request, serve, nothing, asks_code, asks_logout, asks_reset,
}

-- The routes whose handlers return nothing: `@HttpCode(HttpStatus.NO_CONTENT)`.
abbrev pub is_void : Request → Bool
is_void (asks_logout t) = true
is_void (asks_code phone) = true
is_void (asks_reset phone code new_password) = true
is_void _ = false

-- What a handler gives to the interceptor; `none` is `undefined`.
abbrev pub returned : Answer → Option Answer
returned nothing = none
returned a = some a

abbrev is_nothing : Answer → Bool
is_nothing nothing = true
is_nothing _ = false

-- A request behind the interceptor and the filter.
unfoldable pub tell : Server → Exchange → Option Claims → Request → World → Response Answer × World
unfolding respond
tell s x token q = respond x (answered returned (serve s token q))

-- The status of an exception class, as HTTP has it.
abbrev pub status_of : HttpException → ℕ
status_of (bad_request m) = 400
status_of (unauthorized m) = 401
status_of (forbidden m) = 403
status_of (not_found m) = 404
status_of (conflict m) = 409

abbrev pub text_of : HttpException → String
text_of (bad_request m) = m
text_of (unauthorized m) = m
text_of (forbidden m) = m
text_of (not_found m) = m
text_of (conflict m) = m

-- What the client is told of the result of a request.
abbrev pub IsTold : Exchange → Request → Result Answer → Time → Response Answer → Type 0
IsTold x q (ok a) now r =
    ((is_void q ≡ true) × (r ≡ success (bare none)))
    ⊎ ((is_void q ≡ false)
        × (r
            ≡ success (
                wrapped (record {
                  status_code = x.status_code;
                  message = or_default x.response_message "Success";
                  content = a;
                  path = x.url;
                  timestamp = now;
                }))))
IsTold x q (err (http e)) now r =
    (f : ErrorResponse) × (r ≡ failure f)
    × (f.status_code ≡ status_of e)
    × (f.message ≡ one (text_of e))
    × (f.path ≡ x.url)
IsTold x q (err e) now r =
    r
    ≡ failure (record {
      status_code = 500;
      message = one "Internal server error";
      error = "InternalServerError";
      path = x.url;
      timestamp = now;
    })
