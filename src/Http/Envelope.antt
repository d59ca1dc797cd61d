-- ===== src/Http/Envelope.antt =====
-- What `apiRequest` reads off an error response, and what it leaves unread.
use usezombie.Prelude.{String, ◌≡◌, false, none, some, str_eq}
use usezombie.Json.{null, str, obj, Fields, find_field, nullish}
use usezombie.Http.{
  Response, Runtime, or_value, parse_body, response_error, parse_retry_after_header_value,
}

pub parse_body-obj :
    (rt : Runtime) (text : String) (fs : Fields)
    → str_eq text "" ≡ false
    → rt.json_parse text ≡ some (obj fs)
    → parse_body rt text ≡ obj fs
unfolding parse_body
parse_body-obj rt text fs some_text parsed = rw (some_text, parse_body) (rw (parsed, parse_body))

-- An error body that is an object with no `error` field (such as the server's problem details, whose
-- fields are `error_code`, `title`, `detail` and `request_id`): the code is made from the status and
-- the message is the reason phrase, whatever `error_code` and `detail` hold. Only `request_id`, the
-- status and the Retry-After header come through, and the body itself.
pub response_error_problem :
    (rt : Runtime) (res : Response) (fs : Fields)
    → str_eq res.text "" ≡ false
    → rt.json_parse res.text ≡ some (obj fs)
    → find_field "error" fs ≡ none
    → response_error rt res ≡ record {
      message = str res.status_text;
      status = some res.status;
      code = some (str (rt.show_http res.status));
      request_id = some (or_value (nullish (find_field "request_id" fs)) null);
      body = some (obj fs);
      retry_after_ms = parse_retry_after_header_value rt res.retry_after;
    }
unfolding response_error
response_error_problem rt res fs some_text parsed no_error =
    rw (parse_body-obj rt res.text fs some_text parsed, no_error)
