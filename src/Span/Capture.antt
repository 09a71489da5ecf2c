-- ===== src/Span/Capture.antt =====
-- internal/span/capture.go: what a call records on its span, and the payload that a kept trace
-- stores. The texts of Go are bytes, so the conversions to `[]byte` and back are not written.
pub mod Finalize
use flowbench.Base.{
  ℤ, pos, pos_part, ltb, ltb_ℤ, leb_ℤ, eqb_ℤ, length, take, [], ◌∷◌, Option, none, some, Bool, true,
  false, not, ◌&&◌, ◌||◌, str_eq, String, if◌then◌else◌,
}
use flowbench.Span.{Text, Payload, SpanFields, Span, Spans, node, nil, cons}

abbrev pub map_fields : (SpanFields → SpanFields) → Span → Span
map_fields g (node f cs) = node (g f) cs

unfoldable pub set_raw : Option Text → Option Text → Span → Span
set_raw req resp = map_fields (λ f. record f { raw_req = req; raw_resp = resp })

unfoldable pub set_call : String → Text → ℤ → String → Span → Span
set_call method url status retry_after = map_fields (λ f. record f {
  call_method = method;
  call_url = url;
  call_status = status;
  retry_after = retry_after;
})

unfoldable pub set_status_text : String → Span → Span
set_status_text text = map_fields (λ f. record f { status_text = text })

unfoldable pub set_failure : Text → Span → Span
set_failure detail = map_fields (λ f. record f { failure = detail })

-- A nil slice has no bytes.
abbrev pub bytes : Option Text → Text
bytes none = []
bytes (some b) = b

abbrev pub is_some : Option Text → Bool
is_some none = false
is_some (some b) = true

abbrev pub is_empty : Text → Bool
is_empty [] = true
is_empty (_ ∷ _) = false

unfoldable pub cap_body : Text → (Text → Text) → ℤ → Text × Bool
cap_body b redact max_bytes =
    if is_empty b
    then ([], false)
    else let r = redact b in
      if ltb_ℤ (pos 0) max_bytes && ltb (pos_part max_bytes) (length r)
      then (take (pos_part max_bytes) r, true)
      else (r, false)

-- The test of `Finalize`: there is something to store.
unfoldable pub has_capture : SpanFields → Bool
has_capture f =
    not (eqb_ℤ f.call_status (pos 0))
    || not (str_eq f.status_text "")
    || is_some f.raw_req
    || is_some f.raw_resp
    || not (is_empty f.failure)

abbrev pub redact_text : (Text → Text) → Text → Text
redact_text redact t = if is_empty t then [] else redact t

unfoldable pub payload_of : (Text → Text) → ℤ → SpanFields → Payload
unfolding cap_body
payload_of redact max_bytes f =
    let (request, t1) =
      if leb_ℤ (pos 0) max_bytes
      then cap_body (bytes f.raw_req) redact max_bytes
      else ([], false) in
    let (response, t2) =
      if leb_ℤ (pos 0) max_bytes
      then cap_body (bytes f.raw_resp) redact max_bytes
      else ([], false) in
    record {
      method = f.call_method;
      url = redact_text redact f.call_url;
      status = f.call_status;
      status_text = f.status_text;
      retry_after = f.retry_after;
      failure = redact_text redact f.failure;
      req_bytes = length (bytes f.raw_req);
      resp_bytes = length (bytes f.raw_resp);
      request = request;
      response = response;
      truncated = t1 || t2;
    }

unfoldable pub finalize_fields : (Text → Text) → ℤ → SpanFields → SpanFields
unfolding has_capture payload_of
finalize_fields redact max_bytes f =
    if has_capture f
    then record f {
      payload = some (payload_of redact max_bytes f);
      raw_req = none;
      raw_resp = none;
      failure = [];
      status_text = "";
    }
    else f

-- `Finalize` on a span and on the spans below it.
unfoldable mutual
  pub finalize : Span → (Text → Text) → ℤ → Span
  finalize (node f cs) redact max_bytes =
      node (finalize_fields redact max_bytes f) (finalize_all cs redact max_bytes)

  pub finalize_all : Spans → (Text → Text) → ℤ → Spans
  finalize_all nil redact max_bytes = nil
  finalize_all (cons s ss) redact max_bytes =
      cons (finalize s redact max_bytes) (finalize_all ss redact max_bytes)
