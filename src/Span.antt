-- ===== src/Span.antt =====
-- internal/span/span.go and capture.go: the tree of timed spans of one iteration.
-- A span's scalar fields are a record; its `Children` slice is the second type of the block.
-- Byte slices and texts that the code rewrites are lists of bytes, and a nil slice is `none`.
pub mod Fold
pub mod Capture
mod Tests
use flowbench.Base.{ℤ, pos, ◌-ℤ◌, ltb_ℤ, String, Option, none, List, [], ℕ, Bool, if◌then◌else◌}

abbrev pub Text : Type 0
Text = List ℕ

pub data Outcome : Type 0 where
  ok failed throttled skipped : Outcome

-- The fields that only the Python producer writes (prompts and their usage) are left out.
pub record Payload : Type 0 where
  pub method : String
  pub url : Text
  pub status : ℤ
  pub status_text : String
  pub retry_after : String
  pub failure : Text
  pub req_bytes : ℕ
  pub resp_bytes : ℕ
  pub request : Text
  pub response : Text
  pub truncated : Bool

pub record SpanFields : Type 0 where
  pub name : String
  pub start : ℤ
  pub duration : ℤ
  pub outcome : Outcome
  pub payload : Option Payload
  pub raw_req : Option Text
  pub raw_resp : Option Text
  pub call_method : String
  pub call_url : Text
  pub call_status : ℤ
  pub status_text : String
  pub retry_after : String
  pub failure : Text

mutual
  pub data Span : Type 0 where
    node : SpanFields → Spans → Span

  pub data Spans : Type 0 where
    nil : Spans
    cons : Span → Spans → Spans

abbrev pub fields : Span → SpanFields
fields (node f cs) = f

abbrev pub children : Span → Spans
children (node f cs) = cs

-- `New`: a span with no children and outcome ok.
unfoldable pub new : String → ℤ → Span
new name start =
    node
      (record {
        name = name;
        start = start;
        duration = pos 0;
        outcome = Outcome.ok;
        payload = none;
        raw_req = none;
        raw_resp = none;
        call_method = "";
        call_url = [];
        call_status = pos 0;
        status_text = "";
        retry_after = "";
        failure = [];
      })
      nil

-- `append(s.Children, c)`
unfoldable pub append_child : Spans → Span → Spans
append_child nil c = cons c nil
append_child (cons s ss) c = cons s (append_child ss c)

-- The loop of SelfTime, which takes the children's durations off.
unfoldable pub less_children : ℤ → Spans → ℤ
less_children self nil = self
less_children self (cons c cs) = less_children (self -ℤ (fields c).duration) cs

unfoldable pub self_time : Span → ℤ
unfolding less_children
self_time s =
    let self = less_children (fields s).duration (children s) in
    if ltb_ℤ self (pos 0) then pos 0 else self
