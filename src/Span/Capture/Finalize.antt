-- ===== src/Span/Capture/Finalize.antt =====
-- internal/span/capture.go: what a finalized trace holds, for every redaction and size cap.
use flowbench.Base.{
  ℕ, ℤ, pos, pos_part, ltb, ltb_ℤ, ◌≤◌, ◌<ℤ◌, length, take, List, [], ◌∷◌, Option, none, some, ◌≡◌,
  refl, ◌&&◌, Bool-cases, inl, inr, arith, zero, suc, String, ap, ◌∙◌, str_eq, str_eq_iff, leb_ℤ,
  ◌-ℤ◌, if◌then◌else◌,
}
use flowbench.Span.{
  Text, Payload, SpanFields, Span, Spans, node, nil, cons, self_time, less_children,
}
use flowbench.Span.Fold.{span_stats, no_stats}
use flowbench.Span.Fold.Paths.{span_at, spans_at}
use flowbench.Span.Capture.{
  cap_body, has_capture, payload_of, finalize_fields, finalize, finalize_all, bytes, redact_text,
}

-- A property of every span of a tree.
unfoldable mutual
  pub AllSpans : Span → (SpanFields → Type 0) → Type 0
  AllSpans (node f cs) P = P f × AllOf cs P

  pub AllOf : Spans → (SpanFields → Type 0) → Type 0
  AllOf nil P = Unit {0}
  AllOf (cons s ss) P = AllSpans s P × AllOf ss P

module _ (redact : Text → Text) (max_bytes : ℤ) (P Q : SpanFields → Type 0)
    (step : (f : SpanFields) → P f → Q (finalize_fields redact max_bytes f)) where
  mutual
    unfolding finalize AllSpans

    pub lift_span : (s : Span) → AllSpans s P → AllSpans (finalize s redact max_bytes) Q
    lift_span (node f cs) h = (step f h.0, lift_spans cs h.1)

    lift_spans : (ss : Spans) → AllOf ss P → AllOf (finalize_all ss redact max_bytes) Q
    lift_spans nil h = tt
    lift_spans (cons s ss) h = (lift_span s h.0, lift_spans ss h.1)

-- No raw body, failure text or status text is left to a reader.
abbrev pub IsReleased : SpanFields → Type 0
IsReleased f = (f.raw_req ≡ none) × (f.raw_resp ≡ none) × (f.failure ≡ []) × (f.status_text ≡ "")

-- A stored payload's texts meet `Clean`, and its bodies meet the cap.
abbrev pub PayloadMeets : (Text → Type 0) → ℤ → Option Payload → Type 0
PayloadMeets Clean max_bytes none = Unit {0}
PayloadMeets Clean max_bytes (some p) =
    Clean p.url
    × Clean p.failure
    × Clean p.request
    × Clean p.response
    × (pos 0 <ℤ max_bytes
        → (length p.request ≤ pos_part max_bytes) × (length p.response ≤ pos_part max_bytes))

length-take-le : (n : ℕ) (xs : Text) → length (take n xs) ≤ n
length-take-le zero xs = omega arith
length-take-le (suc n) [] = omega arith
length-take-le (suc n) (x ∷ xs) = omega (arith, length-take-le n xs)

finalize_fields-IsReleased :
    (redact : Text → Text) (max_bytes : ℤ) (f : SpanFields)
    → IsReleased (finalize_fields redact max_bytes f)
unfolding finalize_fields
finalize_fields-IsReleased redact max_bytes f = ground (arith, str_eq_iff f.status_text "")

-- Every span starts with no payload.
abbrev pub NoPayload : SpanFields → Type 0
NoPayload f = f.payload ≡ none

module _ (redact : Text → Text) (max_bytes : ℤ) (Clean : Text → Type 0) (clean_nil : Clean [])
    (clean_redact : (t : Text) → Clean (redact t))
    (clean_take : (n : ℕ) (t : Text) → Clean t → Clean (take n t)) where
  cap_body-Clean : (b : Text) → Clean (cap_body b redact max_bytes).0
  unfolding cap_body
  cap_body-Clean [] = clean_nil
  cap_body-Clean (x ∷ b) =
      elim (Bool-cases
        (ltb_ℤ (pos 0) max_bytes && ltb (pos_part max_bytes) (length (redact (x ∷ b))))) [
          | inl over ↦ rw over (clean_take _ _ (clean_redact (x ∷ b)))
          | inr fits ↦ rw fits (clean_redact (x ∷ b))
        ]

  cap_body_bounded :
      (b : Text) → pos 0 <ℤ max_bytes → length (cap_body b redact max_bytes).0 ≤ pos_part max_bytes
  unfolding cap_body
  cap_body_bounded [] h = omega arith
  cap_body_bounded (x ∷ b) h = ground (arith, length-take-le (pos_part max_bytes) (redact (x ∷ b)))

  redact_text-Clean : (t : Text) → Clean (redact_text redact t)
  redact_text-Clean [] = clean_nil
  redact_text-Clean (x ∷ t) = clean_redact (x ∷ t)

  payload_of-Meets :
      (f : SpanFields) → PayloadMeets Clean max_bytes (some (payload_of redact max_bytes f))
  unfolding payload_of
  payload_of-Meets f = elim (Bool-cases (leb_ℤ (pos 0) max_bytes)) [
    | inl captured ↦ rw captured (
      redact_text-Clean f.call_url,
      redact_text-Clean f.failure,
      cap_body-Clean (bytes f.raw_req),
      cap_body-Clean (bytes f.raw_resp),
      (λ h. (cap_body_bounded (bytes f.raw_req) h, cap_body_bounded (bytes f.raw_resp) h)),
    )
    | inr none_kept ↦ rw none_kept (
      redact_text-Clean f.call_url,
      redact_text-Clean f.failure,
      clean_nil,
      clean_nil,
      (λ h. (omega arith, omega arith)),
    )
  ]

  meets_step :
      (f : SpanFields)
      → NoPayload f
      → PayloadMeets Clean max_bytes (finalize_fields redact max_bytes f).payload
  unfolding finalize_fields
  meets_step f h = elim (Bool-cases (has_capture f)) [
    | inl captured ↦ rw captured (payload_of-Meets f)
    | inr empty ↦ rw (empty, h) tt
  ]

  -- Take a redaction whose every result is clean, where the empty text and the prefixes of a clean
  -- text are clean. Then in a finalized tree, whose spans had no payload before, every stored URL,
  -- failure, request and response is clean, under a positive cap no stored body is longer than
  -- the cap, and every span has released its raw bodies, failure and status text.
  pub finalize_safe :
      (s : Span)
      → AllSpans s NoPayload
      → AllSpans
          (finalize s redact max_bytes)
          (λ f. PayloadMeets Clean max_bytes f.payload × IsReleased f)
  finalize_safe s h =
      lift_span redact max_bytes NoPayload _
        (λ f e. (meets_step f e, finalize_fields-IsReleased redact max_bytes f)) s h

finalize_fields-name :
    (redact : Text → Text) (max_bytes : ℤ) (f : SpanFields)
    → ((finalize_fields redact max_bytes f).name ≡ f.name)
      × ((finalize_fields redact max_bytes f).duration ≡ f.duration)
unfolding finalize_fields
finalize_fields-name redact max_bytes f = elim (Bool-cases (has_capture f)) [
  | inl captured ↦ rw captured (refl, refl)
  | inr empty ↦ rw empty (refl, refl)
]

less_children-finalize :
    (redact : Text → Text) (max_bytes self : ℤ) (cs : Spans)
    → less_children self (finalize_all cs redact max_bytes) ≡ less_children self cs
unfolding less_children finalize
less_children-finalize redact max_bytes self nil = refl
less_children-finalize redact max_bytes self (cons (node f gs) cs) =
    rw ((finalize_fields-name redact max_bytes f).1)
      (less_children-finalize redact max_bytes (self -ℤ f.duration) cs)

span_stats-finalize :
    (redact : Text → Text) (max_bytes : ℤ) (s : Span)
    → span_stats (finalize s redact max_bytes) ≡ span_stats s
unfolding self_time finalize
span_stats-finalize redact max_bytes (node f cs) = rw (
  (finalize_fields-name redact max_bytes f).1,
  less_children-finalize redact max_bytes f.duration cs,
)

mutual
  unfolding span_at finalize

  at_finalize :
      (redact : Text → Text) (max_bytes : ℤ) (s : Span) (n : String) (p : List String)
      → span_at (finalize s redact max_bytes) n p ≡ span_at s n p
  at_finalize redact max_bytes (node f cs) n [] =
      ap (λ m. if str_eq m n then span_stats (finalize (node f cs) redact max_bytes) else no_stats)
        (finalize_fields-name redact max_bytes f).0
      ∙ ap (λ w. if str_eq f.name n then w else no_stats)
          (span_stats-finalize redact max_bytes (node f cs))
  at_finalize redact max_bytes (node f cs) n (q ∷ p) =
      rw ((finalize_fields-name redact max_bytes f).0, all_finalize redact max_bytes cs q p)

  all_finalize :
      (redact : Text → Text) (max_bytes : ℤ) (cs : Spans) (n : String) (p : List String)
      → spans_at (finalize_all cs redact max_bytes) n p ≡ spans_at cs n p
  all_finalize redact max_bytes nil n p = refl
  all_finalize redact max_bytes (cons s ss) n p =
      rw (at_finalize redact max_bytes s n p, all_finalize redact max_bytes ss n p)

-- Finalizing a trace changes no counter that the folded tier takes from it, at any path.
span_at-finalize :
    (redact : Text → Text) (max_bytes : ℤ) (s : Span) (n : String) (p : List String)
    → span_at (finalize s redact max_bytes) n p ≡ span_at s n p
span_at-finalize redact max_bytes s n p = at_finalize redact max_bytes s n p
