-- ===== src/Target/Named.antt =====
-- internal/target/target.go: the URLs that a step names, apart from the code.
use flowbench.Base.{
  List, [], ◌∷◌, ◌++◌, none, some, Bool, true, false, ◌&&◌, is_empty, ◌≡◌, refl, ap, ◌∙◌,
}
use flowbench.Span.{Text}
use flowbench.Ir.{StepFields, CallSpec, GraphqlSpec, WsSpec, GrpcSpec, PollSpec, AuthSpec}
use flowbench.Target.{base_url_of, token_url_of, step_urls}

-- The URL of the step's spec, the first that is set, and that of its token endpoint.
pub data Names (st : StepFields) : Text → Type 0 where
  of_call : (c : CallSpec) → st.call ≡ some c → Names st c.url
  of_graphql : (g : GraphqlSpec) → st.call ≡ none → st.graphql ≡ some g → Names st g.url
  of_ws : (w : WsSpec) → st.call ≡ none → st.graphql ≡ none → st.ws ≡ some w → Names st w.url
  of_grpc :
      (r : GrpcSpec)
      → st.call ≡ none
      → st.graphql ≡ none
      → st.ws ≡ none
      → st.grpc ≡ some r
      → Names st r.url
  of_poll :
      (p : PollSpec)
      → st.call ≡ none
      → st.graphql ≡ none
      → st.ws ≡ none
      → st.grpc ≡ none
      → st.poll ≡ some p
      → Names st p.call.url
  of_token : (a : AuthSpec) → st.auth ≡ some a → is_empty a.token_url ≡ false → Names st a.token_url

abbrev pub all_urls : (Text → Bool) → List Text → Bool
all_urls p [] = true
all_urls p (t ∷ ts) = p t && all_urls p ts

all_urls-append :
    (p : Text → Bool) (ts us : List Text)
    → all_urls p (ts ++ us) ≡ true
    → (all_urls p ts ≡ true) × (all_urls p us ≡ true)
all_urls-append p [] us h = (refl, h)
all_urls-append p (t ∷ ts) us h =
    let (first, more) = both (p t) (all_urls p (ts ++ us)) h in
    let (on_left, on_right) = all_urls-append p ts us more in
    (ap (λ b. b && all_urls p ts) first ∙ on_left, on_right)
  where
    both : (b c : Bool) → b && c ≡ true → (b ≡ true) × (c ≡ true)
    both true c h = (refl, h)
    both false c h = cc

all_urls_first : (p : Text → Bool) (t : Text) → all_urls p (t ∷ []) ≡ true → p t ≡ true
all_urls_first p t h = only (p t) h
  where
    only : (b : Bool) → b && true ≡ true → b ≡ true
    only true h = refl
    only false h = cc

-- A URL that the step names is one of those that the check looks at.
pub Names-pass :
    (p : Text → Bool) (st : StepFields) (raw : Text)
    → all_urls p (step_urls st) ≡ true
    → Names st raw
    → p raw ≡ true
unfolding step_urls
Names-pass p st raw h n = by_name n
  where
    based : all_urls p (base_url_of st.call st.graphql st.ws st.grpc st.poll) ≡ true
    based =
        (all_urls-append p (base_url_of st.call st.graphql st.ws st.grpc st.poll)
          (token_url_of st.auth) h).0

    tokened : all_urls p (token_url_of st.auth) ≡ true
    tokened =
        (all_urls-append p (base_url_of st.call st.graphql st.ws st.grpc st.poll)
          (token_url_of st.auth) h).1

    by_name : {t : Text} → Names st t → p t ≡ true
    by_name (of_call c a) = all_urls_first p c.url (rw a at based)
    by_name (of_graphql g a b) = all_urls_first p g.url (rw (a, b) at based)
    by_name (of_ws w a b c) = all_urls_first p w.url (rw (a, b, c) at based)
    by_name (of_grpc r a b c d) = all_urls_first p r.url (rw (a, b, c, d) at based)
    by_name (of_poll q a b c d e) = all_urls_first p q.call.url (rw (a, b, c, d, e) at based)
    by_name (of_token au e full) = all_urls_first p au.token_url (rw full at (rw e at tokened))
