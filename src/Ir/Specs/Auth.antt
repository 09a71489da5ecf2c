-- ===== src/Ir/Specs/Auth.antt =====
-- internal/ir/validate.go: AuthSpec.validate, setFields and templatedFields. The table authFields is by
-- scheme, and its two lists are one, with whether the field is required.
use flowbench.Base.{
  String, List, [], ◌∷◌, ◌++◌, Option, none, some, Bool, false, ◌||◌, ◌&&◌, not, codes, str_eq,
  if◌then◌else◌,
}
use flowbench.Span.{Text}
use flowbench.Ir.{
  AuthSpec, AuthScheme, none_scheme, bearer, basic, api_key, cookie, oauth2_client_credentials,
  hmac, other,
}
use flowbench.Ir.Template.{is_empty}
use flowbench.Ir.Problem.{
  Problem, problem_if, for_each, unknown_scheme, missing_auth_field, extra_auth_field, bad_auth_in,
  bad_algorithm, bad_encoding, relative_token_url,
}
use flowbench.Ir.Specs.{Formats, Url, is_templated, is_given, named}

pub record Vocabulary : Type 0 where
  pub required : List String
  pub optional : List String

abbrev vocabulary : AuthScheme → Option Vocabulary
vocabulary none_scheme = some (record { required = []; optional = [] })
vocabulary bearer = some (record { required = "token" ∷ []; optional = [] })
vocabulary basic = some (record { required = "username" ∷ "password" ∷ []; optional = [] })
vocabulary api_key = some (record { required = "name" ∷ "value" ∷ []; optional = "in" ∷ [] })
vocabulary cookie = some (record { required = "name" ∷ "value" ∷ []; optional = [] })
vocabulary oauth2_client_credentials = some (record {
  required = "token_url" ∷ "client_id" ∷ "client_secret" ∷ [];
  optional = "scopes" ∷ [];
})
vocabulary hmac = some (record {
  required = "secret" ∷ [];
  optional =
      "algorithm" ∷ "encoding" ∷ "header" ∷ "key_id" ∷ "key_id_header" ∷ "timestamp_header" ∷ "sign"
      ∷ [];
})
vocabulary (other s) = none

abbrev includes : String → List String → Bool
includes s [] = false
includes s (n ∷ ns) = str_eq n s || includes s ns

abbrev kept_names : List (String × Bool) → List String
kept_names [] = []
kept_names ((name, set) ∷ more) = let rest = kept_names more in if set then name ∷ rest else rest

unfoldable pub set_fields : AuthSpec → List String
set_fields a = kept_names (
    ("token", not (is_empty a.token))
    ∷ ("username", not (is_empty a.username))
    ∷ ("password", not (is_empty a.password))
    ∷ ("name", not (is_empty a.name))
    ∷ ("value", not (is_empty a.value))
    ∷ ("in", named a.placed_in)
    ∷ ("token_url", not (is_empty a.token_url))
    ∷ ("client_id", not (is_empty a.client_id))
    ∷ ("client_secret", not (is_empty a.client_secret))
    ∷ ("secret", not (is_empty a.secret))
    ∷ ("algorithm", named a.algorithm)
    ∷ ("encoding", named a.encoding)
    ∷ ("header", named a.header)
    ∷ ("key_id", not (is_empty a.key_id))
    ∷ ("key_id_header", named a.key_id_header)
    ∷ ("timestamp_header", named a.timestamp_header)
    ∷ ("sign", not (is_empty a.sign))
    ∷ ("scopes", is_given a.scopes)
    ∷ [])

abbrev one_of : String → List String → Bool
one_of s names = not (named s) || includes s names

abbrev is_absolute : Option Url → Bool
is_absolute none = false
is_absolute (some u) = not (is_empty u.scheme) && not (is_empty u.host)

module _ (env : Formats) where
  abbrev field_problems : Vocabulary → AuthSpec → List Problem
  field_problems v a =
      for_each (λ name. problem_if (not (includes name (set_fields a))) (missing_auth_field name))
        v.required
      ++ for_each
          (λ name.
            problem_if (not (includes name (v.required ++ v.optional))) (extra_auth_field name))
          (set_fields a)
      ++ problem_if (not (one_of a.placed_in ("header" ∷ "query" ∷ []))) (bad_auth_in a.placed_in)
      ++ problem_if (not (one_of a.algorithm ("sha256" ∷ "sha512" ∷ [])))
          (bad_algorithm a.algorithm)
      ++ problem_if (not (one_of a.encoding ("hex" ∷ "base64" ∷ []))) (bad_encoding a.encoding)
      ++ problem_if
          (not (is_empty a.token_url)
            && not (is_templated a.token_url)
            && not (is_absolute (env.parse_url a.token_url)))
          (relative_token_url a.token_url)

  unfoldable pub auth_problems : AuthSpec → List Problem
  unfolding set_fields
  auth_problems a = elim (vocabulary a.scheme) [
    | none ↦ unknown_scheme a.scheme ∷ []
    | some v ↦ field_problems v a
  ]

-- AuthSpec.templatedFields, all but `sign`
abbrev pub auth_fields : AuthSpec → List Text
auth_fields a =
    a.token
    ∷ a.username
    ∷ a.password
    ∷ a.name
    ∷ a.value
    ∷ a.token_url
    ∷ a.client_id
    ∷ a.client_secret
    ∷ a.secret
    ∷ codes a.algorithm
    ∷ codes a.encoding
    ∷ codes a.header
    ∷ a.key_id
    ∷ codes a.key_id_header
    ∷ codes a.timestamp_header
    ∷ a.scopes
