-- ===== src/Secret.antt =====
-- internal/secret/secret.go: the values that must not reach storage, and their redaction. The set is
-- the list of its values, without repetitions; its lock and the copy of its bytes are left out.
pub mod Redacted
pub mod Stored
mod Tests
use flowbench.Base.{
  ℕ, zero, suc, ◌-◌, List, [], ◌∷◌, ◌++◌, Bool, leb, length, codes, has_text, if◌then◌else◌,
}
use flowbench.Span.{Text}
pub use flowbench.Base.{starts, occurs}

abbrev pub placeholder : Text
placeholder = codes "[redacted]"

-- strings.ReplaceAll for a `v` that is not empty, from the left; after a match, the bytes that it
-- covers are passed over.
unfoldable pub replace_all : Text → Text → ℕ → Text → Text
replace_all v by skip [] = []
replace_all v by (suc skip) (c ∷ cs) = replace_all v by skip cs
replace_all v by zero (c ∷ cs) =
    let found = replace_all v by (length v - 1) cs in
    let next = replace_all v by zero cs in if starts v (c ∷ cs) then by ++ found else c ∷ next

-- Add: an empty value is ignored.
unfoldable pub add : Text → List Text → List Text
add [] set = set
add (c ∷ cs) set = if has_text (c ∷ cs) set then set else (c ∷ cs) ∷ set

-- ordered: longest first. sort.Slice leaves the order of equally long values open; here it is theirs.
abbrev pub insert : Text → List Text → List Text
insert v [] = v ∷ []
insert v (u ∷ us) =
    let rest = insert v us in if leb (length u) (length v) then v ∷ u ∷ us else u ∷ rest

unfoldable pub ordered : List Text → List Text
ordered [] = []
ordered (v ∷ vs) = insert v (ordered vs)

abbrev pub redact_each : List Text → Text → Text
redact_each [] t = t
redact_each (v ∷ vs) t = redact_each vs (replace_all v placeholder zero t)

-- Contains
unfoldable pub contains : List Text → Text → Bool
contains set v = has_text v set

-- Redact
unfoldable pub redact : List Text → Text → Text
redact set t = redact_each (ordered set) t
