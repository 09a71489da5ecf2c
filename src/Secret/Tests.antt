-- ===== src/Secret/Tests.antt =====
-- internal/secret: the theorems at concrete inputs.
use flowbench.Base.{pos, List, [], ◌∷◌, some, ◌≡◌, refl, codes, true}
use flowbench.Span.{Text, Span, node, nil, fields, new}
use flowbench.Span.Capture.{finalize}
use flowbench.Span.Capture.Finalize.{AllSpans, PayloadMeets, IsReleased}
use flowbench.Secret.{redact}
use flowbench.Secret.Stored.{none_occurs, finalize_redacted}

-- One secret contains the other.
abbrev secrets : List Text
secrets = codes "red-hunk" ∷ codes "red-hunk99" ∷ []

abbrev called : Span
called =
    node
      (record (fields (new "login" (pos 1))) {
        raw_req = some (codes "key=red-hunk99&k=red-hunk");
        failure = codes "red-hunk";
      })
      nil

-- The longer secret is replaced whole.
redacted : redact secrets (codes "key=red-hunk99&k=red-hunk") ≡ codes "key=[redacted]&k=[redacted]"
unfolding redact flowbench.Secret.ordered flowbench.Secret.replace_all
redacted = refl

finalize_redacted_example :
    AllSpans
      (finalize called (redact secrets) (pos 10))
      (λ f. PayloadMeets (λ t. none_occurs secrets t ≡ true) (pos 10) f.payload × IsReleased f)
unfolding AllSpans new
finalize_redacted_example = finalize_redacted secrets (pos 10) called refl (refl, tt)
