-- ===== src/Span/Tests.antt =====
-- internal/span: the theorems at concrete trees.
use flowbench.Base.{ℕ, zero, suc, pos, [], ◌∷◌, some, take, ◌≡◌, refl}
use flowbench.Span.{Text, Span, node, cons, nil, fields, new}
use flowbench.Span.Capture.{finalize}
use flowbench.Span.Capture.Finalize.{AllSpans, PayloadMeets, IsReleased, finalize_safe}
use flowbench.Span.Fold.{new_folded, merge}
use flowbench.Span.Fold.Paths.{stats_at}
use flowbench.Span.Fold.Merge.{fold_all, merge_partials}

abbrev tree : Span
tree =
    node
      (record (fields (new "flow:checkout" (pos 0))) {
        duration = pos 9;
        raw_req = some (115 ∷ 116 ∷ []);
      })
      (cons (node (record (fields (new "login" (pos 1))) { duration = pos 4 }) nil) nil)

-- A redaction that keeps nothing, and the texts that it gives.
abbrev blank : Text → Text
blank t = []

abbrev IsBlank : Text → Type 0
IsBlank t = t ≡ []

take-IsBlank : (n : ℕ) (t : Text) → IsBlank t → IsBlank (take n t)
take-IsBlank zero t h = refl
take-IsBlank (suc n) [] h = refl
take-IsBlank (suc n) (c ∷ t) h = absurd (apart h)
  where
    apart : c ∷ t ≡ [] → ⊥
    apart h = cc

finalize_safe_example :
    AllSpans
      (finalize tree blank (pos 3))
      (λ f. PayloadMeets IsBlank (pos 3) f.payload × IsReleased f)
unfolding AllSpans new
finalize_safe_example =
    finalize_safe blank (pos 3) IsBlank refl (λ t. refl) take-IsBlank tree (refl, ((refl, tt), tt))

merge_partials_example :
    (stats_at "flow:checkout" []
        (merge (fold_all (tree ∷ []) new_folded) (fold_all (tree ∷ tree ∷ []) new_folded))
      ≡ stats_at "flow:checkout" [] (fold_all (tree ∷ []) (fold_all (tree ∷ tree ∷ []) new_folded)))
    × (stats_at "flow:checkout" []
          (merge (fold_all (tree ∷ tree ∷ []) new_folded) (fold_all (tree ∷ []) new_folded))
        ≡ stats_at "flow:checkout" []
            (fold_all (tree ∷ []) (fold_all (tree ∷ tree ∷ []) new_folded)))
merge_partials_example = merge_partials (tree ∷ tree ∷ []) (tree ∷ []) "flow:checkout" []
