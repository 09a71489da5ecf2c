-- ===== src/Executor/Flow/Branches.antt =====
-- One proof for each branch of Executor/Flow.antt, with what the branch knows.
use flowbench.Base.{List, [], ◌∷◌, Option, none, some, Bool, true, false, ◌≡◌, refl}
use flowbench.Ir.{Mode, StepType, call, graphql, ws, grpc, wait, poll, uses, other}
use flowbench.Executor.Scope.{Scope}
use flowbench.Executor.Outside.{Outside}
use flowbench.Executor.Iteration.{Failure}
use flowbench.Executor.Iteration.Recorded.{is_nonempty}
use flowbench.Executor.StepOut.{Err}
use flowbench.Executor.StepOut.Keeps.{has_err}
use flowbench.Executor.Flow.{Bound, bound, unbound, go_on, by_sub, by_type, by_bound}

module _ {ℓ κ} {A : Type ℓ} (P : A → Type κ) where
  pub go_on-cases :
      (err : Option Err) (cont : Bool) {stop rest : A}
      → (has_err err ≡ true → P stop)
      → (cont ≡ false → P stop)
      → (has_err err ≡ false → cont ≡ true → P rest)
      → P (go_on err cont stop rest)
  go_on-cases (some e) cont h l k = h refl
  go_on-cases none true h l k = k refl refl
  go_on-cases none false h l k = l refl

  pub by_sub-cases :
      (err : Option Err) (aborted : Bool) (fs : List Failure) {x : Err → A} {y z t : A}
      → ((e : Err) → has_err err ≡ true → P (x e))
      → (has_err err ≡ false → aborted ≡ true → P y)
      → (has_err err ≡ false → aborted ≡ false → is_nonempty fs ≡ false → P z)
      → (has_err err ≡ false → aborted ≡ false → is_nonempty fs ≡ true → P t)
      → P (by_sub err aborted fs x y z t)
  by_sub-cases (some e) aborted fs hx hy hz ht = hx e refl
  by_sub-cases none true fs hx hy hz ht = hy refl refl
  by_sub-cases none false [] hx hy hz ht = hz refl refl refl
  by_sub-cases none false (f ∷ fs) hx hy hz ht = ht refl refl refl

  pub by_type-cases :
      (t : StepType) {a b c d e f g : A}
      → P a
      → P b
      → P c
      → P d
      → P e
      → P f
      → P g
      → P (by_type t a b c d e f g)
  by_type-cases call ha hb hc hd he hf hg = ha
  by_type-cases graphql ha hb hc hd he hf hg = hb
  by_type-cases ws ha hb hc hd he hf hg = hc
  by_type-cases grpc ha hb hc hd he hf hg = hd
  by_type-cases uses ha hb hc hd he hf hg = he
  by_type-cases wait ha hb hc hd he hf hg = hf
  by_type-cases poll ha hb hc hd he hf hg = hg
  by_type-cases (other s) ha hb hc hd he hf hg = hg

  pub by_bound-cases :
      (o : Outside) (mode : Mode) (b : Bound o mode) {f : Err → o.W → A} {g : Scope o.V → o.W → A}
      → ((e : Err) (w : o.W) → P (f e w))
      → ((child : Scope o.V) (w : o.W) → P (g child w))
      → P (by_bound o mode b f g)
  by_bound-cases o mode (unbound e w) h k = h e w
  by_bound-cases o mode (bound child w) h k = k child w
