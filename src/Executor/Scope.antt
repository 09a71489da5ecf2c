-- ===== src/Executor/Scope.antt =====
-- internal/executor/scope.go: the variables of one iteration. Resolving a reference against the
-- environment is a parameter of the engine (Executor/Outside.antt); here are the roots themselves.
use flowbench.Base.{
  String, List, [], ◌∷◌, Option, none, some, ◌≡◌, refl, str_eq, str_eq_iff, if◌then◌else◌, arith,
}
use flowbench.DataPool.{Row}

abbrev pub Vars : Type 0 → Type 0
Vars V = List (String × V)

pub record Scope (V : Type 0) : Type 0 where
  pub pool : String
  pub row : Row
  pub vars : Vars V

-- `vars[name] = v`
unfoldable pub put_var : {V : Type 0} → String → V → Vars V → Vars V
put_var name v [] = (name, v) ∷ []
put_var name v ((n, u) ∷ vs) = if str_eq n name then (name, v) ∷ vs else (n, u) ∷ put_var name v vs

unfoldable pub find_var : {V : Type 0} → String → Vars V → Option V
find_var name [] = none
find_var name ((n, u) ∷ vs) = if str_eq n name then some u else find_var name vs

unfoldable pub new_scope : {V : Type 0} → String → Row → Scope V
new_scope pool row = record { pool = pool; row = row; vars = [] }

-- Child: no data row and none of the caller's variables.
unfoldable pub child_scope : {V : Type 0} → Scope V → Scope V
child_scope s = record { pool = ""; row = []; vars = [] }

unfoldable pub set_in : {V : Type 0} → String → V → Scope V → Scope V
set_in name v s = record s { vars = put_var name v s.vars }

unfoldable pub lookup_in : {V : Type 0} → Scope V → String → Option V
lookup_in s name = find_var name s.vars

-- A lookup after an assignment.
pub find_var-put_var :
    {V : Type 0} (name k : String) (v : V) (vs : Vars V)
    → find_var k (put_var name v vs) ≡ (if str_eq name k then some v else find_var k vs)
unfolding find_var put_var
find_var-put_var name k v [] = refl
find_var-put_var name k v ((n, u) ∷ vs) =
    ground
      (arith, str_eq_iff name k, str_eq_iff n name, str_eq_iff n k, find_var-put_var name k v vs)
