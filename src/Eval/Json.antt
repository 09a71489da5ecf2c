-- ===== src/Eval/Json.antt =====
-- What internal/eval and internal/executor pass around as `any`: the values that encoding/json reads, with
-- `int`, which a response's status has. A map is the list of its entries.
use flowbench.Base.{ℕ, suc, ℤ, List, [], ◌∷◌, Option, none, some, Bool, text_eq, if◌then◌else◌}
use flowbench.Span.{Text}

mutual
  pub data Value (F : Type 0) : Type 0 where
    null : Value F
    bool : Bool → Value F
    num : F → Value F
    int : ℤ → Value F
    str : Text → Value F
    arr : Items F → Value F
    obj : Fields F → Value F

  pub data Items (F : Type 0) : Type 0 where
    nil : Items F
    cons : Value F → Items F → Items F

  pub data Fields (F : Type 0) : Type 0 where
    end : Fields F
    field : Text → Value F → Fields F → Fields F

module _ {F : Type 0} where
  abbrev pub items_of : Items F → List (Value F)
  items_of nil = []
  items_of (cons v vs) = v ∷ items_of vs

  abbrev pub member : Text → Fields F → Option (Value F)
  member k end = none
  member k (field j v fs) = if text_eq j k then some v else member k fs

  abbrev pub count_fields : Fields F → ℕ
  count_fields end = 0
  count_fields (field k v fs) = suc (count_fields fs)
