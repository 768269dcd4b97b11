-- ===== src/Python/Values.antt =====
-- The values that a job carries (`Any`), and the values of a record's fields (`str | bytes`).
use task_queue.Base.{ℕ, String, ◌==◌, Bool, Option, none, some, List, if◌then◌else◌}
use task_queue.Base.Dict.{Dict}

-- `opaque` stands for every other object, by its identity.
mutual
  pub data Any : Type 0 where
    null : Any
    flag : Bool → Any
    num : ℕ → Any
    text : String → Any
    list tuple : Items → Any
    dict : Fields → Any
    opaque : ℕ → Any

  pub data Items : Type 0 where
    nil : Items
    cons : Any → Items → Items

  pub data Fields : Type 0 where
    end : Fields
    field : String → Any → Fields → Fields

unfoldable pub get_field : String → Fields → Option Any
get_field k end = none
get_field k (field j v fs) = if j == k then some v else get_field k fs

abbrev pub Bytes : Type 0
Bytes = List ℕ

pub data Value : Type 0 where
  str : String → Value
  bytes : Bytes → Value

abbrev pub Record : Type 0
Record = Dict Value
