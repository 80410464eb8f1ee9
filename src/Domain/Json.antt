-- ===== src/Domain/Json.antt =====
-- JSON values, as stored in `Json` columns. Numbers are the non-negative integers that the stored
-- bodies compute with.
use posts_media.Common.{
  ℕ, String, Bool, Option, none, some, List, [], ◌∷◌, ◌==◌, string_eq, if◌then◌else◌,
}

mutual
  pub data Json : Type 0 where
    null : Json
    bool : Bool → Json
    num : ℕ → Json
    str : String → Json
    arr : Items → Json
    obj : Fields → Json

  pub data Items : Type 0 where
    nil : Items
    cons : Json → Items → Items

  pub data Fields : Type 0 where
    end : Fields
    field : String → Json → Fields → Fields

-- `body?.name`; a duplicate name does not occur in the bodies that the services build
abbrev pub get_fields : String → Fields → Option Json
get_fields k end = none
get_fields k (field j v fs) = let rest = get_fields k fs in if j == k then some v else rest

abbrev pub get : String → Json → Option Json
get k (obj fs) = get_fields k fs
get k _ = none

-- an array, a nullable number, and a nullable text
abbrev pub items : {A : Type 0} → (A → Json) → List A → Items
items f [] = nil
items f (a ∷ rest) = cons (f a) (items f rest)

abbrev pub num_or_null : Option ℕ → Json
num_or_null none = null
num_or_null (some n) = num n

abbrev pub str_or_null : Option String → Json
str_or_null none = null
str_or_null (some t) = str t
