-- ===== src/RegistrySeal/Sample.antt =====
-- Values that are texts, numbers, lists and dicts, for the tests.
use phantasm.Base.{◌≡◌, refl, ap, String, Option, none, some, List, [], ◌∷◌}
use phantasm.Base.Dict.{Dict}
use phantasm.Base.Int.{ℤ}
use phantasm.RegistrySeal.{Values}

mutual
  pub data Json : Type 0 where
    leaf : String → Json
    number : ℤ → Json
    dict : Fields → Json
    list : Items → Json

  pub data Fields : Type 0 where
    no_field : Fields
    field : String → Json → Fields → Fields

  pub data Items : Type 0 where
    no_item : Items
    item : Json → Items → Items

abbrev fields : Dict Json → Fields
fields [] = no_field
fields ((k, v) ∷ d) = field k v (fields d)

abbrev dict_of : Fields → Dict Json
dict_of no_field = []
dict_of (field k v f) = (k, v) ∷ dict_of f

pub dict_of-fields : (d : Dict Json) → dict_of (fields d) ≡ d
dict_of-fields [] = refl
dict_of-fields ((k, v) ∷ d) = ap (λ x. (k, v) ∷ x) (dict_of-fields d)

abbrev items : List Json → Items
items [] = no_item
items (x ∷ xs) = item x (items xs)

abbrev list_of : Items → List Json
list_of no_item = []
list_of (item x xs) = x ∷ list_of xs

pub list_of-items : (xs : List Json) → list_of (items xs) ≡ xs
list_of-items [] = refl
list_of-items (x ∷ xs) = ap (λ ys. x ∷ ys) (list_of-items xs)

abbrev as_dict : Json → Option (Dict Json)
as_dict (dict f) = some (dict_of f)
as_dict _ = none

abbrev as_list : Json → Option (List Json)
as_list (list xs) = some (list_of xs)
as_list _ = none

abbrev text_of : Json → String
text_of (leaf s) = s
text_of _ = "container"

abbrev pub json : Values Json
json = record {
  of_dict = λ d. dict (fields d);
  of_list = λ xs. list (items xs);
  as_dict = as_dict;
  as_list = as_list;
  as_dict-of_dict = λ d. ap some (dict_of-fields d);
  as_list-of_list = λ xs. ap some (list_of-items xs);
  str = text_of;
}
