-- ===== src/Py/Value.antt =====
-- The values of JSON and YAML documents, and of the attributes that the Docker client returns. The
-- keys of a dictionary are texts. A float is its 64-bit pattern, which the code never looks into.
use docker_interface.Prelude.{
  ℕ, String, ◌≡◌, refl, ap, Bool, true, false, List, [], ◌∷◌, Option, none, some, get_or,
}
use docker_interface.Prelude.Int.{ℤ, pos}
use docker_interface.Py.Dict.{Dict, lookup, string_eq}
use docker_interface.Py.Chars.{chars, to_text, lower}

mutual
  pub data Value : Type 0 where
    null : Value
    bool : Bool → Value
    int : ℤ → Value
    float : ℕ → Value
    str : String → Value
    list : Items → Value
    dict : Fields → Value

  pub data Items : Type 0 where
    nil : Items
    cons : Value → Items → Items

  pub data Fields : Type 0 where
    end : Fields
    field : String → Value → Fields → Fields

abbrev pub items : Items → List Value
items nil = []
items (cons v vs) = v ∷ items vs

abbrev pub of_items : List Value → Items
of_items [] = nil
of_items (v ∷ vs) = cons v (of_items vs)

abbrev pub fields : Fields → Dict String Value
fields end = []
fields (field k v fs) = (k, v) ∷ fields fs

abbrev pub of_fields : Dict String Value → Fields
of_fields [] = end
of_fields ((k, v) ∷ d) = field k v (of_fields d)

pub items-of_items : (vs : List Value) → items (of_items vs) ≡ vs
items-of_items [] = refl
items-of_items (v ∷ vs) = ap (◌∷◌ v) (items-of_items vs)

pub fields-of_fields : (d : Dict String Value) → fields (of_fields d) ≡ d
fields-of_fields [] = refl
fields-of_fields ((k, v) ∷ d) = ap (◌∷◌ (k, v)) (fields-of_fields d)

-- `x if isinstance(x, dict) else None`, and so for the other classes.
abbrev pub as_dict : Value → Option (Dict String Value)
as_dict (dict fs) = some (fields fs)
as_dict _ = none

abbrev pub as_list : Value → Option (List Value)
as_list (list vs) = some (items vs)
as_list _ = none

abbrev pub as_str : Value → Option String
as_str (str s) = some s
as_str _ = none

-- `isinstance(x, int)`: `bool` is a subclass of `int`, with the values 0 and 1.
abbrev pub as_int : Value → Option ℤ
as_int (int n) = some n
as_int (bool true) = some (pos 1)
as_int (bool false) = some (pos 0)
as_int _ = none

-- `d.get(k)`: a missing key gives `None`.
unfoldable pub get : String → Dict String Value → Value
unfolding lookup
get k d = get_or (lookup k d) null

-- `x if isinstance(x, dict) else {}`, and the list of that form.
abbrev pub dict_or_empty : Value → Dict String Value
dict_or_empty v = get_or (as_dict v) []

abbrev pub list_or_empty : Value → List Value
list_or_empty v = get_or (as_list v) []

-- `s.lower()` of a whole text.
unfoldable pub lower_text : String → String
unfolding lower chars to_text
lower_text s = to_text (lower (chars s))
