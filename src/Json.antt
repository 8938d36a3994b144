-- ===== src/Json.antt =====
-- JSON values, as the columns of the store hold them. A number is kept as the text that Python's
-- `repr` gives it: no modelled code computes with one. `json.dumps` and `json.loads` are read as inverse to one another.
use vermay_agent.Prelude.{
  String, String-discrete, ◌==◌, Bool, true, false, ◌&&◌, Option, none, some, List, [], ◌∷◌,
  if◌then◌else◌, truthy, not,
}
use mathlib.Core.Bool.{Bool-discrete}

mutual
  pub data Json : Type 0 where
    null : Json
    bool : Bool → Json
    num : String → Json
    str : String → Json
    arr : Items → Json
    obj : Fields → Json

  pub data Items : Type 0 where
    nil : Items
    cons : Json → Items → Items

  pub data Fields : Type 0 where
    end : Fields
    field : String → Json → Fields → Fields

pub Json-discrete : Discrete Json
Json-discrete = hlevel (String-discrete, Bool-discrete)

-- `d.get(key)`
unfoldable pub get : String → Fields → Option Json
get key end = none
get key (field name value rest) = if name == key then some value else get key rest

-- `set(d) - {a, b}` is empty
unfoldable pub only_keys : String → String → Fields → Bool
only_keys a b end = true
only_keys a b (field name value rest) =
    (if name == a then true else name == b) && only_keys a b rest

unfoldable pub items : List Json → Items
items [] = nil
items (x ∷ xs) = cons x (items xs)

unfoldable pub list_of_items : Items → List Json
list_of_items nil = []
list_of_items (cons x xs) = x ∷ list_of_items xs

unfoldable pub is_object : Json → Bool
is_object (obj _) = true
is_object _ = false

unfoldable pub all_objects : List Json → Bool
all_objects [] = true
all_objects (x ∷ xs) = is_object x && all_objects xs

abbrev pub entry : String → Json → Fields
entry name value = field name value end

abbrev pub is_empty : Fields → Bool
is_empty end = true
is_empty (field _ _ _) = false

-- `a == b` on JSON values, for objects that list their keys in the same order and numbers of one type;
-- Python's `==` also ignores the order and takes 1, 1.0 and True as equal.
unfoldable pub json_eq : Json → Json → Bool
json_eq a b = elim (Json-discrete a b) [ yes _ ↦ true | no _ ↦ false ]

-- `bool(value)`
unfoldable pub json_truthy : Json → Bool
json_truthy null = false
json_truthy (bool b) = b
json_truthy (num n) =
    if n == "0"
    then false
    else if n == "-0"
    then false
    else if n == "0.0"
    then false
    else not (n == "-0.0")
json_truthy (str s) = truthy s
json_truthy (arr nil) = false
json_truthy (arr _) = true
json_truthy (obj fields) = not (is_empty fields)

-- `d[key] = value`
unfoldable pub assign : String → Json → Fields → Fields
assign key value end = field key value end
assign key value (field name old rest) =
    let later = assign key value rest in
    if name == key then field name value rest else field name old later

-- `{**a, **b}`
unfoldable pub merge : Fields → Fields → Fields
merge a end = a
merge a (field name value rest) = merge (assign name value a) rest
