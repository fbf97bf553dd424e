-- ===== src/Document/Path.antt =====
-- src/document.js: paths into documents (getPath, readDirectPath, setMutable, deletePath).
pub mod Reading
use Prim.Native.Char.{Char, code}
use syncio.Base.{
  ℕ, zero, suc, ◌+◌, ◌*◌, ◌-◌, String, Bool, true, false, not, ◌&&◌, Option, none, some, List, [],
  ◌∷◌, ◌++◌, Result, ok, err, type_error, ◌>>=◌, ◌>>◌, require, leb, eqb, ◌==◌, all, any,
  if◌then◌else◌,
}
use syncio.Json.{
  Value, undefined, num, arr, obj, Items, nil, cons, Fields, end, field, set_field, codes,
}
use syncio.Document.Runtime.{double_of}

-- `path.split('.')`
abbrev pub push_char : Char → List String → List String
push_char c [] = String.◌∷◌ c String.[] ∷ []
push_char c (part ∷ parts) = String.◌∷◌ c part ∷ parts

unfoldable pub split_path : String → List String
split_path String.[] = "" ∷ []
split_path (String.◌∷◌ c s) =
    let rest = split_path s in if eqb (code c) b'.' then "" ∷ rest else push_char c rest

-- An own property of a plain object.
unfoldable pub own : String → Fields → Option Value
own k end = none
own k (field j v fs) = if j == k then some v else own k fs

abbrev pub is_none : {A : Type 0} → Option A → Bool
is_none none = true
is_none (some a) = false

unfoldable pub delete_field : String → Fields → Fields
delete_field k end = end
delete_field k (field j v fs) =
    let rest = delete_field k fs in if j == k then rest else field j v rest

-- The number that a property name stands for as an array index: digits without a leading zero.
unfoldable pub digits_from : ℕ → List ℕ → Option ℕ
digits_from n [] = some n
digits_from n (c ∷ cs) =
    let rest = digits_from (n * 10 + (c - b'0')) cs in
    if leb b'0' c && leb c b'9' then rest else none

unfoldable pub index_of : List ℕ → Option ℕ
unfolding digits_from
index_of [] = none
index_of (c ∷ []) = digits_from 0 (c ∷ [])
index_of (c ∷ d ∷ cs) = if eqb c b'0' then none else digits_from 0 (c ∷ d ∷ cs)

unfoldable pub items_length : Items → ℕ
items_length nil = 0
items_length (cons x xs) = suc (items_length xs)

unfoldable pub item_at : ℕ → Items → Option Value
item_at n nil = none
item_at zero (cons x xs) = some x
item_at (suc n) (cons x xs) = item_at n xs

unfoldable pub set_item : ℕ → Value → Items → Items
set_item n v nil = nil
set_item zero v (cons x xs) = cons v xs
set_item (suc n) v (cons x xs) = cons x (set_item n v xs)

-- Object.hasOwn and reading, of an array: an index or its length.
unfoldable pub array_own : String → Items → Option Value
array_own k xs =
    if k == "length"
    then some (num (double_of (items_length xs)))
    else elim (index_of (codes k)) [ none ↦ none | some n ↦ item_at n xs ]

-- Object.hasOwn and reading, where `typeof value === 'object'`; other values have nothing here.
unfoldable pub own_property : String → Value → Option Value
unfolding own array_own
own_property k (obj fs) = own k fs
own_property k (arr xs) = array_own k xs
own_property k _ = none

-- readDirectPath. `none` is `exists: false`.
unfoldable pub read_direct : List String → Value → Option Value
read_direct [] v = some v
read_direct (part ∷ parts) v = elim (own_property part v) [
  | none ↦ none
  | some w ↦ read_direct parts w
]

-- resolveValues: an array stands for its items.
unfoldable mutual
  pub resolve_values : Value → List String → List Value
  resolve_values v [] = v ∷ []
  resolve_values (arr xs) (part ∷ parts) = resolve_items xs part parts
  resolve_values (obj fs) (part ∷ parts) = resolve_fields fs part parts
  resolve_values _ (part ∷ parts) = []

  pub resolve_items : Items → String → List String → List Value
  resolve_items nil part parts = []
  resolve_items (cons x xs) part parts =
      resolve_values x (part ∷ parts) ++ resolve_items xs part parts

  pub resolve_fields : Fields → String → List String → List Value
  resolve_fields end part parts = []
  resolve_fields (field k v fs) part parts = elim (k == part) [
    | true ↦ resolve_values v parts
    | false ↦ resolve_fields fs part parts
  ]

unfoldable pub get_path : Value → String → Result (List Value)
get_path document path = do
  require (not (path == "")) type_error
  ok (resolve_values document (split_path path))

-- What a plain object gives for a name that it has no property of: Object.prototype, one of its methods,
-- or undefined.
pub data Inherited : Type 0 where
  prototype method nothing : Inherited

abbrev pub methods : List String
methods =
    "constructor" ∷ "hasOwnProperty" ∷ "isPrototypeOf" ∷ "propertyIsEnumerable" ∷ "toLocaleString"
    ∷ "toString" ∷ "valueOf" ∷ "__defineGetter__" ∷ "__defineSetter__" ∷ "__lookupGetter__"
    ∷ "__lookupSetter__" ∷ []

abbrev pub inherited : String → Inherited
inherited part =
    if part == "__proto__"
    then prototype
    else if any (λ name. part == name) methods
    then method
    else nothing

-- `current[part] = value`: where it is no property of the object, `__proto__` is a setter, which leaves
-- the properties as they are.
abbrev pub assign : String → Value → Fields → Fields
assign part v fs = if part == "__proto__" && is_none (own part fs) then fs else set_field part v fs

-- The walk of setMutable, which makes the objects that are missing on its way. Behind an inherited
-- `__proto__` it writes into Object.prototype, which every object shares: the document stays as it is,
-- and what becomes of the prototype is not modelled, nor whether the walk throws there.
unfoldable pub set_parts : List String → Value → Fields → Result Fields
set_parts [] v fs = ok fs
set_parts (part ∷ []) v fs = ok (assign part v fs)
set_parts (part ∷ next ∷ parts) v fs = elim (own part fs) [
  | none ↦ elim (inherited part) [
    | prototype ↦ ok fs
    | method ↦ err type_error
    | nothing ↦ do inner ← set_parts (next ∷ parts) v end; ok (set_field part (obj inner) fs)
  ]
  | some undefined ↦ do inner ← set_parts (next ∷ parts) v end; ok (set_field part (obj inner) fs)
  | some (obj gs) ↦ do inner ← set_parts (next ∷ parts) v gs; ok (set_field part (obj inner) fs)
  | some _ ↦ err type_error
]

unfoldable pub set_mutable : String → Value → Fields → Result Fields
set_mutable path v fs = do
  require (all (λ part. not (part == "")) (split_path path)) type_error
  set_parts (split_path path) v fs

-- `delete array[part]` leaves a hole, which reads as undefined; the length cannot be deleted.
unfoldable pub delete_item : String → Items → Result Items
delete_item k xs =
    if k == "length"
    then err type_error
    else elim (index_of (codes k)) [ none ↦ ok xs | some n ↦ ok (set_item n undefined xs) ]

-- deletePath, whose walk reads arrays by their indices too.
unfoldable pub delete_parts : List String → Value → Result Value
unfolding delete_item
delete_parts (part ∷ []) (obj fs) = ok (obj (delete_field part fs))
delete_parts (part ∷ []) (arr xs) = do ys ← delete_item part xs; ok (arr ys)
delete_parts (part ∷ next ∷ parts) (obj fs) = elim (own part fs) [
  | none ↦ ok (obj fs)
  | some v ↦ do w ← delete_parts (next ∷ parts) v; ok (obj (set_field part w fs))
]
delete_parts (part ∷ next ∷ parts) (arr xs) = elim (index_of (codes part)) [
  | none ↦ ok (arr xs)
  | some n ↦ elim (item_at n xs) [
    | none ↦ ok (arr xs)
    | some v ↦ do w ← delete_parts (next ∷ parts) v; ok (arr (set_item n w xs))
  ]
]
delete_parts _ v = ok v

-- The top of a document is a plain object.
abbrev pub fields_or : Fields → Value → Fields
fields_or fs (obj gs) = gs
fields_or fs _ = fs

unfoldable pub delete_path : String → Fields → Result Fields
delete_path path fs = do v ← delete_parts (split_path path) (obj fs); ok (fields_or fs v)
