-- ===== src/Json/Text.antt =====
-- What the text of a value gives back. What JSON.parse makes of the text that JSON.stringify makes of a
-- value is a parameter, `json`; the language says that it is the value itself where the value is exact.
use syncio.Base.{◌≡◌, refl, Bool, true, false, not, ◌&&◌, List, [], ◌∷◌, All, map, eqb}
use syncio.Json.{
  Value, undefined, null, bool, num, str, arr, obj, exotic, Items, nil, cons, Fields, end, field,
  is_finite,
}
use syncio.Change.{Event}

-- No `undefined`, no number but a finite one that is not the negative zero, and nothing exotic.
unfoldable mutual
  unfolding is_finite

  pub is_exact : Value → Bool
  is_exact undefined = false
  is_exact null = true
  is_exact (bool b) = true
  is_exact (num n) = is_finite n && not (eqb n 0x8000000000000000)
  is_exact (str s) = true
  is_exact (arr xs) = exact_items xs
  is_exact (obj fs) = exact_fields fs
  is_exact (exotic b) = false

  pub exact_items : Items → Bool
  exact_items nil = true
  exact_items (cons x xs) = is_exact x && exact_items xs

  pub exact_fields : Fields → Bool
  exact_fields end = true
  exact_fields (field k v fs) = is_exact v && exact_fields fs

-- What the language says of `json`.
abbrev pub KeepsExact : (Value → Value) → Type 0
KeepsExact json = (v : Value) → is_exact v ≡ true → json v ≡ v

-- A field of an object: JSON.stringify leaves it out where it is undefined, which is then read.
abbrev pub parsed_field : (Value → Value) → Value → Value
parsed_field json undefined = undefined
parsed_field json v = json v

abbrev pub exact_field : Value → Bool
exact_field undefined = true
exact_field v = is_exact v

abbrev pub parsed_event : (Value → Value) → Event → Event
parsed_event json e = record e { id = parsed_field json e.id; body = parsed_field json e.body }

-- An event whose values JSON keeps.
abbrev pub IsExactEvent : Event → Type 0
IsExactEvent e = (exact_field e.id ≡ true) × (exact_field e.body ≡ true)

module _ (json : Value → Value) (keeps : KeepsExact json) where
  parsed_field-exact : (v : Value) → exact_field v ≡ true → parsed_field json v ≡ v
  parsed_field-exact undefined h = refl
  parsed_field-exact v h = keeps v h

  parsed_event-exact : (e : Event) → IsExactEvent e → parsed_event json e ≡ e
  parsed_event-exact e (of_id, of_body) =
      rw (parsed_field-exact e.id of_id, parsed_field-exact e.body of_body) refl

  -- Events whose values JSON keeps are read as they are.
  pub parsed_events-exact :
      (es : List Event) → All IsExactEvent es → map (parsed_event json) es ≡ es
  parsed_events-exact [] h = refl
  parsed_events-exact (e ∷ es) (here, there) =
      rw (parsed_event-exact e here, parsed_events-exact es there) refl
