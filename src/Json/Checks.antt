-- ===== src/Json/Checks.antt =====
-- Laws of an object's fields and of the checks on records and identities.
use text.Mathlib.TextPositions.{eq_refl}
use syncio.Base.{◌≡◌, refl, String, true, false, ok, arith, ◌==◌, eq_iff, if◌then◌else◌}
use syncio.Json.{
  Value, undefined, str, obj, Fields, end, field, get_field, set_field, json_compatible,
  json_fields, validate_record, validate_id, valid_id, truthy, validate_collection_name,
  valid_collection_name,
}

pub get_field-set_field :
    (k j : String) (v : Value) (fs : Fields)
    → get_field j (set_field k v fs) ≡ (if k == j then v else get_field j fs)
unfolding get_field set_field
get_field-set_field k j v end = refl
get_field-set_field k j v (field i w fs) =
    ground (arith, eq_iff k j, eq_iff i k, eq_iff i j, get_field-set_field k j v fs)

pub get_field-set_field_self :
    (k : String) (v : Value) (fs : Fields) → get_field k (set_field k v fs) ≡ v
get_field-set_field_self k v fs = rw (get_field-set_field k k v fs, eq_refl k)

pub json_fields-set_field :
    (k s : String) (fs : Fields)
    → json_fields fs ≡ true
    → json_fields (set_field k (str s) fs) ≡ true
unfolding json_compatible set_field
json_fields-set_field k s end h = refl
json_fields-set_field k s (field i w fs) h = ground (arith, json_fields-set_field k s fs)

pub validate_record-eq-ok :
    (v : Value) {fs : Fields} → validate_record v ≡ ok fs → (v ≡ obj fs) × (json_fields fs ≡ true)
unfolding validate_record
validate_record-eq-ok (obj gs) h = ground arith
validate_record-eq-ok undefined h = cc
validate_record-eq-ok _ h = cc

pub validate_record-obj : (fs : Fields) → json_fields fs ≡ true → validate_record (obj fs) ≡ ok fs
unfolding validate_record
validate_record-obj fs h = rw h

pub validate_id-eq-ok :
    (v : Value) {id : String} → validate_id v ≡ ok id → (v ≡ str id) × (valid_id id ≡ true)
unfolding validate_id
validate_id-eq-ok (str s) h = ground arith
validate_id-eq-ok undefined h = cc
validate_id-eq-ok _ h = cc

pub validate_id-str : (id : String) → valid_id id ≡ true → validate_id (str id) ≡ ok id
unfolding validate_id
validate_id-str id h = rw h

valid_id-empty : valid_id "" ≡ false
unfolding valid_id
valid_id-empty = refl

pub truthy-valid_id : (id : String) → valid_id id ≡ true → truthy (str id) ≡ true
unfolding truthy
truthy-valid_id id h = ground (arith, eq_iff id "", valid_id-empty)

pub validate_collection_name-eq-ok :
    (name : String) → validate_collection_name name ≡ ok tt → valid_collection_name name ≡ true
unfolding validate_collection_name
validate_collection_name-eq-ok name h = ground arith
