-- ===== src/Control/Records.antt =====
-- src/control-plane.js: what its methods use of the database and of the runtime.
use syncio.Base.{String, Bool, false, ◌&&◌, Result, ok, err, type_error, ◌>>=◌, ◌==◌}
use syncio.Json.{
  Value, undefined, null, str, arr, obj, Items, nil, cons, Fields, end, property, truthy,
}
use syncio.Wal.{Payload}
use syncio.Database.State.{Database}
use syncio.Database.Events.{Env}
use syncio.Database.Same.{Equality}
use syncio.Database.Commit.{Io}
use syncio.Database.Collection.{get_record}
use syncio.Database.Transaction.{Work, throw, transaction}

-- The runtime: isDeepStrictEqual and the digest of the log, toLowerCase, the SHA-256 of hashEmail, and
-- the text of a value that is not a text in a template.
pub record Host : Type 0 where
  pub equality : Equality
  pub digest : Payload → String
  pub lower_case : String → String
  pub hash_email : String → String
  pub convert : Value → Result String

-- What one call finds: the file system, what the transaction draws, crypto.randomUUID and the clock.
pub record Call : Type 0 where
  pub io : Io
  pub env : Env
  pub uuid : String
  pub now : String

-- A call of the transaction's API whose error is not caught.
abbrev pub or_throw : {A : Type 0} → (A → Work) → Result A → Work
or_throw next (ok a) = next a
or_throw next (err e) = throw e

-- `value === text`
abbrev pub is_text : String → Value → Bool
is_text s (str t) = t == s
is_text s _ = false

-- `value?.status === 'active'`
unfoldable pub is_active : Value → Bool
unfolding truthy property
is_active v = truthy v && is_text "active" (property "status" v)

-- `value ?? null`, and a default for what is undefined.
abbrev pub or_null : Value → Value
or_null undefined = null
or_null v = v

abbrev pub or_default : Value → Value → Value
or_default d undefined = d
or_default d v = v

-- `{ ...value }`
abbrev pub spread : Value → Fields
spread (obj fs) = fs
spread _ = end

-- `[...value]`
abbrev pub letters : String → Items
letters String.[] = nil
letters (String.◌∷◌ c s) = cons (str (String.◌∷◌ c String.[])) (letters s)

unfoldable pub spread_items : Value → Result Items
spread_items (arr xs) = ok xs
spread_items (str s) = ok (letters s)
spread_items _ = err type_error

-- `${value}`
unfoldable pub text_of : Host → Value → Result String
text_of host (str s) = ok s
text_of host v = host.convert v

-- `this.db.collection(name).get(id)`, where `id` is made a property's name.
unfoldable pub fetch : Host → String → Value → Database → Result Value
unfolding text_of get_record
fetch host name id db = do key ← text_of host id; ok (get_record name key db)

-- A transaction of the control plane's database.
unfoldable pub transact : Host → Call → Work → Database → Result Value × Database
unfolding transaction
transact host call work db = transaction host.equality host.digest call.io call.env work db

-- What a method gives back when its transaction has succeeded.
abbrev pub after : (Value → Value) → Result Value × Database → Result Value × Database
after result (ok v, db) = (ok (result v), db)
after result (err e, db) = (err e, db)
