-- ===== src/Operations/Backup.antt =====
-- src/operations.js: createEncryptedBackupManager. The key is that of the manager.
use syncio.Base.{
  ◌≡◌, ◌⊎◌, inl, inr, refl, subst, String, true, ◌&&◌, Option, none, some, Result, ok, err, ◌>>=◌,
  ◌>>◌, require, Error, unsupported_backup, backup_digest_mismatch, backup_refused, invalid_backup,
  io_failed, ◌==◌, eq_iff,
}
use syncio.Json.{Value, is_finite, num, str, obj, field, end, truthy, property, get_field}
use syncio.Document.Runtime.{double_of, strict_equal, number_equal}
use syncio.Wal.{ReplaceOutcome, replaced, kept, unconfirmed}

-- Buffer, JSON and node:crypto. `encrypt` gives the text and the tag of AES-256-GCM under the
-- manager's key, and `decrypt` is `none` where the tag does not fit.
pub record Vault (Bytes : Type 0) : Type 0 where
  pub stringify : Value → String
  pub parse : String → Option Value
  pub utf8 : String → Bytes
  pub text : Bytes → String
  pub to_base64 : Bytes → String
  pub from_base64 : String → Bytes
  pub sha256 : Bytes → String
  pub encrypt : Bytes → Bytes → Bytes × Bytes
  pub decrypt : Bytes → Bytes → Bytes → Option Bytes

pub record Envelope : Type 0 where
  pub format : String
  pub iv : String
  pub tag : String
  pub ciphertext : String
  pub digest : String

abbrev pub backup_payload : String → Value → Value → Value
backup_payload now metadata state = obj (
    field "version" (num (double_of 1))
      (field "createdAt" (str now) (field "metadata" metadata (field "state" state end))))

-- Of an option, or an error.
abbrev pub or_error {ℓ} : {A : Type ℓ} → Error → Option A → Result A
or_error e none = err e
or_error e (some a) = ok a

unfoldable pub check_backup : Value → Result Value
unfolding strict_equal
check_backup payload = do
  require
      (strict_equal (property "version" payload) (num (double_of 1))
        && truthy (property "state" payload))
      invalid_backup
  ok payload

module _ {Bytes : Type 0} (vault : Vault Bytes) where
  unfoldable pub seal : Bytes → Value → Envelope
  seal iv payload =
      let sealed = vault.encrypt iv (vault.utf8 (vault.stringify payload)) in
      record {
        format = "syncio-backup/1";
        iv = vault.to_base64 iv;
        tag = vault.to_base64 sealed.1;
        ciphertext = vault.to_base64 sealed.0;
        digest = vault.sha256 sealed.0;
      }

  -- What the file has behind a backup, and the digest that is given back. `before` is what it had.
  unfoldable pub backup :
      ReplaceOutcome
      → Bytes
      → String
      → Value
      → Value
      → Option Envelope
      → Result String × Option Envelope
  unfolding seal
  backup outcome iv now metadata state before =
      let envelope = seal iv (backup_payload now metadata state) in
      elim outcome [
        | replaced ↦ (ok envelope.digest, some envelope)
        | kept ↦ (err io_failed, before)
        | unconfirmed ↦ (err io_failed, some envelope)
      ]

  -- `restore` of a file that has the fields of an envelope.
  unfoldable pub restore : Envelope → Result Value
  unfolding check_backup
  restore envelope = do
    require (envelope.format == "syncio-backup/1") unsupported_backup
    let ciphertext = vault.from_base64 envelope.ciphertext
    require (vault.sha256 ciphertext == envelope.digest) backup_digest_mismatch
    plaintext ←
        or_error backup_refused (
          vault.decrypt (vault.from_base64 envelope.iv) (vault.from_base64 envelope.tag) ciphertext)
    payload ← or_error invalid_backup (vault.parse (vault.text plaintext))
    check_backup payload

-- What JSON, for a payload, base64 and the cipher promise.
pub record IsFaithful {Bytes : Type 0} (vault : Vault Bytes) (payload : Value) : Type 0 where
  pub parsed : vault.parse (vault.stringify payload) ≡ some payload
  pub decoded : vault.text (vault.utf8 (vault.stringify payload)) ≡ vault.stringify payload
  pub bytes : (b : Bytes) → vault.from_base64 (vault.to_base64 b) ≡ b
  pub opened :
      (iv plaintext : Bytes)
      → vault.decrypt iv (vault.encrypt iv plaintext).1 (vault.encrypt iv plaintext).0
        ≡ some plaintext

module _ {Bytes : Type 0} (vault : Vault Bytes) where
  check_backup-payload :
      (now : String) (metadata state : Value)
      → truthy state ≡ true
      → check_backup (backup_payload now metadata state) ≡ ok (backup_payload now metadata state)
  unfolding check_backup property get_field strict_equal number_equal double_of is_finite
  check_backup-payload now metadata state there = rw there refl

  restore-seal :
      (iv : Bytes) (now : String) (metadata state : Value)
      → IsFaithful vault (backup_payload now metadata state)
      → truthy state ≡ true
      → restore vault (seal vault iv (backup_payload now metadata state))
        ≡ ok (backup_payload now metadata state)
  unfolding seal restore
  restore-seal iv now metadata state faithful there =
      let payload = backup_payload now metadata state in
      let plaintext = vault.utf8 (vault.stringify payload) in
      rw
        (
          faithful.bytes (vault.encrypt iv plaintext).0,
          faithful.bytes (vault.encrypt iv plaintext).1,
          faithful.bytes iv,
          (eq_iff _ _).1 (refl {a = vault.sha256 (vault.encrypt iv plaintext).0}),
          faithful.opened iv plaintext,
          faithful.decoded,
          faithful.parsed,
        )
        (check_backup-payload now metadata state there)

  -- Whatever the file system does, the file behind a backup is the one that was there or one from
  -- which exactly the payload is restored, if the cipher and the codecs keep their promises and the
  -- state is truthy.
  pub restore-backup :
      (outcome : ReplaceOutcome) (iv : Bytes) (now : String) (metadata state : Value)
      (before : Option Envelope)
      → IsFaithful vault (backup_payload now metadata state)
      → truthy state ≡ true
      → (envelope : Envelope)
      → (backup vault outcome iv now metadata state before).1 ≡ some envelope
      → (before ≡ some envelope) ⊎ (restore vault envelope ≡ ok (backup_payload now metadata state))
  unfolding backup
  restore-backup replaced iv now metadata state before faithful there envelope left =
      let same : seal vault iv (backup_payload now metadata state) ≡ envelope = cc in
      inr (
        subst (λ e. restore vault e ≡ ok (backup_payload now metadata state)) same
          (restore-seal iv now metadata state faithful there))
  restore-backup kept iv now metadata state before faithful there envelope left = inl left
  restore-backup unconfirmed iv now metadata state before faithful there envelope left =
      let same : seal vault iv (backup_payload now metadata state) ≡ envelope = cc in
      inr (
        subst (λ e. restore vault e ≡ ok (backup_payload now metadata state)) same
          (restore-seal iv now metadata state faithful there))
