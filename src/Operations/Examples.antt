-- ===== src/Operations/Examples.antt =====
-- Runs of the queue, the tokens and the backups on concrete inputs, and witnesses
-- (src/operations.js).
use syncio.Document.Path.{split_path}
use syncio.Document.Runtime.{natural_of, double_of}
use syncio.Base.{
  ℕ, ◌≡◌, refl, String, true, false, [], ◌∷◌, Result, ok, err, some, none, ◌≢◌, send_failed, eqb,
  eq_iff, arith, ◌⊎◌,
}
use syncio.Json.{Value, str, obj, end, field, truthy}
use syncio.Wal.{replaced}
use syncio.Operations.Queue.{
  Item, Queue, queue_of, find_item, FlushWorld, enqueue, flush, new_item, send_failure, attempted,
}
use syncio.Operations.Queue.Kept.{enqueue-again}
use syncio.Operations.Queue.Flushed.{IsFlushed, flush-IsFlushed}
use syncio.Operations.Tokens.{Codec, payload_of, issue, verify}
use syncio.Operations.Tokens.Signed.{IsLawful, verify-issue, verify-extended}
use syncio.Operations.Backup.{
  Vault, IsFaithful, backup, restore, backup_payload, seal, restore-backup,
}

abbrev empty : Queue
empty = record { items = []; file = queue_of [] }

abbrev note : String → Value
note s = obj (field "note" (str s) end)

abbrev two : Queue
two =
    (enqueue replaced "q2" "t" "k2" (note "b")
      (enqueue replaced "q1" "t" "k1" (note "a") empty).1).1

abbrev accepts_first : ℕ → Item → Result (Unit {0})
accepts_first n item = elim (eqb n 0) [ true ↦ ok tt | false ↦ err send_failed ]

abbrev world : FlushWorld
world = record {
  send = accepts_first;
  now = λ n. "u";
  first_write = λ n. replaced;
  second_write = λ n. replaced;
}

-- The first item is delivered and the second is left, with one attempt.
flush_runs :
    flush world 20 two
    ≡ some (
      ok (record {
        delivered = 1;
        pending = 1;
        failures = send_failure (attempted "u" (new_item "q2" "t" "k2" (note "b"))) ∷ [];
      }),
      record {
        items = attempted "u" (new_item "q2" "t" "k2" (note "b")) ∷ [];
        file = queue_of (attempted "u" (new_item "q2" "t" "k2" (note "b")) ∷ []);
      },
    )
unfolding flush enqueue
flush_runs = refl

flush-IsFlushed_example : IsFlushed 20 0 two.items (flush world 20 two)
flush-IsFlushed_example = flush-IsFlushed world 20 two

enqueue-again_example :
    (new_item "q1" "t" "k1" (note "a") ≡ new_item "q1" "t" "k1" (note "a"))
    × (find_item "k1" (enqueue replaced "q1" "t" "k1" (note "a") empty).1.items
        ≡ some (new_item "q1" "t" "k1" (note "a")))
    × ((enqueue replaced "q3" "u" "k1"
          (note "c")
          (enqueue replaced "q1" "t" "k1" (note "a") empty).1).1
        ≡ (enqueue replaced "q1" "t" "k1" (note "a") empty).1)
    × ((enqueue replaced "q1" "t" "k1" (note "a") empty).1.file
        ≡ queue_of (enqueue replaced "q1" "t" "k1" (note "a") empty).1.items)
unfolding enqueue
enqueue-again_example =
    enqueue-again replaced replaced "q1" "t" "k1" "q3" "u" (note "a") (note "c") empty
      (new_item "q1" "t" "k1" (note "a")) (new_item "q1" "t" "k1" (note "a")) refl refl

-- Bytes that carry nothing, with JSON of one payload.
abbrev claims : Value
claims = payload_of "syncio" (str "u") (str "p") (str "member") ("read" ∷ []) 1000 60 "j"

abbrev codec : Codec (Unit {0})
codec = record {
  stringify = λ v. "json";
  parse = λ s. some claims;
  utf8 = λ s. tt;
  text = λ b. "json";
  to_base64url = λ b. "YQ";
  from_base64url = λ s. tt;
  hmac = λ s. tt;
  same_bytes = λ a b. true;
}

unlike : ◌≢◌ {A = String} "YQ" ""
unlike h = let no : false ≡ true = (eq_iff "YQ" "").1 h in cc

codec-IsLawful : IsLawful codec claims
codec-IsLawful = record {
  parsed = refl;
  decoded = refl;
  bytes = λ b. refl;
  plain = λ b. refl;
  same = λ b. refl;
  some_json = unlike;
  some_signature = λ s. unlike;
}

verify-issue_example : verify codec "syncio" 1059 (str "YQ.YQ") ≡ ok claims
unfolding natural_of double_of issue truthy
verify-issue_example =
    verify-issue codec "syncio" (str "u") (str "p") (str "member") ("read" ∷ []) 1000 60 1059 "j"
      "YQ.YQ" codec-IsLawful refl (omega arith) refl refl

verify-extended_example :
    verify codec "syncio" 1059 (str "YQ.YQ..x") ≡ verify codec "syncio" 1059 (str "YQ.YQ")
unfolding split_path
verify-extended_example = verify-extended codec "syncio" 1059 "YQ.YQ" "x" "YQ" "YQ" refl refl refl

abbrev saved : Value
saved = backup_payload "t" (obj end) (note "a")

abbrev vault : Vault (Unit {0})
vault = record {
  stringify = λ v. "json";
  parse = λ s. some saved;
  utf8 = λ s. tt;
  text = λ b. "json";
  to_base64 = λ b. "YQ";
  from_base64 = λ s. tt;
  sha256 = λ b. "00";
  encrypt = λ iv b. (tt, tt);
  decrypt = λ iv tag b. some tt;
}

vault-IsFaithful : IsFaithful vault saved
vault-IsFaithful = record {
  parsed = refl;
  decoded = refl;
  bytes = λ b. refl;
  opened = λ iv b. refl;
}

restore-backup_example :
    (none ≡ some (seal vault tt saved)) ⊎ (restore vault (seal vault tt saved) ≡ ok saved)
unfolding truthy backup
restore-backup_example =
    restore-backup vault replaced tt "t" (obj end) (note "a") none vault-IsFaithful refl
      (seal vault tt saved) refl
