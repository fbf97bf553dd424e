-- ===== src/Operations/Queue.antt =====
-- src/operations.js: DurableOfflineQueue. A flush runs alone: what is enqueued while it waits for
-- `send` is not modelled.
pub mod Kept
pub mod Flushed
use syncio.Base.{
  ℕ, zero, suc, ◌+◌, ◌*◌, String, Bool, true, false, Option, none, some, List, [], ◌∷◌, ◌++◌, map,
  Result, ok, err, type_error, io_failed, invalid_queue_state, ◌>>=◌, length, leb, ◌==◌,
  if◌then◌else◌,
}
use syncio.Json.{Value, obj, exotic}
use syncio.Wal.{ReplaceOutcome, replaced, kept, unconfirmed}

pub record Item : Type 0 where
  pub queue_id : String
  pub idempotency_key : String
  pub attempts : ℕ
  pub enqueued_at : String
  pub last_attempt_at : Option String
  pub change : Value

-- What the file has: the text that JSON.stringify makes of some items, or what JSON.parse or the check of
-- the state refuses.
pub data QueueFile : Type 0 where
  no_queue invalid_queue : QueueFile
  queue_of : List Item → QueueFile

pub record Queue : Type 0 where
  pub items : List Item
  pub file : QueueFile

-- The items that JSON.parse makes of the text of some items; `json` is what the two make of a value.
abbrev pub parsed_items : (Value → Value) → List Item → List Item
parsed_items json = map (λ (item : Item). record item { change = json item.change })

unfoldable pub open_queue : (Value → Value) → QueueFile → Result Queue
open_queue json no_queue = ok (record { items = []; file = no_queue })
open_queue json invalid_queue = err invalid_queue_state
open_queue json (queue_of items) =
    ok (record { items = parsed_items json items; file = queue_of items })

-- #mutate: the text of the draft is written, and the draft is the state if that did not fail.
-- `unconfirmed` is a failure behind the rename.
unfoldable pub mutate_queue : ReplaceOutcome → List Item → Queue → Result (Unit {0}) × Queue
mutate_queue replaced draft queue = (ok tt, record { items = draft; file = queue_of draft })
mutate_queue kept draft queue = (err io_failed, queue)
mutate_queue unconfirmed draft queue = (err io_failed, record queue { file = queue_of draft })

unfoldable pub find_item : String → List Item → Option Item
find_item key [] = none
find_item key (item ∷ items) =
    let rest = find_item key items in if item.idempotency_key == key then some item else rest

abbrev pub is_change : Value → Bool
is_change (obj fs) = true
is_change (exotic is_object) = is_object
is_change _ = false

-- The items behind an `enqueue`, and the one that it gives.
abbrev pub enqueued : Option Item → Item → List Item → Item × List Item
enqueued (some item) new items = (item, items)
enqueued none new items = (new, items ++ new ∷ [])

abbrev pub new_item : String → String → String → Value → Item
new_item uuid now key change = record {
  queue_id = uuid;
  idempotency_key = key;
  attempts = 0;
  enqueued_at = now;
  last_attempt_at = none;
  change = change;
}

abbrev pub answer : {A : Type 0} → A → Result (Unit {0}) × Queue → Result A × Queue
answer a (ok _, queue) = (ok a, queue)
answer a (err e, queue) = (err e, queue)

unfoldable pub enqueue_if : Bool → Item → Result (Unit {0}) × Queue → Queue → Result Item × Queue
enqueue_if false item written queue = (err type_error, queue)
enqueue_if true item written queue = answer item written

unfoldable pub enqueue :
    ReplaceOutcome → String → String → String → Value → Queue → Result Item × Queue
unfolding mutate_queue find_item enqueue_if
enqueue outcome uuid now key change queue =
    let both = enqueued (find_item key queue.items) (new_item uuid now key change) queue.items in
    enqueue_if (is_change change) both.0 (mutate_queue outcome both.1 queue) queue

-- What a flush meets, by its rounds: what `send` does, the clock, and the two writes of a round.
pub record FlushWorld : Type 0 where
  pub send : ℕ → Item → Result (Unit {0})
  pub now : ℕ → String
  pub first_write : ℕ → ReplaceOutcome
  pub second_write : ℕ → ReplaceOutcome

pub data Failure : Type 0 where
  max_attempts_exceeded : Item → Failure
  send_failure : Item → Failure

pub record FlushReport : Type 0 where
  pub delivered : ℕ
  pub pending : ℕ
  pub failures : List Failure

abbrev pub attempted : String → Item → Item
attempted now item = record item { attempts = item.attempts + 1; last_attempt_at = some now }

abbrev pub flush_report : ℕ → List Failure → Queue → Result FlushReport × Queue
flush_report delivered failures queue = (
  ok (record { delivered = delivered; pending = length queue.items; failures = failures }),
  queue,
)

-- `await send(...)` and the removal behind it, which the source tries together.
unfoldable pub deliver :
    Result (Unit {0}) → ReplaceOutcome → List Item → Queue → Result (Unit {0}) × Queue
unfolding mutate_queue
deliver (err e) outcome rest queue = (err e, queue)
deliver (ok _) outcome rest queue = mutate_queue outcome rest queue

-- A round of the loop: the flush is over, or an item was delivered.
pub data Round : Type 0 where
  flush_over : Result FlushReport × Queue → Round
  item_delivered : Queue → Round

unfoldable pub after_send : ℕ → Item → Result (Unit {0}) × Queue → Round
after_send delivered item (err e, queue) =
    flush_over (flush_report delivered (send_failure item ∷ []) queue)
after_send delivered item (ok _, queue) = item_delivered queue

-- Behind the write that counts the attempt, whose failure is thrown.
unfoldable pub after_attempt : FlushWorld → ℕ → Item → List Item → Result (Unit {0}) × Queue → Round
unfolding deliver after_send
after_attempt world delivered item rest (err e, queue) = flush_over (err e, queue)
after_attempt world delivered item rest (ok _, queue) =
    after_send delivered item
      (deliver (world.send delivered item) (world.second_write delivered) rest queue)

-- A round for the first item, by whether it was tried as often as it may be.
unfoldable pub flush_first : Bool → FlushWorld → ℕ → Queue → Item → List Item → Round
unfolding after_attempt mutate_queue
flush_first true world delivered queue item rest =
    flush_over (flush_report delivered (max_attempts_exceeded item ∷ []) queue)
flush_first false world delivered queue item rest =
    let tried = attempted (world.now delivered) item in
    after_attempt world delivered tried rest
      (mutate_queue (world.first_write delivered) (tried ∷ rest) queue)

unfoldable pub flush_round : FlushWorld → ℕ → ℕ → Queue → List Item → Round
unfolding flush_first
flush_round world limit delivered queue [] = flush_over (flush_report delivered [] queue)
flush_round world limit delivered queue (item ∷ rest) =
    flush_first (leb limit item.attempts) world delivered queue item rest

-- The loop of `flush`; `none` is fuel that was not enough.
unfoldable pub flush_from : ℕ → FlushWorld → ℕ → ℕ → Queue → Option (Result FlushReport × Queue)
unfolding flush_round
flush_from zero world limit delivered queue = none
flush_from (suc fuel) world limit delivered queue =
    elim (flush_round world limit delivered queue queue.items) [
      | flush_over result ↦ some result
      | item_delivered next ↦ flush_from fuel world limit (delivered + 1) next
    ]

-- The loop ends within a round for each item and one more.
unfoldable pub flush : FlushWorld → ℕ → Queue → Option (Result FlushReport × Queue)
unfolding flush_from
flush world limit queue = flush_from (suc (length queue.items)) world limit 0 queue
