-- ===== src/Operations/Queue/Kept.antt =====
-- What enqueueing keeps (src/operations.js: DurableOfflineQueue.enqueue).
use syncio.Base.{
  ◌≡◌, refl, sym, ap, subst, ◌∙◌, String, Bool, true, false, Bool-cases, inl, inr, Option, none,
  some, List, [], ◌∷◌, ◌++◌, ok, ◌==◌, eq_iff, ok-injective, if◌then◌else◌,
}
use syncio.Json.{Value}
use syncio.Wal.{ReplaceOutcome, replaced, kept, unconfirmed}
use syncio.Operations.Queue.{
  Item, Queue, queue_of, find_item, mutate_queue, enqueue, enqueue_if, enqueued, new_item,
  is_change,
}

find_item-append :
    (key : String) (items : List Item) (item : Item)
    → find_item key items ≡ none
    → item.idempotency_key ≡ key
    → find_item key (items ++ item ∷ []) ≡ some item
unfolding find_item
find_item-append key [] item missing named = rw ((eq_iff item.idempotency_key key).1 named) refl
find_item-append key (x ∷ xs) item missing named = elim (Bool-cases (x.idempotency_key == key)) [
  | inl here ↦
      let no : some x ≡ none =
        subst (λ b. (if b then some x else find_item key xs) ≡ none) here missing in
      cc
  | inr other ↦ rw other (
      find_item-append key xs item
        (subst (λ b. (if b then some x else find_item key xs) ≡ none) other missing) named)
]

-- What an item that was enqueued is found to be.
enqueued-found :
    (key uuid now : String) (change : Value) (items : List Item) (found : Option Item)
    → find_item key items ≡ found
    → find_item key (enqueued found (new_item uuid now key change) items).1
      ≡ some (enqueued found (new_item uuid now key change) items).0
enqueued-found key uuid now change items none missing =
    find_item-append key items (new_item uuid now key change) missing refl
enqueued-found key uuid now change items (some item) there = there

-- An answer that is given tells that the draft was written.
enqueue_if-ok :
    (test : Bool) (outcome : ReplaceOutcome) (a b : Item) (draft : List Item) (queue : Queue)
    → (enqueue_if test a (mutate_queue outcome draft queue) queue).0 ≡ ok b
    → (a ≡ b)
      × ((enqueue_if test a (mutate_queue outcome draft queue) queue).1
          ≡ record { items = draft; file = queue_of draft })
unfolding mutate_queue enqueue_if
enqueue_if-ok true replaced a b draft queue h = (ok-injective h, refl)
enqueue_if-ok true kept a b draft queue h = cc
enqueue_if-ok true unconfirmed a b draft queue h = cc
enqueue_if-ok false outcome a b draft queue h = cc

enqueue-ok :
    (outcome : ReplaceOutcome) (uuid now key : String) (change : Value) (queue : Queue)
    (item : Item) (found : Option Item)
    → find_item key queue.items ≡ found
    → (enqueue outcome uuid now key change queue).0 ≡ ok item
    → ((enqueued found (new_item uuid now key change) queue.items).0 ≡ item)
      × ((enqueue outcome uuid now key change queue).1 ≡ record {
        items = (enqueued found (new_item uuid now key change) queue.items).1;
        file = queue_of (enqueued found (new_item uuid now key change) queue.items).1;
      })
unfolding enqueue
enqueue-ok outcome uuid now key change queue item found is h =
    let new = new_item uuid now key change in
    subst
      (λ o.
        ((enqueued o new queue.items).0 ≡ item)
        × ((enqueue outcome uuid now key change queue).1 ≡ record {
          items = (enqueued o new queue.items).1;
          file = queue_of (enqueued o new queue.items).1;
        }))
      is (enqueue_if-ok (is_change change) outcome _ item _ queue h)

abbrev queue_with : List Item → Queue
queue_with items = record { items = items; file = queue_of items }

-- An enqueue that succeeds gives an item that the queue then has under the key, and enqueueing anything
-- else under that key again, where it succeeds, gives that item and leaves the items in memory and the
-- text in the file as they are; that text was made of the items in memory.
pub enqueue-again :
    (outcome outcome' : ReplaceOutcome) (uuid now key uuid' now' : String) (change change' : Value)
    (queue : Queue) (item item' : Item)
    → (enqueue outcome uuid now key change queue).0 ≡ ok item
    → (enqueue outcome' uuid' now' key change' (enqueue outcome uuid now key change queue).1).0
      ≡ ok item'
    → (item' ≡ item)
      × (find_item key (enqueue outcome uuid now key change queue).1.items ≡ some item)
      × ((enqueue outcome' uuid' now' key change' (enqueue outcome uuid now key change queue).1).1
          ≡ (enqueue outcome uuid now key change queue).1)
      × ((enqueue outcome uuid now key change queue).1.file
          ≡ queue_of (enqueue outcome uuid now key change queue).1.items)
enqueue-again outcome outcome' uuid now key uuid' now' change change' queue item item' first
      second =
    let new = new_item uuid now key change in
    let both = enqueued (find_item key queue.items) new queue.items in
    let (is_item, state) =
      enqueue-ok outcome uuid now key change queue item (find_item key queue.items) refl first in
    let after : Queue = (enqueue outcome uuid now key change queue).1 in
    let items : after.items ≡ both.1 = ap (λ (q : Queue). q.items) state in
    let file : after.file ≡ queue_of both.1 = ap (λ (q : Queue). q.file) state in
    let there : find_item key after.items ≡ some both.0 =
      ap (find_item key) items
      ∙ enqueued-found key uuid now change queue.items (find_item key queue.items) refl in
    let (is_same, again) =
      enqueue-ok outcome' uuid' now' key change' after item' (some both.0) there second in
    (
      sym is_same ∙ is_item,
      there ∙ ap some is_item,
      again ∙ ap queue_with items ∙ sym state,
      file ∙ ap queue_of (sym items),
    )
