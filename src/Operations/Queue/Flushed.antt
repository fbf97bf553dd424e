-- ===== src/Operations/Queue/Flushed.antt =====
-- What a flush does (src/operations.js: DurableOfflineQueue.flush).
use syncio.Base.{
  ℕ, zero, suc, ◌+◌, ◌≤◌, ◌<◌, ◌≡◌, refl, sym, ap, subst, ◌∙◌, String, Bool, true, false, Option,
  some, List, [], ◌∷◌, Result, ok, err, length, drop, drop-drop, map, leb, leb→gt, arith, All,
}
use syncio.Json.{Value}
use syncio.Wal.{ReplaceOutcome, replaced, kept, unconfirmed}
use syncio.Operations.Queue.{
  Item, queue_of, Queue, mutate_queue, FlushWorld, FlushReport, attempted, deliver, Round,
  flush_over, item_delivered, after_send, after_attempt, flush_first, flush_round, flush_from,
  flush,
}

abbrev pub changes : List Item → List Value
changes items = map (λ (item : Item). item.change) items

abbrev pub WithinLimit : ℕ → Item → Type 0
WithinLimit limit item = item.attempts ≤ limit

-- What a flush that returns reports of the items that it left, and an error that it throws does
-- not.
abbrev pub Reported : ℕ → Queue → Result FlushReport → Type 0
Reported delivered after (err e) = Unit
Reported delivered after (ok report) =
    (report.delivered ≡ delivered)
    × (report.pending ≡ length after.items)
    × (report.failures ≡ [] → after.items ≡ [])

-- The items before a round or a flush and behind it: the first `n` are gone.
pub record Left (n limit : ℕ) (before after : List Item) : Type 0 where
  pub in_order : changes after ≡ drop n (changes before)
  pub few : n ≤ length before
  pub bounded : All (WithinLimit limit) before → All (WithinLimit limit) after

abbrev RoundLeft : ℕ → ℕ → List Item → Round → Type 0
RoundLeft limit delivered items (flush_over (result, after)) =
    Left 0 limit items after.items × Reported delivered after result
RoundLeft limit delivered items (item_delivered after) =
    Left 1 limit items after.items × (length items ≡ suc (length after.items))

Left-same : (limit : ℕ) (items : List Item) → Left 0 limit items items
Left-same limit items = record { in_order = refl; few = omega arith; bounded = λ h. h }

Left-first :
    (limit : ℕ) (now : String) (item : Item) (rest : List Item)
    → leb limit item.attempts ≡ false
    → Left 0 limit (item ∷ rest) (attempted now item ∷ rest)
Left-first limit now item rest below = record {
  in_order = refl;
  few = omega arith;
  bounded = λ h. (omega (arith, leb→gt limit item.attempts below), h.1);
}

module _ (world : FlushWorld) (limit delivered : ℕ) where
  deliver-RoundLeft :
      (sent : Result (Unit {0})) (outcome : ReplaceOutcome) (item tried : Item) (rest : List Item)
      (queue : Queue)
      → Left 0 limit (item ∷ rest) queue.items
      → queue.items ≡ tried ∷ rest
      → RoundLeft limit delivered
          (item ∷ rest)
          (after_send delivered tried (deliver sent outcome rest queue))
  unfolding after_send deliver mutate_queue
  deliver-RoundLeft (err e) outcome item tried rest queue left is = (left, (refl, refl, λ h. cc))
  deliver-RoundLeft (ok _) replaced item tried rest queue left is =
      (record { in_order = refl; few = omega arith; bounded = λ h. h.1 }, refl)
  deliver-RoundLeft (ok _) kept item tried rest queue left is = (left, (refl, refl, λ h. cc))
  deliver-RoundLeft (ok _) unconfirmed item tried rest queue left is = (left, (refl, refl, λ h. cc))

  attempt-RoundLeft :
      (outcome : ReplaceOutcome) (item tried : Item) (rest : List Item) (queue : Queue)
      → queue.items ≡ item ∷ rest
      → Left 0 limit (item ∷ rest) (tried ∷ rest)
      → RoundLeft limit delivered
          (item ∷ rest)
          (after_attempt world delivered tried rest (mutate_queue outcome (tried ∷ rest) queue))
  unfolding after_attempt mutate_queue
  attempt-RoundLeft replaced item tried rest queue is left =
      deliver-RoundLeft (world.send delivered tried) (world.second_write delivered) item tried rest
        (record { items = tried ∷ rest; file = queue_of (tried ∷ rest) }) left refl
  attempt-RoundLeft kept item tried rest queue is left =
      (subst (Left 0 limit (item ∷ rest)) (sym is) (Left-same limit (item ∷ rest)), tt)
  attempt-RoundLeft unconfirmed item tried rest queue is left =
      (subst (Left 0 limit (item ∷ rest)) (sym is) (Left-same limit (item ∷ rest)), tt)

  first-RoundLeft :
      (queue : Queue) (item : Item) (rest : List Item)
      → queue.items ≡ item ∷ rest
      → (exceeded : Bool) → leb limit item.attempts ≡ exceeded
      → RoundLeft limit delivered
          (item ∷ rest)
          (flush_first exceeded world delivered queue item rest)
  unfolding flush_first
  first-RoundLeft queue item rest is true h = (
    subst (Left 0 limit (item ∷ rest)) (sym is) (Left-same limit (item ∷ rest)),
    (refl, refl, λ h. cc),
  )
  first-RoundLeft queue item rest is false below =
      attempt-RoundLeft (world.first_write delivered) item (attempted (world.now delivered) item)
        rest queue is (Left-first limit (world.now delivered) item rest below)

  flush_round-RoundLeft :
      (queue : Queue) (items : List Item)
      → queue.items ≡ items
      → RoundLeft limit delivered items (flush_round world limit delivered queue items)
  unfolding flush_round
  flush_round-RoundLeft queue [] is =
      (subst (Left 0 limit []) (sym is) (Left-same limit []), (refl, refl, λ h. is))
  flush_round-RoundLeft queue (item ∷ rest) is =
      first-RoundLeft queue item rest is (leb limit item.attempts) refl

-- What a flush leaves behind it, from `delivered` deliveries on.
pub record IsFlushed (limit delivered : ℕ) (before : List Item)
    (run : Option (Result FlushReport × Queue)) : Type 0 where
  pub outcome : Result FlushReport
  pub after : Queue
  pub ends : run ≡ some (outcome, after)
  pub sent : ℕ
  pub left : Left sent limit before after.items
  pub reported : Reported (delivered + sent) after outcome

after_round :
    (fuel : ℕ) (world : FlushWorld) (limit delivered : ℕ) (items : List Item) (round : Round)
    → RoundLeft limit delivered items round
    → length items ≤ fuel
    → ((after : Queue)
        → length after.items < fuel
        → IsFlushed limit
            (delivered + 1)
            after.items
            (flush_from fuel world limit (delivered + 1) after))
    → IsFlushed limit delivered items (elim round [
      | flush_over result ↦ some result
      | item_delivered next ↦ flush_from fuel world limit (delivered + 1) next
    ])
after_round fuel world limit delivered items (flush_over (result, after)) (left, reported) enough
      ih =
    record {
      outcome = result;
      after = after;
      ends = refl;
      sent = 0;
      left = left;
      reported = subst (λ n. Reported n after result) (omega arith) reported;
    }
after_round fuel world limit delivered items (item_delivered after) (left, one) enough ih =
    let rest = ih after (omega arith) in
    record {
      outcome = rest.outcome;
      after = rest.after;
      ends = rest.ends;
      sent = 1 + rest.sent;
      left = record {
        in_order =
            rest.left.in_order
            ∙ ap (λ c. drop rest.sent c) left.in_order
            ∙ drop-drop rest.sent 1 (changes items);
        few = omega (arith, rest.left.few);
        bounded = λ h. rest.left.bounded (left.bounded h);
      };
      reported = subst (λ n. Reported n rest.after rest.outcome) (omega arith) rest.reported;
    }

flush_from-IsFlushed :
    (fuel : ℕ) (world : FlushWorld) (limit delivered : ℕ) (queue : Queue)
    → length queue.items < fuel
    → IsFlushed limit delivered queue.items (flush_from fuel world limit delivered queue)
unfolding flush_from
flush_from-IsFlushed zero world limit delivered queue enough = absurd (omega arith)
flush_from-IsFlushed (suc fuel) world limit delivered queue enough =
    after_round fuel world limit delivered queue.items
      (flush_round world limit delivered queue queue.items)
      (flush_round-RoundLeft world limit delivered queue queue.items refl) (omega arith)
      (λ after less. flush_from-IsFlushed fuel world limit (delivered + 1) after less)

-- A flush ends. It takes some of the first items off, in their order, and leaves the others with
-- their changes; if no item was tried more often than the limit says before, none is behind it; and
-- if it returns, it reports how many are gone and how many are left, and without a failure none is
-- left.
pub flush-IsFlushed :
    (world : FlushWorld) (limit : ℕ) (queue : Queue)
    → IsFlushed limit 0 queue.items (flush world limit queue)
unfolding flush
flush-IsFlushed world limit queue =
    flush_from-IsFlushed (suc (length queue.items)) world limit 0 queue (omega arith)
