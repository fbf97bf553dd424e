-- ===== src/Indexed/Guard/Runs.antt =====
-- A whole transaction through the proxy (src/indexed.js: #transactionProxy).
use syncio.Base.{
  ◌≡◌, refl, sym, subst, ◌∙◌, String, Bool, true, false, not, ◌&&◌, List, Error, Result, ok, err,
  >>=-eq-ok, require-eq-ok, ok-injective, any, arith, type_error,
}
use syncio.Base.Maps.{Map, values}
use syncio.Json.{Value, str, obj, Fields, truthy, property, validate_id, validate_collection_name}
use syncio.Json.Checks.{validate_id-eq-ok}
use syncio.Database.State.{Collection, collection_of}
use syncio.Database.Replay.{store}
use syncio.Database.Transaction.{
  Work, tx_put, run_work, touch, opened, done, draft_or, put_in, remove_in, all_in,
}
use syncio.Database.Transaction.Tracks.{get-touch}
use syncio.Control.Steps.{get-opened, put_in-eq-ok}
use syncio.Indexed.{Definition}
use syncio.Indexed.Guard.{
  GuardedWork, returns, throws, gets, puts, removes, takes_all, guard, check_put, put_checked,
  assert_unique, violates, is_candidate, put_working, remove_working,
}
use syncio.Indexed.Guard.Sound.{
  AreSame, AreSame-store, AreSame-erase, IsSound, IsSound-alike, IsSound-store, IsSound-erase,
  require-true,
}

module _ (stringify : List Value → String) (definitions : String → List Definition)
    (property_name : Value → String) where
  -- What the proxy keeps: its working copy has the records of the draft, which is sound.
  record Follows (w cs : Map Collection) : Type 0 where
    same : AreSame w cs
    sound : IsSound stringify definitions cs

  opened-Follows :
      (name : String) (w cs : Map Collection) → Follows w cs → Follows w (opened name cs)
  opened-Follows name w cs follows = record {
    same = λ n k. follows.same n k ∙ sym (get-opened name cs n k);
    sound =
        IsSound-alike stringify definitions cs (opened name cs)
          (λ n k. sym (get-opened name cs n k)) follows.sound;
  }

  touch-Follows : (name : String) (w cs : Map Collection) → Follows w cs → Follows (touch name w) cs
  touch-Follows name w cs follows = record {
    same = λ n k. get-touch name w n k ∙ follows.same n k;
    sound = follows.sound;
  }

  remove-Follows :
      (name : String) (id : Value) (w cs ds : Map Collection)
      → Follows w cs
      → remove_in name id cs ≡ ok ds
      → Follows (remove_working name id w) ds
  unfolding remove_in
  remove-Follows name id w cs ds follows gone =
      let (_, _, h₁) = >>=-eq-ok (validate_collection_name name) _ gone in
      let (key, given, erased) = >>=-eq-ok (validate_id id) _ h₁ in
      rw ((validate_id-eq-ok id given).0, ← ok-injective erased)
        (record {
          same = AreSame-erase name key w cs follows.same;
          sound = IsSound-erase stringify definitions name key cs follows.sound;
        })

  put-Follows :
      (name : String) (document : Value) (w cs ds : Map Collection)
      → Follows w cs
      → check_put stringify definitions property_name name document w ≡ ok tt
      → put_in name document cs ≡ ok ds
      → Follows (put_working name (property "id" document) document w) ds
  unfolding check_put assert_unique property truthy
  put-Follows name document w cs ds follows checked kept =
      let (key, fields, is_object, named, written) = put_in-eq-ok name document cs ds kept in
      let is_named : property "id" document ≡ str key = rw is_object named in
      let (some_id, h₁) = require-eq-ok (truthy (property "id" document)) type_error _ checked in
      let clashes : Value → Bool = λ id.
        any (violates stringify document id (values (collection_of name w))) (definitions name) in
      let free : not (is_candidate document && clashes (property "id" document)) ≡ true =
        require-true _ _ h₁ in
      let allowed : clashes (str key) ≡ false = none_of clashes is_object is_named free in
      let same = AreSame-store name key document w cs follows.same in
      let stored : IsSound stringify definitions (store name key document w) =
        IsSound-store stringify definitions name key document w
          (IsSound-alike stringify definitions cs w (λ n k. sym (follows.same n k)) follows.sound)
          is_named (subst (λ v. truthy v ≡ true) is_named some_id) (rw is_object refl) allowed in
      rw (is_named, ← written)
        (record {
          same = same;
          sound =
              IsSound-alike stringify definitions (store name key document w)
                (store name key document cs) same stored;
        })
    where
      none_of :
          (f : Value → Bool) {key : String} {fields : Fields}
          → document ≡ obj fields
          → property "id" document ≡ str key
          → not (is_candidate document && f (property "id" document)) ≡ true
          → f (str key) ≡ false
      none_of f {key} {fields} is_object is_named free =
          let at_object : not (is_candidate (obj fields) && f (property "id" document)) ≡ true =
            subst (λ v. not (is_candidate v && f (property "id" document)) ≡ true) is_object free in
          let at_key : not (f (str key)) ≡ true =
            subst (λ v. not (f v) ≡ true) is_named at_object in
          ground arith

  -- A branch on what naming a collection gave.
  after_naming :
      {A : Type 0} (r : Result A) (f : Error → Work) (g : A → Work) (cs : Map Collection)
      → ((e : Error) → IsSound stringify definitions (run_work (f e) cs).1)
      → ((a : A) → IsSound stringify definitions (run_work (g a) cs).1)
      → IsSound stringify definitions (run_work (elim r [ err e ↦ f e | ok a ↦ g a ]) cs).1
  after_naming (err e) f g cs h k = h e
  after_naming (ok a) f g cs h k = k a

  after_change :
      (r : Result (Map Collection)) (f : Error → Work) (g : Unit {0} → Work) (cs : Map Collection)
      → ((e : Error) → IsSound stringify definitions (run_work (f e) cs).1)
      → ((ds : Map Collection) → r ≡ ok ds → IsSound stringify definitions (run_work (g tt) ds).1)
      → IsSound stringify definitions
          (run_work (elim (done r) [ err e ↦ f e | ok a ↦ g a ]) (draft_or cs r)).1
  after_change (err e) f g cs h k = h e
  after_change (ok ds) f g cs h k = k ds refl

  after_check :
      (r : Result (Unit {0})) (name : String) (document : Value) (next : Result (Unit {0}) → Work)
      (cs : Map Collection)
      → ((e : Error) → IsSound stringify definitions (run_work (next (err e)) cs).1)
      → (r ≡ ok tt → IsSound stringify definitions (run_work (tx_put name document next) cs).1)
      → IsSound stringify definitions (run_work (put_checked r name document next) cs).1
  unfolding put_checked
  after_check (err e) name document next cs h k = h e
  after_check (ok _) name document next cs h k = k refl

  run_work-guard-IsSound :
      (work : GuardedWork) (w cs : Map Collection)
      → Follows w cs
      → IsSound stringify definitions
          (run_work (guard stringify definitions property_name w work) cs).1
  unfolding guard run_work
  run_work-guard-IsSound (returns v) w cs follows = follows.sound
  run_work-guard-IsSound (throws e) w cs follows = follows.sound
  run_work-guard-IsSound (gets name id k) w cs follows =
      let named = opened-Follows name w cs follows in
      after_naming (all_in name (opened name cs)) _ _ (opened name cs)
        (λ e. run_work-guard-IsSound (k (err e)) w (opened name cs) named)
        (λ _.
          run_work-guard-IsSound (k _) (touch name w) (opened name cs)
            (touch-Follows name w (opened name cs) named))
  run_work-guard-IsSound (takes_all name k) w cs follows =
      let named = opened-Follows name w cs follows in
      after_naming (all_in name (opened name cs)) _ _ (opened name cs)
        (λ e. run_work-guard-IsSound (k (err e)) w (opened name cs) named)
        (λ _.
          run_work-guard-IsSound (k _) (touch name w) (opened name cs)
            (touch-Follows name w (opened name cs) named))
  run_work-guard-IsSound (removes name id k) w cs follows =
      let named = opened-Follows name w cs follows in
      after_naming (all_in name (opened name cs)) _ _ (opened name cs)
        (λ e. run_work-guard-IsSound (k (err e)) w (opened name cs) named)
        (λ _.
          let again =
            opened-Follows name (touch name w) (opened name cs)
              (touch-Follows name w (opened name cs) named) in
          after_change (remove_in name id (opened name (opened name cs))) _ _
            (opened name (opened name cs))
            (λ e.
              run_work-guard-IsSound (k (err e)) (touch name w) (opened name (opened name cs))
                again)
            (λ ds gone.
              run_work-guard-IsSound (k _) (remove_working name id (touch name w)) ds (
                remove-Follows name id (touch name w) (opened name (opened name cs)) ds again
                  gone)))
  run_work-guard-IsSound (puts name document k) w cs follows =
      let named = opened-Follows name w cs follows in
      after_naming (all_in name (opened name cs)) _ _ (opened name cs)
        (λ e. run_work-guard-IsSound (k (err e)) w (opened name cs) named)
        (λ _.
          let touched = touch-Follows name w (opened name cs) named in
          let again = opened-Follows name (touch name w) (opened name cs) touched in
          after_check (check_put stringify definitions property_name name document (touch name w))
            name document _ (opened name cs)
            (λ e. run_work-guard-IsSound (k (err e)) (touch name w) (opened name cs) touched)
            (λ checked.
              after_change (put_in name document (opened name (opened name cs))) _ _
                (opened name (opened name cs))
                (λ e.
                  run_work-guard-IsSound (k (err e)) (touch name w) (opened name (opened name cs))
                    again)
                (λ ds kept.
                  run_work-guard-IsSound (k _)
                    (put_working name (property "id" document) document (touch name w)) ds
                    (put-Follows name document (touch name w) (opened name (opened name cs)) ds
                      again checked kept))))

  -- If the records of a state stand under their identities and no unique index has two of them
  -- under one key, then so it is in the draft behind a transaction through the proxy, whatever its
  -- work does.
  pub guard-IsSound :
      (work : GuardedWork) (cs : Map Collection)
      → IsSound stringify definitions cs
      → IsSound stringify definitions
          (run_work (guard stringify definitions property_name cs work) cs).1
  guard-IsSound work cs sound =
      run_work-guard-IsSound work cs cs (record { same = λ n k. refl; sound = sound })
