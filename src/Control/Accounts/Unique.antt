-- ===== src/Control/Accounts/Unique.antt =====
-- No two accounts have one address (src/control-plane.js: createAccount).
use syncio.Base.{
  ◌≡◌, inl, inr, refl, sym, ap, subst, ◌∙◌, String, Bool, true, false, Bool-cases, any, Result, ok,
  err, Error, account_email_exists, type_error, if◌then◌else◌,
}
use syncio.Base.Maps.{Map}
use syncio.Json.{Value, null, str, codes, truthy, get_field}
use syncio.Database.State.{Collection, Database}
use syncio.Database.Collection.{read}
use syncio.Database.Transaction.{throw, all_in, run_work, opened}
use syncio.Control.Texts.{is_email}
use syncio.Control.Records.{Host, Call, transact, after, or_default}
use syncio.Control.Steps.{
  found, tx_get-Got, tx_put-Put, tx_put-run, truthy-found, read-store, or_throw-run,
}
use syncio.Control.Transact.{
  str-injective, transact-cases, read-alike, after-eq-ok, after-state, after-err, after-database,
}
use syncio.Control.Accounts.{
  create_account_work, create_account, normal_email, account_of, holds_email, link_account_work,
  put_account_work, search_account_work,
}

-- Whether an address is linked to an account.
abbrev pub IsTaken : String → Map Collection → Type 0
IsTaken key cs = truthy (read "_account_email_keys" key cs) ≡ true

module _ (key email : String) (account : Value) where
  link_account_work-IsTaken :
      (cs : Map Collection) (v : Value)
      → (run_work (link_account_work key account) cs).0 ≡ ok v
      → IsTaken key (run_work (link_account_work key account) cs).1
  unfolding link_account_work run_work get_field truthy
  link_account_work-IsTaken cs v h =
      let run = tx_put-run "_account_email_keys" _ key _ cs v refl h in
      ap (λ r. truthy (read "_account_email_keys" key r.1)) run
      ∙ ap truthy (read-store "_account_email_keys" key _ (opened "_account_email_keys" cs))

  put_account_work-IsTaken :
      (cs : Map Collection) (v : Value)
      → (run_work (put_account_work key account) cs).0 ≡ ok v
      → IsTaken key (run_work (put_account_work key account) cs).1
  unfolding put_account_work
  put_account_work-IsTaken cs v h =
      let put = tx_put-Put "_accounts" account _ cs v h in
      subst (λ r. IsTaken key r.1) (sym put.runs)
        (link_account_work-IsTaken _ v (sym (ap (λ r. r.0) put.runs) ∙ h))

  search_account_work-IsTaken :
      (cs : Map Collection) (v : Value)
      → (run_work (search_account_work key email account) cs).0 ≡ ok v
      → IsTaken key (run_work (search_account_work key email account) cs).1
  unfolding search_account_work run_work
  search_account_work-IsTaken cs v h =
      let (items, _, runs) =
        or_throw-run (all_in "_accounts" (opened "_accounts" cs)) _ (opened "_accounts" cs) v h in
      let work =
        λ (b : Bool). if b then throw account_email_exists else put_account_work key account in
      let runs_as = λ (b : Bool) (held : any (holds_email email) items ≡ b).
        runs ∙ ap (λ a. run_work (work a) (opened "_accounts" cs)) held in
      elim (Bool-cases (any (holds_email email) items)) [
        | inl held ↦ let bad = sym (ap (λ r. r.0) (runs_as true held)) ∙ h in cc
        | inr free ↦
            subst (λ r. IsTaken key r.1) (sym (runs_as false free))
              (put_account_work-IsTaken (opened "_accounts" cs) v
                (sym (ap (λ r. r.0) (runs_as false free)) ∙ h))
      ]

  -- If the work returns, the address was free and is then taken.
  create_account_work-cases :
      (cs : Map Collection) (v : Value)
      → (run_work (create_account_work key email account) cs).0 ≡ ok v
      → (truthy (read "_account_email_keys" key cs) ≡ false)
        × IsTaken key (run_work (create_account_work key email account) cs).1
  unfolding create_account_work run_work
  create_account_work-cases cs v h =
      let got = tx_get-Got "_account_email_keys" (str key) _ cs v h in
      let there = found "_account_email_keys" got.key cs in
      let same_key : got.key ≡ key = str-injective (sym got.named) in
      let work = λ (b : Bool).
        if b then throw account_email_exists else search_account_work key email account in
      let runs = λ (b : Bool) (held : truthy there ≡ b).
        got.runs ∙ ap (λ a. run_work (work a) (opened "_account_email_keys" cs)) held in
      elim (Bool-cases (truthy there)) [
        | inl taken ↦ let bad = sym (ap (λ r. r.0) (runs true taken)) ∙ h in cc
        | inr free ↦ (
          ap (λ k. truthy (read "_account_email_keys" k cs)) (sym same_key)
              ∙ sym (truthy-found "_account_email_keys" got.key cs)
              ∙ free,
          subst (λ r. IsTaken key r.1) (sym (runs false free))
              (search_account_work-IsTaken (opened "_account_email_keys" cs) v
                (sym (ap (λ r. r.0) (runs false free)) ∙ h)),
        )
      ]

module _ (host : Host) where
  -- What creating an account of a taken address does: it throws, and the state is as it was.
  pub record IsRefused (before : Database) (second : Result Value × Database) : Type 0 where
    pub throws : (e : Error) × (second.0 ≡ err e)
    pub kept : second.1.state ≡ before.state

  module _ (call : Call) (key email : String) (account : Value) (db : Database) where
    transact-IsTaken :
        (v : Value)
        → (transact host call (create_account_work key email account) db).0 ≡ ok v
        → IsTaken key
            (transact host call (create_account_work key email account) db).1.state.collections
    transact-IsTaken v h =
        elim (transact-cases host call (create_account_work key email account) db) [
          | inl (u, done, ran, alike) ↦
              host.equality.of_truthy _ _ (read-alike host _ _ "_account_email_keys" key alike)
              ∙ (create_account_work-cases key email account db.state.collections u ran).1
          | inr (e, failed, same) ↦ let bad = sym failed ∙ h in cc
        ]

    transact-IsRefused :
        (answer : Value → Value)
        → IsTaken key db.state.collections
        → IsRefused db
            (after answer (transact host call (create_account_work key email account) db))
    transact-IsRefused answer taken =
        elim (transact-cases host call (create_account_work key email account) db) [
          | inl (u, done, ran, alike) ↦
              let (free, _) =
                create_account_work-cases key email account db.state.collections u ran in
              let bad : true ≡ false = sym taken ∙ free in cc
          | inr (e, failed, same) ↦ record {
            throws = (e, after-err answer _ e failed);
            kept = after-database answer _ ∙ same;
          }
        ]

  create_account-IsTaken :
      (call : Call) (email : String) (name : Value) (db : Database) (v : Value)
      → (create_account host call (str email) name db).0 ≡ ok v
      → IsTaken
          (host.hash_email (normal_email host email))
          (create_account host call (str email) name db).1.state.collections
  unfolding create_account
  create_account-IsTaken call email name db v h =
      let normalized = normal_email host email in
      let account = account_of call.uuid normalized (or_default null name) call.now in
      let key = host.hash_email normalized in
      elim (Bool-cases (is_email (codes email))) [
        | inl valid ↦
            let (u, done) = after-eq-ok (λ v. account) _ v (rw valid at h) in
            rw valid (
              subst (IsTaken key) (sym (after-state (λ v. account) _))
                (transact-IsTaken call key normalized account db u done))
        | inr invalid ↦ let bad = rw invalid at h in cc
      ]

  create_account-IsRefused :
      (call : Call) (email : String) (name : Value) (db : Database)
      → IsTaken (host.hash_email (normal_email host email)) db.state.collections
      → IsRefused db (create_account host call (str email) name db)
  unfolding create_account
  create_account-IsRefused call email name db taken =
      let normalized = normal_email host email in
      let account = account_of call.uuid normalized (or_default null name) call.now in
      elim (Bool-cases (is_email (codes email))) [
        | inl valid ↦ rw valid (
            transact-IsRefused call (host.hash_email normalized) normalized account db
              (λ v. account) taken)
        | inr invalid ↦ rw invalid (record { throws = (type_error, refl); kept = refl })
      ]

  -- After an account was created, creating another whose address is the same but for blanks and the
  -- case of letters throws and changes nothing.
  pub create_account-twice :
      (first again : Call) (email other : String) (name title : Value) (db : Database) (v : Value)
      → (create_account host first (str email) name db).0 ≡ ok v
      → normal_email host other ≡ normal_email host email
      → IsRefused (create_account host first (str email) name db).1 (
          create_account host again
            (str other)
            title
            (create_account host first (str email) name db).1)
  create_account-twice first again email other name title db v h same =
      let db₁ = (create_account host first (str email) name db).1 in
      create_account-IsRefused again other title db₁ (
        subst (λ n. IsTaken (host.hash_email n) db₁.state.collections) (sym same)
          (create_account-IsTaken first email name db v h))
