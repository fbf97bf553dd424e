-- ===== src/Database/Replication/Decided.antt =====
-- The outcomes of applyReplicationChange before it commits (src/index.js).
use syncio.Base.{
  ℕ, ◌≡◌, ◌⊎◌, refl, sym, Bool, true, false, inl, inr, String, [], ◌∷◌, Result, ok, ◌>>=◌,
  >>=-eq-ok, ok-injective, if◌then◌else◌,
}
use syncio.Base.Maps.{Map}
use syncio.Json.{Value, validate_collection_name}
use syncio.Change.{Change}
use syncio.Database.State.{Collection, State}
use syncio.Database.Events.{Env}
use syncio.Database.Appended.{next, made}
use syncio.Database.Collection.{Write}
use syncio.Database.Replication.{
  Outcome, duplicate, applied, is_applied, change_id_of, received_change, replicated,
  decide_replication,
}

module _ (resolver : Value → Value → Result Value) (legacy : Change → String) (retention : ℕ)
    (env : Env) (c : Change) (s : State) where
  abbrev pub duplicate_write : Write Outcome
  duplicate_write = record { draft = s; events = []; result = duplicate }

  -- The write of a change that leaves the collections `cs`.
  abbrev pub change_write : Map Collection → Write Outcome
  change_write cs =
      let s' : State = record s { collections = cs } in
      let e = made retention env true s' (received_change resolver legacy env c) in
      record {
        draft = next retention env true s' (received_change resolver legacy env c);
        events = e ∷ [];
        result = applied e;
      }

  -- What a decided change is: a duplicate, or a new one whose collections were made.
  abbrev pub IsDecided : Write Outcome → Type 0
  IsDecided w =
      ((is_applied (change_id_of resolver legacy c) s ≡ true) × (w ≡ duplicate_write))
      ⊎ ((cs : Map Collection) × (replicated resolver legacy c s.collections ≡ ok cs)
          × (w ≡ change_write cs))

  pub decide_replication-duplicate :
      validate_collection_name c.collection ≡ ok tt
      → is_applied (change_id_of resolver legacy c) s ≡ true
      → decide_replication resolver legacy retention env c s ≡ ok duplicate_write
  unfolding decide_replication
  decide_replication-duplicate named seen = rw (named, seen)

  new_change :
      (w : Write Outcome)
      → (replicated resolver legacy c s.collections >>= λ cs. ok (change_write cs)) ≡ ok w
      → (cs : Map Collection) × (replicated resolver legacy c s.collections ≡ ok cs)
        × (w ≡ change_write cs)
  new_change w h =
      let (cs, found, h₁) = >>=-eq-ok (replicated resolver legacy c s.collections) _ h in
      (cs, found, sym (ok-injective h₁))

  by_seen :
      (seen : Bool) (w : Write Outcome)
      → is_applied (change_id_of resolver legacy c) s ≡ seen
      → (if seen
          then ok duplicate_write
          else (replicated resolver legacy c s.collections >>= λ cs. ok (change_write cs)))
        ≡ ok w
      → IsDecided w
  by_seen true w e h = inl (e, sym (ok-injective h))
  by_seen false w e h = inr (new_change w h)

  pub decide_replication-eq-ok :
      (w : Write Outcome)
      → decide_replication resolver legacy retention env c s ≡ ok w
      → (validate_collection_name c.collection ≡ ok tt) × IsDecided w
  unfolding decide_replication
  decide_replication-eq-ok w h =
      let (_, named, h₁) = >>=-eq-ok (validate_collection_name c.collection) _ h in
      (named, by_seen (is_applied (change_id_of resolver legacy c) s) w refl h₁)
