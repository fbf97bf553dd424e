-- ===== src/Control/Entitled.antt =====
-- What the entitlements of a project are behind a stored grant (src/control-plane.js: entitlements).
use syncio.Base.{◌≡◌, subst, String, true, ok}
use syncio.Base.Maps.{Map}
use syncio.Json.{Value, str, arr, obj, Items, Fields, truthy, property}
use syncio.Database.State.{Collection, Database}
use syncio.Database.Same.{AlikeMaps}
use syncio.Database.Collection.{read, get_record}
use syncio.Control.Plans.{Plan}
use syncio.Control.Records.{Host, fetch, text_of}
use syncio.Control.Transact.{read-alike}
use syncio.Control.Projects.{entitlements, grants_value}

module _ (host : Host) where
  -- The entitlements that are read are an array that equals the grants of a plan.
  pub record AreGrants (id : Value) (plan : Plan) (db : Database) : Type 0 where
    pub items : Items
    pub reads : entitlements host id db ≡ ok (arr items)
    pub equal : host.equality.deep_equal (arr items) (grants_value plan) ≡ true

  pub stored-AreGrants :
      (id : Value) (key : String) (fs : Fields) (plan : Plan) (db : Database)
      (after : Map Collection)
      → id ≡ str key
      → AlikeMaps host.equality db.state.collections after
      → read "_entitlements" key after ≡ obj fs
      → property "grants" (obj fs) ≡ grants_value plan
      → AreGrants id plan db
  unfolding entitlements fetch text_of get_record
  stored-AreGrants id key fs plan db after named alike stored granted =
      let eq = host.equality in
      let w = read "_entitlements" key db.state.collections in
      let same : eq.deep_equal w (obj fs) ≡ true =
        subst (λ v. eq.deep_equal w v ≡ true) stored
          (read-alike host db.state.collections after "_entitlements" key alike) in
      let there : truthy w ≡ true = eq.of_truthy w (obj fs) same in
      let grants : eq.deep_equal (property "grants" w) (grants_value plan) ≡ true =
        subst (λ v. eq.deep_equal (property "grants" w) v ≡ true) granted
          (eq.of_property "grants" w (obj fs) same) in
      let (ys, array) = eq.of_array (property "grants" w) _ grants in
      record {
        items = ys;
        reads = rw (named, there, there, array);
        equal = subst (λ v. eq.deep_equal v (grants_value plan) ≡ true) array grants;
      }
