-- ===== src/Document/Update/Identity.antt =====
-- An update does not change the identity of a document (src/document.js: applyDocumentUpdate).
use syncio.Base.{
  ◌≡◌, sym, ap, ◌∙◌, String, true, false, Bool-cases, inl, inr, ok, type_error, id_changed,
  >>=-eq-ok, require-eq-ok, ok-injective, eq_iff, ◌||◌,
}
use syncio.Json.{Value, bool, str, obj, Fields, get_field}
use syncio.Json.Checks.{get_field-set_field_self}
use syncio.Document.Runtime.{Runtime, strict_equal}
use syncio.Document.Match.{has_operator}
use syncio.Document.Update.{
  apply_document_update, apply_operators, replace_document, only_operators, is_undefined,
  id_of_either,
}

-- Only a text is strictly equal to a text.
strict_equal-str : (v : Value) (s : String) → strict_equal v (str s) ≡ true → v ≡ str s
unfolding strict_equal
strict_equal-str (str t) s h = ap str ((eq_iff t s).0 h)
strict_equal-str (bool true) s h = cc
strict_equal-str (bool false) s h = cc
strict_equal-str _ s h = cc

-- Whatever the update does, if it succeeds on a document whose identity is a text, then the document
-- that it gives has the same identity.
pub get_field-apply_document_update :
    (rt : Runtime) (document gs : Fields) (update : Value) (id : String)
    → get_field "id" document ≡ str id
    → apply_document_update rt (obj document) update ≡ ok gs
    → get_field "id" gs ≡ str id
unfolding apply_document_update replace_document
get_field-apply_document_update rt document gs (obj update) id named h =
    elim (Bool-cases (has_operator update)) [
      | inr plain ↦
          let (_, done) =
            require-eq-ok
              (is_undefined (get_field "id" update)
                || is_undefined (get_field "id" document)
                || strict_equal (get_field "id" update) (get_field "id" document))
              id_changed _ (rw plain at h) in
          rw (← ok-injective done) (
            get_field-set_field_self "id"
              (id_of_either (get_field "id" document) (get_field "id" update)) update
            ∙ ap (λ v. id_of_either v (get_field "id" update)) named)
      | inl operators ↦
          let (_, h₁) = require-eq-ok (only_operators update) type_error _ (rw operators at h) in
          let (result, _, h₂) = >>=-eq-ok (apply_operators rt update document) _ h₁ in
          let (same, done) =
            require-eq-ok
              (is_undefined (get_field "id" document)
                || strict_equal (get_field "id" result) (get_field "id" document))
              id_changed _ h₂ in
          ap (get_field "id") (sym (ok-injective done))
          ∙ strict_equal-str (get_field "id" result) id (rw named at same)
    ]
get_field-apply_document_update rt document gs _ id named h = cc
