-- ===== src/DocumentApi/Examples.antt =====
-- Updates of stored documents on concrete inputs (src/document-api.js).
use syncio.Document.Path.{set_mutable, split_path, set_parts}
use syncio.Document.Match.{has_operator}
use syncio.Base.{◌≡◌, refl, ok, err, id_changed}
use syncio.Json.{null, num, str, obj, end, field}
use syncio.Document.Runtime.{Runtime, strict_equal}
use syncio.Document.Update.{only_operators, update_operator}
use syncio.DocumentApi.{updated_document}

updates :
    (rt : Runtime)
    → (updated_document rt "n" null (obj (field "$set" (obj (field "done" (num 1) end)) end))
        ≡ ok (field "id" (str "n") (field "done" (num 1) end)))
      × (updated_document rt "n" null (obj (field "$set" (obj (field "id" (str "m") end)) end))
          ≡ err id_changed)
unfolding updated_document has_operator only_operators update_operator set_mutable split_path
    set_parts strict_equal
updates rt = (refl, refl)
