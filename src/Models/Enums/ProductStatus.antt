-- ===== src/Models/Enums/ProductStatus.antt =====
-- `ProductStatus` of app/models/enums.py.
use oorvashee_backend.Prelude.{Bool, true, false}

pub data ProductStatus : Type 0 where
  draft published unavailable archived : ProductStatus

abbrev pub is : ProductStatus → ProductStatus → Bool
is draft draft = true
is published published = true
is unavailable unavailable = true
is archived archived = true
is _ _ = false
