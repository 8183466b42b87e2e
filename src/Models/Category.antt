-- ===== src/Models/Category.antt =====
-- app/models/category.py: a category, with `deleted` for a `deleted_at` that is set. A name is a text; the
-- description and the SEO texts are numbers, and so are the URL and the public id of the image.
use oorvashee_backend.Prelude.{ℕ, Bool, Option, List}

pub data CategoryKind : Type 0 where
  fabric occasion region price_bracket color collection : CategoryKind

pub record Category : Type 0 where
  pub id : ℕ
  pub slug : List ℕ
  pub name : List ℕ
  pub kind : CategoryKind
  pub description : Option ℕ
  pub image_url : Option ℕ
  pub image_public_id : Option ℕ
  pub parent_id : Option ℕ
  pub display_order : ℕ
  pub is_active : Bool
  pub deleted : Bool
  pub seo_title : Option ℕ
  pub seo_description : Option ℕ

-- The fields that an update may change.
pub data CategoryField : Type 0 where
  name description image_url image_public_id parent_id seo_title seo_description : CategoryField
