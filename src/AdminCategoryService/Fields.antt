-- ===== src/AdminCategoryService/Fields.antt =====
-- Texts and images of app/services/admin_category_service.py.
use oorvashee_backend.Prelude.{
  ℕ, Bool, true, false, ◌&&◌, ◌||◌, Option, none, some, [], ◌∷◌, leb, ◌==◌, if◌then◌else◌,
}
use oorvashee_backend.Slugs.{Text, is_empty}

-- ASCII white space.
abbrev is_space : ℕ → Bool
is_space c = c == 32 || (leb 9 c && leb c 13) || (leb 28 c && leb c 31)

trim_left : Text → Text
trim_left [] = []
trim_left (c ∷ text) = let rest = trim_left text in if is_space c then rest else c ∷ text

trim_right : Text → Text
trim_right [] = []
trim_right (c ∷ text) =
    let rest = trim_right text in if is_space c && is_empty rest then [] else c ∷ rest

-- `name.strip()`.
unfoldable pub strip_spaces : Text → Text
unfolding trim_left trim_right
strip_spaces text = trim_right (trim_left text)

-- `(image_url is None) != (image_public_id is None)`.
abbrev pub is_half : Option ℕ → Option ℕ → Bool
is_half none none = false
is_half (some u) (some p) = false
is_half none (some p) = true
is_half (some u) none = true
