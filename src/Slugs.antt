-- ===== src/Slugs.antt =====
-- The slugs of app/services/admin_category_service.py and app/services/admin_product_service.py: the two
-- services have the same functions with different limits. A text is the list of its code points, and
-- ASCII.
pub mod Shapes
pub mod Resolved
use Prim.Native.Nat.{◌/◌, ◌%◌}
use oorvashee_backend.Prelude.{
  ℕ, zero, suc, ◌+◌, Bool, true, false, ◌&&◌, ◌||◌, not, List, [], ◌∷◌, ◌++◌, ltb, leb, ◌==◌,
  if◌then◌else◌, map,
}
use oorvashee_backend.Exceptions.{AppError, Result, ok, err}

abbrev pub Text : Type 0
Text = List ℕ

abbrev pub hyphen : ℕ
hyphen = b'-'

-- The limits of a service: of a slug, and of the stem that a number is put behind.
pub record SlugLimits : Type 0 where
  pub slug : ℕ
  pub stem : ℕ
  pub fallback : Text

-- `str.lower()` on ASCII.
abbrev pub lower_char : ℕ → ℕ
lower_char c = if leb b'A' c && leb c b'Z' then c + 32 else c

unfoldable pub lower : Text → Text
lower text = map lower_char text

-- `[a-z0-9]`.
abbrev pub is_slug_char : ℕ → Bool
is_slug_char c = (leb b'a' c && leb c b'z') || (leb b'0' c && leb c b'9')

-- `re.sub(r"[^a-z0-9]+", "-", text)`: a run of other characters becomes one hyphen. The Boolean says
-- whether the text so far ends in such a run.
unfoldable pub separate : Bool → Text → Text
separate in_run [] = []
separate in_run (c ∷ text) =
    let kept = separate false text in
    let skipped = separate true text in
    if is_slug_char c then c ∷ kept else if in_run then skipped else hyphen ∷ skipped

abbrev pub is_empty : Text → Bool
is_empty [] = true
is_empty (c ∷ text) = false

-- `strip("-")`.
unfoldable pub strip_left : Text → Text
strip_left [] = []
strip_left (c ∷ text) = let rest = strip_left text in if c == hyphen then rest else c ∷ text

unfoldable pub strip_right : Text → Text
strip_right [] = []
strip_right (c ∷ text) =
    let rest = strip_right text in if c == hyphen && is_empty rest then [] else c ∷ rest

abbrev pub strip : Text → Text
strip text = strip_right (strip_left text)

-- `text[:n]`.
unfoldable pub take : ℕ → Text → Text
take zero text = []
take (suc n) [] = []
take (suc n) (c ∷ text) = c ∷ take n text

abbrev pub or_else : Text → Text → Text
or_else [] fallback = fallback
or_else (c ∷ text) fallback = c ∷ text

-- `_slugify`.
unfoldable pub slugify : SlugLimits → Text → Text
unfolding lower separate strip_left strip_right take
slugify limits name =
    or_else (take limits.slug (strip (separate false (lower name)))) limits.fallback

-- The decimal digits of a number below a hundred.
abbrev pub decimal : ℕ → Text
decimal n = if ltb n 10 then (b'0' + n) ∷ [] else (b'0' + n / 10) ∷ (b'0' + n % 10) ∷ []

-- `f"{candidate[:stem]}-{i}"`.
unfoldable pub attempt : SlugLimits → Text → ℕ → Text
unfolding take
attempt limits candidate i = take limits.stem candidate ++ hyphen ∷ decimal i

-- `for i in range(2, 100)`, with the rounds that are left.
unfoldable pub try_numbers : SlugLimits → (Text → Bool) → Text → ℕ → ℕ → Result Text
unfolding attempt
try_numbers limits exists candidate zero i = err AppError.slug_collision_exhausted
try_numbers limits exists candidate (suc rounds) i =
    let rest = try_numbers limits exists candidate rounds (i + 1) in
    if exists (attempt limits candidate i) then rest else ok (attempt limits candidate i)

-- `_resolve_unique_slug`, over the test whether a slug is taken.
unfoldable pub resolve_unique_slug : SlugLimits → (Text → Bool) → Text → Result Text
unfolding lower strip_left strip_right take try_numbers
resolve_unique_slug limits exists candidate =
    let cut = take limits.slug (strip (lower candidate)) in
    if exists cut then try_numbers limits exists cut 98 2 else ok cut
