-- ===== src/AdminCategoryService/Requests.antt =====
-- The requests that app/services/admin_category_service.py serves, one after the other.
use oorvashee_backend.Prelude.{ℕ}
use oorvashee_backend.Exceptions.{Result, ok, ◌>>=◌}
use oorvashee_backend.AdminCategoryService.{Catalogue, AdminCategoryCreate, create_category}
use oorvashee_backend.AdminCategoryService
use oorvashee_backend.AdminCategoryService.Update.{AdminCategoryUpdate, update_category}

pub data Request : Type 0 where
  create : (new_id actor : ℕ) (body : AdminCategoryCreate) → Request
  update : (id actor : ℕ) (body : AdminCategoryUpdate) → Request
  archive : (id actor : ℕ) → Request
  unarchive : (id actor : ℕ) → Request
  reorder : (id actor display_order : ℕ) → Request

unfoldable pub handle : Request → Catalogue → Result Catalogue
handle (Request.create new_id actor body) t = create_category new_id actor body t
handle (Request.update id actor body) t = update_category id actor body t >>= λ u. ok u.catalogue
handle (Request.archive id actor) t = AdminCategoryService.archive id actor t
handle (Request.unarchive id actor) t = AdminCategoryService.unarchive id actor t
handle (Request.reorder id actor display_order) t =
    AdminCategoryService.reorder id display_order actor t
