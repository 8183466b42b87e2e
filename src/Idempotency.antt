-- ===== src/Idempotency.antt =====
-- app/core/idempotency.py: writes that come with an Idempotency-Key.
-- A key is a text; a body is a list of bytes. The digest of a body, the coercion to JSON and the route's
-- own work are arguments, and so is `empty`, the body `{}`.
pub mod Replays
use oorvashee_backend.Prelude.{
  ℕ, Bool, true, false, ◌&&◌, ◌||◌, not, Option, none, some, List, [], ◌∷◌, ◌++◌, leb, ◌==◌,
  if◌then◌else◌, length, same_text,
}
use oorvashee_backend.Exceptions.{AppError, Result, ok, err, ◌>>=◌, ◌>>◌, raise_if, or_raise}
use oorvashee_backend.Slugs.{Text}

-- `[A-Za-z0-9_-]`.
abbrev pub is_key_char : ℕ → Bool
is_key_char c =
    (leb b'A' c && leb c b'Z')
    || (leb b'a' c && leb c b'z')
    || (leb b'0' c && leb c b'9')
    || c == b'_'
    || c == b'-'

abbrev pub all_key_chars : Text → Bool
all_key_chars [] = true
all_key_chars (c ∷ text) = is_key_char c && all_key_chars text

-- `$` matches before a line feed at the end, too.
abbrev pub without_newline : Text → Text
without_newline [] = []
without_newline (c ∷ []) = if c == b'\n' then [] else c ∷ []
without_newline (c ∷ d ∷ text) = c ∷ without_newline (d ∷ text)

-- `_KEY_PATTERN.match(key)`.
unfoldable pub is_key : Text → Bool
is_key text =
    let key = without_newline text in
    all_key_chars key && leb 8 (length key) && leb (length key) 128

-- A header that is left out, or empty.
abbrev pub given_header : Option Text → Option Text
given_header none = none
given_header (some []) = none
given_header (some (c ∷ text)) = some (c ∷ text)

pub record RequestIdempotency (Body : Type 0) : Type 0 where
  pub key : Text
  pub route : ℕ
  pub user_id : Option ℕ
  pub request_hash : ℕ
  pub response_status : ℕ
  pub response_body : Body

pub record IdempotencyContext (Body : Type 0) : Type 0 where
  pub key : Text
  pub route : ℕ
  pub request_hash : ℕ
  pub cached_status : Option ℕ
  pub cached_body : Option Body

module _ {Body : Type 0} where
  -- `select(RequestIdempotency)` by key and route, which are unique together.
  unfoldable pub find_request :
      Text → ℕ → List (RequestIdempotency Body) → Option (RequestIdempotency Body)
  find_request key route [] = none
  find_request key route (r ∷ rows) =
      if same_text r.key key && r.route == route then some r else find_request key route rows

  -- What the row that was found, if any, says of the request.
  abbrev pub context_of :
      Text → ℕ → ℕ → Option (RequestIdempotency Body) → Result (IdempotencyContext Body)
  context_of key route hash none = ok (record {
    key = key;
    route = route;
    request_hash = hash;
    cached_status = none;
    cached_body = none;
  })
  context_of key route hash (some r) =
      if r.request_hash == hash
      then ok (record {
        key = key;
        route = route;
        request_hash = hash;
        cached_status = some r.response_status;
        cached_body = some r.response_body;
      })
      else err AppError.idempotency_conflict

  unfoldable pub idempotency_required :
      Option Text → ℕ → ℕ → List (RequestIdempotency Body) → Result (IdempotencyContext Body)
  unfolding is_key find_request
  idempotency_required header route hash rows = do
    key ← or_raise (given_header header) AppError.idempotency_key_missing
    raise_if (not (is_key key)) AppError.idempotency_key_invalid
    context_of key route hash (find_request key route rows)

  abbrev pub insert_unless :
      Option (RequestIdempotency Body)
      → RequestIdempotency Body
      → List (RequestIdempotency Body)
      → Result (List (RequestIdempotency Body))
  insert_unless none r rows = ok (rows ++ r ∷ [])
  insert_unless (some q) r rows = err AppError.unique_violation

  -- The insertion and its flush: the pair of key and route is unique.
  unfoldable pub add_request :
      RequestIdempotency Body
      → List (RequestIdempotency Body)
      → Result (List (RequestIdempotency Body))
  unfolding find_request
  add_request r rows = insert_unless (find_request r.key r.route rows) r rows

-- `status or 200`.
abbrev pub status_or_ok : ℕ → ℕ
status_or_ok status = if status == 0 then 200 else status

abbrev pub body_or : {Body : Type 0} → Body → Option Body → Body
body_or empty none = empty
body_or empty (some body) = body

-- The cache beside the tables that the route's own work reads and writes.
pub record Tables (Body S : Type 0) : Type 0 where
  pub requests : List (RequestIdempotency Body)
  pub state : S

module _ {Body S : Type 0} (empty : Body) (json_safe : Body → Body) where
  -- The work is done, and its answer is kept.
  unfoldable pub execute_and_keep :
      IdempotencyContext Body
      → Option ℕ
      → ℕ
      → (S → Result (Body × S))
      → Tables Body S
      → Result ((ℕ × Body) × Tables Body S)
  unfolding add_request
  execute_and_keep ctx user_id status_code execute t = do
    (body, state) ← execute t.state
    rows ←
        add_request
          (record {
            key = ctx.key;
            route = ctx.route;
            user_id = user_id;
            request_hash = ctx.request_hash;
            response_status = status_code;
            response_body = json_safe body;
          })
          t.requests
    ok ((status_code, json_safe body), record { requests = rows; state = state })

  abbrev pub replay_or :
      Option ℕ
      → Option Body
      → Tables Body S
      → Result ((ℕ × Body) × Tables Body S)
      → Result ((ℕ × Body) × Tables Body S)
  replay_or none cached_body t run = run
  replay_or (some status) cached_body t run =
      ok ((status_or_ok status, body_or empty cached_body), t)

  unfoldable pub with_idempotency :
      IdempotencyContext Body
      → Option ℕ
      → ℕ
      → (S → Result (Body × S))
      → Tables Body S
      → Result ((ℕ × Body) × Tables Body S)
  unfolding execute_and_keep
  with_idempotency ctx user_id status_code execute t =
      replay_or ctx.cached_status ctx.cached_body t
        (execute_and_keep ctx user_id status_code execute t)

-- A request, with what its route does.
pub record KeyedRequest (Body S : Type 0) : Type 0 where
  pub header : Option Text
  pub route : ℕ
  pub payload : List ℕ
  pub user_id : Option ℕ
  pub status_code : ℕ
  pub execute : S → Result (Body × S)

module _ {Body S : Type 0} (hash_body : List ℕ → ℕ) (empty : Body) (json_safe : Body → Body) where
  -- The dependency, and then the route's handler.
  unfoldable pub serve : KeyedRequest Body S → Tables Body S → Result ((ℕ × Body) × Tables Body S)
  unfolding idempotency_required with_idempotency
  serve q t = do
    ctx ← idempotency_required q.header q.route (hash_body q.payload) t.requests
    with_idempotency empty json_safe ctx q.user_id q.status_code q.execute t
