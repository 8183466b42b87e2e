-- ===== src/Idempotency/Replays.antt =====
-- app/core/idempotency.py: the repetitions of a request.
use mathlib.Core.Path.{subst}
use oorvashee_backend.Prelude.{
  ℕ, ◌≡◌, ◌≢◌, refl, sym, ap, ◌∙◌, inl, inr, true, false, none, some, List, [], ◌∷◌, ◌++◌, ◌==◌,
  arith, same_text_refl, Bool-cases, Option-cases,
}
use oorvashee_backend.Exceptions.{AppError, ok, err}
use oorvashee_backend.Exceptions.Loops.{Ends, Ends-ok, Ends-of_ok}
use oorvashee_backend.Slugs.{Text}
use oorvashee_backend.Idempotency.{
  RequestIdempotency, KeyedRequest, Tables, find_request, add_request, idempotency_required,
  with_idempotency, serve, is_key, given_header, status_or_ok,
}

same_number : {a b : ℕ} → a ≡ b → (a == b) ≡ true
same_number e = ground (arith)

other_number : {a b : ℕ} → a ≢ b → (a == b) ≡ false
other_number n = ground (arith)

module _ {Body : Type 0} where
  find-appended :
      (r : RequestIdempotency Body) (rows : List (RequestIdempotency Body))
      → find_request r.key r.route rows ≡ none
      → find_request r.key r.route (rows ++ r ∷ []) ≡ some r
  unfolding find_request
  find-appended r [] h = rw (same_text_refl r.key) (ground (arith))
  find-appended r (x ∷ rows) h = ground (arith, find-appended r rows)

  find-kept :
      (key : Text) (route : ℕ) (r q : RequestIdempotency Body)
      (rows : List (RequestIdempotency Body))
      → find_request key route rows ≡ some q
      → find_request key route (rows ++ r ∷ []) ≡ some q
  unfolding find_request
  find-kept key route r q [] h = cc
  find-kept key route r q (x ∷ rows) h = ground (arith, find-kept key route r q rows)

module _ {Body S : Type 0} (hash_body : List ℕ → ℕ) (empty : Body) (json_safe : Body → Body) where
  -- The key of a request, where it has one that is valid.
  pub record HasKey (q : KeyedRequest Body S) (key : Text) : Type 0 where
    pub given : given_header q.header ≡ some key
    pub valid : is_key key ≡ true

  -- What stands in the cache for an answer.
  pub record Answered (key : Text) (route hash : ℕ) (answer : ℕ × Body) (t : Tables Body S)
      : Type 0 where
    pub row : RequestIdempotency Body
    pub found : find_request key route t.requests ≡ some row
    pub same_hash : row.request_hash ≡ hash
    pub same_status : status_or_ok row.response_status ≡ answer.0
    pub same_body : row.response_body ≡ answer.1

  abbrev kept : KeyedRequest Body S → Text → Body → RequestIdempotency Body
  kept q key body = record {
    key = key;
    route = q.route;
    user_id = q.user_id;
    request_hash = hash_body q.payload;
    response_status = q.status_code;
    response_body = json_safe body;
  }

  -- A request that is served has an answer in the cache from then on.
  serve-Answered :
      (q : KeyedRequest Body S) (key : Text) (t : Tables Body S)
      → HasKey q key
      → (q.status_code == 0) ≡ false
      → Ends
          (λ a. Answered key q.route (hash_body q.payload) a.0 a.1)
          (λ _. Unit {0})
          (serve hash_body empty json_safe q t)
  unfolding serve idempotency_required with_idempotency add_request
  serve-Answered q key t k nonzero =
      rw (k.given, k.valid)
        (elim (Option-cases (find_request key q.route t.requests)) [
          | inl new ↦ rw new (
              Ends-ok (λ a. Answered key q.route (hash_body q.payload) a.0 a.1) (q.execute t.state)
                _
                (λ done ran. rw new (record {
                  row = kept q key done.0;
                  found = find-appended (kept q key done.0) t.requests new;
                  same_hash = refl;
                  same_status = rw nonzero refl;
                  same_body = refl;
                })))
          | inr (r, e) ↦ rw e (elim (Bool-cases (r.request_hash == hash_body q.payload)) [
            | inl same ↦ rw same (record {
              row = r;
              found = e;
              same_hash = ground (arith);
              same_status = refl;
              same_body = refl;
            })
            | inr other ↦ rw other tt
          ])
        ])

  -- And whatever is served after keeps it.
  serve-keeps :
      (q : KeyedRequest Body S) (t : Tables Body S) (key : Text) (route hash : ℕ)
      (answer : ℕ × Body)
      → Answered key route hash answer t
      → Ends
          (λ a. Answered key route hash answer a.1)
          (λ _. Unit {0})
          (serve hash_body empty json_safe q t)
  unfolding serve with_idempotency add_request
  serve-keeps q t key route hash answer h =
      Ends-ok (λ a. Answered key route hash answer a.1)
        (idempotency_required q.header q.route (hash_body q.payload) t.requests) _
        (λ ctx _. elim (Option-cases ctx.cached_status) [
          | inr (status, e) ↦ rw e h
          | inl e ↦ rw e (
              Ends-ok (λ a. Answered key route hash answer a.1) (q.execute t.state) _
                (λ done _. elim (Option-cases (find_request ctx.key ctx.route t.requests)) [
                  | inl new ↦ rw new (record {
                    row = h.row;
                    same_hash = h.same_hash;
                    same_status = h.same_status;
                    same_body = h.same_body;
                    found = find-kept key route _ h.row t.requests h.found;
                  })
                  | inr (r, taken) ↦ rw taken tt
                ]))
        ])

  -- The tables that requests have led to.
  pub data Later : Tables Body S → Tables Body S → Type 0 where
    here : {t : Tables Body S} → Later t t
    next :
        {t u v : Tables Body S} (q : KeyedRequest Body S) (answer : ℕ × Body)
        → Later t u
        → serve hash_body empty json_safe q u ≡ ok (answer, v)
        → Later t v

  later-Answered :
      (key : Text) (route hash : ℕ) (answer : ℕ × Body) {t u : Tables Body S}
      → Later t u
      → Answered key route hash answer t
      → Answered key route hash answer u
  later-Answered key route hash answer here h = h
  later-Answered key route hash answer (next {u = u} q a l e) h =
      Ends-of_ok (λ r. Answered key route hash answer r.1) (λ _. Unit {0}) _ (a, _)
        (serve-keeps q u key route hash answer (later-Answered key route hash answer l h)) e

  replays :
      (q : KeyedRequest Body S) (key : Text) (hash : ℕ) (answer : ℕ × Body) (t : Tables Body S)
      → HasKey q key
      → Answered key q.route hash answer t
      → (hash_body q.payload ≡ hash → serve hash_body empty json_safe q t ≡ ok (answer, t))
        × (hash_body q.payload ≢ hash
            → serve hash_body empty json_safe q t ≡ err AppError.idempotency_conflict)
  unfolding serve idempotency_required with_idempotency
  replays q key hash answer t k h = (
    λ same.
        rw (k.given, k.valid, h.found, same_number (h.same_hash ∙ sym same))
          (ap (λ a. ok (a, t)) answered),
    λ other. rw (k.given, k.valid, h.found, other_number (λ e. other (sym e ∙ h.same_hash))) refl,
  )
    where
      answered : (status_or_ok h.row.response_status, h.row.response_body) ≡ answer
      answered = cc

  -- Once a request with a key has been served, whatever is served after it, its repetitions are
  -- answered as it was and change nothing, by whoever they come; the same key with another body is
  -- refused. The status of the answer is not 0.
  pub serve_once :
      (first again : KeyedRequest Body S) (key : Text) (answer : ℕ × Body) (t u v : Tables Body S)
      → HasKey first key
      → HasKey again key
      → again.route ≡ first.route
      → (first.status_code == 0) ≡ false
      → serve hash_body empty json_safe first t ≡ ok (answer, u)
      → Later u v
      → (hash_body again.payload ≡ hash_body first.payload
          → serve hash_body empty json_safe again v ≡ ok (answer, v))
        × (hash_body again.payload ≢ hash_body first.payload
            → serve hash_body empty json_safe again v ≡ err AppError.idempotency_conflict)
  serve_once first again key answer t u v k k' route nonzero e l =
      replays again key (hash_body first.payload) answer v k' (
        subst (λ r. Answered key r (hash_body first.payload) answer v) (sym route)
          (later-Answered key first.route (hash_body first.payload) answer l (
            Ends-of_ok (λ a. Answered key first.route (hash_body first.payload) a.0 a.1)
              (λ _. Unit {0}) _ (answer, u) (serve-Answered first key t k nonzero) e)))
