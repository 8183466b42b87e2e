-- ===== src/Examples/Keys.antt =====
-- The theorem on app/core/idempotency.py, on a counter: the state is a number, and so is a body.
use oorvashee_backend.Prelude.{ℕ, ◌+◌, ◌≡◌, ◌≢◌, refl, some, List, [], ◌∷◌}
use oorvashee_backend.Exceptions.{AppError, Result, ok, err}
use oorvashee_backend.Slugs.{Text}
use oorvashee_backend.Idempotency.{KeyedRequest, Tables, RequestIdempotency, serve, is_key}
use oorvashee_backend.Idempotency.Replays.{HasKey, Later, serve_once}

abbrev key : Text
key = b'o' ∷ b'r' ∷ b'd' ∷ b'e' ∷ b'r' ∷ b'-' ∷ b'0' ∷ b'1' ∷ []

abbrev sum : List ℕ → ℕ
sum [] = 0
sum (b ∷ bytes) = b + sum bytes

abbrev same : ℕ → ℕ
same body = body

abbrev count : ℕ → Result (ℕ × ℕ)
count n = ok (n + 1, n + 1)

abbrev order : KeyedRequest ℕ ℕ
order = record {
  header = some key;
  route = 4;
  payload = 1 ∷ 2 ∷ [];
  user_id = some 7;
  status_code = 201;
  execute = count;
}

abbrev other : KeyedRequest ℕ ℕ
other = record order { route = 5; user_id = some 8 }

abbrev row : RequestIdempotency ℕ
row = record {
  key = key;
  route = 4;
  user_id = some 7;
  request_hash = 3;
  response_status = 201;
  response_body = 1;
}

abbrev before : Tables ℕ ℕ
before = record { requests = []; state = 0 }

abbrev between : Tables ℕ ℕ
between = record { requests = row ∷ []; state = 1 }

abbrev after : Tables ℕ ℕ
after = record {
  requests = row ∷ record row { route = 5; user_id = some 8; response_body = 2 } ∷ [];
  state = 2;
}

order-HasKey : HasKey sum 0 same order key
unfolding is_key
order-HasKey = record { given = refl; valid = refl }

order_served : serve sum 0 same order before ≡ ok ((201, 1), between)
unfolding serve
order_served = refl

later : Later sum 0 same between after
unfolding serve
later = Later.next other (201, 2) Later.here refl

serve_once_example :
    (sum (1 ∷ 2 ∷ []) ≡ sum (1 ∷ 2 ∷ []) → serve sum 0 same order after ≡ ok ((201, 1), after))
    × (sum (1 ∷ 2 ∷ []) ≢ sum (1 ∷ 2 ∷ [])
        → serve sum 0 same order after ≡ err AppError.idempotency_conflict)
serve_once_example =
    serve_once sum 0 same order order key (201, 1) before between after order-HasKey order-HasKey
      refl refl order_served later
