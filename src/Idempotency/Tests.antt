-- ===== src/Idempotency/Tests.antt =====
-- idempotency.ts: a loan request that is finished, and the requests that follow with its key.
use Prim.Native.String.{String}
use remitlend.Base.{◌≡◌, refl, true, false, some, List, [], ◌∷◌, arith}
use remitlend.Idempotency.{
  CachedResponse, IdempotencyRequest, bad_request, replays, cache_key, idempotency_middleware,
  on_finish, rotate_idempotency_key,
}
use remitlend.Idempotency.Replays.{
  CacheEvent, finishes, rotates, apply_writes, writes_to, replayed_until_expiry,
}

abbrev loan_request : IdempotencyRequest
loan_request = record { header = some "k1"; method = "POST"; path = "/api/v1/loans" }

abbrev keyless_request : IdempotencyRequest
keyless_request = record loan_request { header = some "" }

abbrev created : CachedResponse String
created = record { status = 201; body = "loan 7" }

abbrev other_writes : List (CacheEvent String)
other_writes =
    finishes false 20 "idemp:k2" (record { status_code = 400; response_body = some "bad" })
    ∷ rotates false false 30 "k2" "k3"
    ∷ []

refused_without_key :
    idempotency_middleware {Body = String} keyless_request false 0 [] ≡ bad_request
unfolding idempotency_middleware
refused_without_key = refl

server_error_not_stored :
    on_finish {Body = String} false 0 "idemp:k1"
      (record { status_code = 500; response_body = some "oops" })
      []
    ≡ []
unfolding on_finish
server_error_not_stored = refl

rotation_reported_though_not_stored :
    rotate_idempotency_key false true 5 "k1" "k9" (("idemp:k1", (created, 10)) ∷ [])
    ≡ (true, ("idemp:k1", (created, 10)) ∷ [])
unfolding rotate_idempotency_key
rotation_reported_though_not_stored = refl

replayed_until_expiry_example :
    idempotency_middleware loan_request false 50 (
      apply_writes other_writes (
        on_finish false 10
          (cache_key "k1")
          (record { status_code = 201; response_body = some "loan 7" })
          []))
    ≡ replays created
unfolding writes_to
replayed_until_expiry_example =
    replayed_until_expiry loan_request "k1" false 10 50 201 "loan 7" other_writes [] refl refl
      (omega arith) (omega arith) refl
