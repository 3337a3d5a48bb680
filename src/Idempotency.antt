-- ===== src/Idempotency.antt =====
-- backend/src/middleware/idempotency.ts: `idempotencyMiddleware` up to its answer or its call of `next`, the
-- listener that stores the response when it is finished, and `rotateIdempotencyKey`; `get` and `set` of
-- backend/src/services/cacheService.ts. Redis is a list of entries, each with the second at which it expires.
-- A call of Redis may fail, which both functions turn into a miss. A body is the value that JSON carries,
-- `none` for one that is falsy. Logs and headers are left out.
pub mod Replays
mod Tests
use Prim.Native.String.{String, ◌++◌}
use remitlend.Base.{
  ℕ, ◌+◌, ◌*◌, ◌≡◌, Bool, true, false, ◌&&◌, ◌||◌, not, Option, none, some, List, [], ◌∷◌, any, ltb,
  leb, if◌then◌else◌,
}
use remitlend.Base.Assoc.{Assoc, lookup, insert, ◌same◌}

abbrev pub idempotency_ttl : ℕ
idempotency_ttl = 24 * 60 * 60

abbrev pub write_methods : List String
write_methods = "POST" ∷ "PUT" ∷ "PATCH" ∷ "DELETE" ∷ []

module _ (Body : Type 0) where
  pub record CachedResponse : Type 0 where
    pub status : ℕ
    pub body : Body

  pub record FinishedResponse : Type 0 where
    pub status_code : ℕ
    pub response_body : Option Body

  -- Each entry has its value and the second at which it expires.
  abbrev pub Cache : Type 0
  Cache = Assoc (CachedResponse × ℕ)

  pub data Handling : Type 0 where
    bad_request passes_on : Handling
    replays : CachedResponse → Handling
    -- The handler runs, and the listener stores its response under the key.
    runs : String → Handling

pub record IdempotencyRequest : Type 0 where
  pub header : Option String
  pub method : String
  pub path : String

-- `if (key)`: an empty header is none.
abbrev pub present : Option String → Option String
present none = none
present (some k) = if k same "" then none else some k

abbrev pub cache_key : String → String
cache_key k = "idemp:" ++ k

abbrev pub is_write_operation : IdempotencyRequest → Bool
is_write_operation req = any (λ m. m same req.method) write_methods

-- The login's two requests, which are never stored.
abbrev pub is_login : IdempotencyRequest → Bool
is_login req =
    (req.method same "POST")
    && ((req.path same "/api/auth/challenge") || (req.path same "/api/auth/login"))

abbrev pub is_missing : Option String → Bool
is_missing none = true
is_missing (some _) = false

module _ {Body : Type 0} where
  abbrev pub unexpired : ℕ → Option (CachedResponse Body × ℕ) → Option (CachedResponse Body)
  unexpired now none = none
  unexpired now (some (value, expires)) = if ltb now expires then some value else none

  abbrev pub cache_get : Bool → ℕ → String → Cache Body → Option (CachedResponse Body)
  cache_get redis_fails now key cache =
      if redis_fails then none else unexpired now (lookup key cache)

  abbrev pub cache_set : Bool → ℕ → String → CachedResponse Body → ℕ → Cache Body → Cache Body
  cache_set redis_fails now key value ttl cache =
      if redis_fails then cache else insert key (value, now + ttl) cache

  abbrev pub answer_cached : String → Option (CachedResponse Body) → Handling Body
  answer_cached key none = runs key
  answer_cached key (some cached) = replays cached

  abbrev pub handle_keyed : Bool → ℕ → Option String → Cache Body → Handling Body
  handle_keyed redis_fails now none cache = passes_on
  handle_keyed redis_fails now (some k) cache =
      answer_cached (cache_key k) (cache_get redis_fails now (cache_key k) cache)

  unfoldable pub idempotency_middleware : IdempotencyRequest → Bool → ℕ → Cache Body → Handling Body
  idempotency_middleware req redis_fails now cache =
      let key = present req.header in
      if is_write_operation req && is_missing key
      then bad_request
      else (if is_login req then passes_on else handle_keyed redis_fails now key cache)

  -- The listener on `finish`.
  abbrev pub store_body : Bool → ℕ → String → ℕ → Option Body → Cache Body → Cache Body
  store_body redis_fails now key status none cache = cache
  store_body redis_fails now key status (some body) cache =
      if leb 200 status && ltb status 500
      then cache_set redis_fails now key (record { status = status; body = body }) idempotency_ttl
          cache
      else cache

  unfoldable pub on_finish : Bool → ℕ → String → FinishedResponse Body → Cache Body → Cache Body
  on_finish redis_fails now key r cache =
      store_body redis_fails now key r.status_code r.response_body cache

  abbrev pub store_rotated :
      Bool → ℕ → String → Option (CachedResponse Body) → Cache Body → Bool × Cache Body
  store_rotated set_fails now new_key none cache = (false, cache)
  store_rotated set_fails now new_key (some cached) cache =
      (true, cache_set set_fails now (cache_key new_key) cached idempotency_ttl cache)

  unfoldable pub rotate_idempotency_key :
      Bool → Bool → ℕ → String → String → Cache Body → Bool × Cache Body
  rotate_idempotency_key get_fails set_fails now old_key new_key cache =
      store_rotated set_fails now new_key (cache_get get_fails now (cache_key old_key) cache) cache
