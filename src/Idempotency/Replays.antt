-- ===== src/Idempotency/Replays.antt =====
-- idempotency.ts: which later requests are answered from the cache.
use Prim.Native.String.{String}
use text.Mathlib.TextEquality.{eq_iff}
use remitlend.Base.{
  or_false, le→leb, lt→ltb, ℕ, ◌+◌, ◌≤◌, ◌<◌, ◌≡◌, ◌∙◌, refl, ap, Bool, true, false, ◌&&◌, not,
  Option, none, some, List, [], ◌∷◌, any, ltb, leb, if◌then◌else◌, arith,
}
use remitlend.Base.Assoc.{lookup, ◌same◌, lookup-insert}
use remitlend.Idempotency.{
  CachedResponse, FinishedResponse, IdempotencyRequest, Cache, bad_request, replays, runs, present,
  cache_key, is_login, is_write_operation, unexpired, cache_get, cache_set, answer_cached,
  handle_keyed, store_body, store_rotated, idempotency_middleware, on_finish,
  rotate_idempotency_key, idempotency_ttl,
}

and_never {ℓ} : {A : Type ℓ} (b : Bool) (x y : A) → (if b && false then x else y) ≡ y
and_never true x y = refl
and_never false x y = refl

same_refl : (s : String) → (s same s) ≡ true
same_refl s = ground (arith, eq_iff s s)

module _ (Body : Type 0) where
  -- What writes to the cache: a response that is finished, and a rotation of a key.
  pub data CacheEvent : Type 0 where
    finishes : Bool → ℕ → String → FinishedResponse Body → CacheEvent
    rotates : Bool → Bool → ℕ → String → String → CacheEvent

module _ {Body : Type 0} where
  unfoldable pub apply_write : CacheEvent Body → Cache Body → Cache Body
  apply_write (finishes fails now key r) cache = on_finish fails now key r cache
  apply_write (rotates get_fails set_fails now old_key new_key) cache =
      (rotate_idempotency_key get_fails set_fails now old_key new_key cache).1

  unfoldable pub apply_writes : List (CacheEvent Body) → Cache Body → Cache Body
  apply_writes [] cache = cache
  apply_writes (e ∷ es) cache = apply_writes es (apply_write e cache)

  unfoldable pub writes_to : String → CacheEvent Body → Bool
  writes_to key (finishes _ _ key' _) = key' same key
  writes_to key (rotates _ _ _ _ new_key) = cache_key new_key same key

  set_elsewhere :
      (fails : Bool) (now : ℕ) (key k : String) (v : CachedResponse Body) (ttl : ℕ)
      (cache : Cache Body)
      → (k same key) ≡ false
      → lookup key (cache_set fails now k v ttl cache) ≡ lookup key cache
  set_elsewhere true now key k v ttl cache differs = refl
  set_elsewhere false now key k v ttl cache differs =
      lookup-insert k key (v, now + ttl) cache
      ∙ ap (λ b. if b then some (v, now + ttl) else lookup key cache) differs

  store_elsewhere :
      (fails : Bool) (now : ℕ) (key k : String) (status : ℕ) (body : Option Body)
      (cache : Cache Body)
      → (k same key) ≡ false
      → lookup key (store_body fails now k status body cache) ≡ lookup key cache
  store_elsewhere fails now key k status none cache differs = refl
  store_elsewhere fails now key k status (some body) cache differs =
      stored (leb 200 status && ltb status 500)
    where
      stored :
          (b : Bool)
          → lookup key (
              if b
              then cache_set fails now k
                  (record { status = status; body = body })
                  idempotency_ttl
                  cache
              else cache)
            ≡ lookup key cache
      stored true = set_elsewhere fails now key k _ idempotency_ttl cache differs
      stored false = refl

  rotate_elsewhere :
      (fails : Bool) (now : ℕ) (key k : String) (found : Option (CachedResponse Body))
      (cache : Cache Body)
      → (cache_key k same key) ≡ false
      → lookup key (store_rotated fails now k found cache).1 ≡ lookup key cache
  rotate_elsewhere fails now key k none cache differs = refl
  rotate_elsewhere fails now key k (some v) cache differs =
      set_elsewhere fails now key (cache_key k) v idempotency_ttl cache differs

  write_elsewhere :
      (key : String) (e : CacheEvent Body) (cache : Cache Body)
      → writes_to key e ≡ false
      → lookup key (apply_write e cache) ≡ lookup key cache
  unfolding apply_write on_finish rotate_idempotency_key writes_to
  write_elsewhere key (finishes fails now k r) cache differs =
      store_elsewhere fails now key k r.status_code r.response_body cache differs
  write_elsewhere key (rotates get_fails set_fails now old_key new_key) cache differs =
      rotate_elsewhere set_fails now key new_key (cache_get get_fails now (cache_key old_key) cache)
        cache differs

  writes_elsewhere :
      (key : String) (es : List (CacheEvent Body)) (cache : Cache Body)
      → any (writes_to key) es ≡ false
      → lookup key (apply_writes es cache) ≡ lookup key cache
  unfolding apply_writes
  writes_elsewhere key [] cache differs = refl
  writes_elsewhere key (e ∷ es) cache differs =
      writes_elsewhere key es (apply_write e cache) sides.1 ∙ write_elsewhere key e cache sides.0
    where
      sides : (writes_to key e ≡ false) × (any (writes_to key) es ≡ false)
      sides = or_false (writes_to key e) (any (writes_to key) es) differs

  -- A request with a key is handled by what the cache has under it, whatever its method and path.
  handled_by_key :
      (req : IdempotencyRequest) (k : String) (fails : Bool) (now : ℕ) (cache : Cache Body)
      → present req.header ≡ some k
      → is_login req ≡ false
      → idempotency_middleware req fails now cache ≡ handle_keyed fails now (some k) cache
  unfolding idempotency_middleware
  handled_by_key req k fails now cache has login =
      rw (has, login)
        (and_never (is_write_operation req) bad_request (handle_keyed fails now (some k) cache))

  answered :
      (key : String) (fails : Bool) (now expires : ℕ) (v : CachedResponse Body)
      → answer_cached key (if fails then none else unexpired now (some (v, expires)))
        ≡ (if not fails && ltb now expires then replays v else runs key)
  answered key true now expires v = refl
  answered key false now expires v = by_time (ltb now expires)
    where
      by_time :
          (b : Bool)
          → answer_cached key (if b then some v else none) ≡ (if b then replays v else runs key)
      by_time true = refl
      by_time false = refl

  lookup-on_finish :
      (now : ℕ) (key : String) (status : ℕ) (body : Body) (cache : Cache Body)
      → 200 ≤ status
      → status < 500
      → lookup key (
          on_finish false now key
            (record { status_code = status; response_body = some body })
            cache)
        ≡ some (record { status = status; body = body }, now + idempotency_ttl)
  unfolding on_finish
  lookup-on_finish now key status body cache low high =
      rw (le→leb 200 status low, lt→ltb status 500 high)
        (lookup-insert key key (record { status = status; body = body }, now + idempotency_ttl)
            cache
          ∙ ap
              (λ b.
                if b
                then some (record { status = status; body = body }, now + idempotency_ttl)
                else lookup key cache)
              (same_refl key))

  -- When a response with a body and a status from 200 to 499 is finished under a key and stored, then whatever
  -- is stored under other keys afterwards, a later request with that key that is no login, of any method and
  -- path, is answered with that status and body when Redis answers and less than the time to live has passed,
  -- and its handler runs otherwise.
  pub replayed_until_expiry :
      (req : IdempotencyRequest) (k : String) (fails : Bool) (stored later status : ℕ) (body : Body)
      (events : List (CacheEvent Body)) (cache : Cache Body)
      → present req.header ≡ some k
      → is_login req ≡ false
      → 200 ≤ status
      → status < 500
      → any (writes_to (cache_key k)) events ≡ false
      → idempotency_middleware req fails later (
          apply_writes events (
            on_finish false stored
              (cache_key k)
              (record { status_code = status; response_body = some body })
              cache))
        ≡ (if not fails && ltb later (stored + idempotency_ttl)
            then replays (record { status = status; body = body })
            else runs (cache_key k))
  replayed_until_expiry req k fails stored later status body events cache has login low high
        elsewhere =
      handled_by_key req k fails later _ has login
      ∙ ap (λ l. answer_cached (cache_key k) (if fails then none else unexpired later l))
          (writes_elsewhere (cache_key k) events _ elsewhere
            ∙ lookup-on_finish stored (cache_key k) status body cache low high)
      ∙ answered (cache_key k) fails later (stored + idempotency_ttl)
          (record { status = status; body = body })
