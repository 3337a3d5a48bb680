-- ===== src/Webhooks/Payload.antt =====
-- `prepareWebhookPayload` of backend/src/services/webhookService.ts: the size limit on what is sent. A
-- payload is the list of its fields; `JSON.stringify` and `Buffer.byteLength` are parameters.
use Prim.Native.String.{String}
use remitlend.Base.{
  ℕ, ◌≤◌, ◌<◌, ◌≡◌, refl, ◌⊎◌, inl, inr, Bool, true, false, Bool-cases, Option, none, some, List,
  [], ◌∷◌, ◌++◌, arith, ltb, if◌then◌else◌,
}
use remitlend.Base.Assoc.{Assoc, lookup}
use remitlend.Base.Result.{Result, ok, err}

-- A value of a payload; `items` is an array of the given length.
pub data Value : Type 0 where
  text : String → Value
  number : ℕ → Value
  flag : Bool → Value
  items : ℕ → List String → Value

abbrev pub Payload : Type 0
Payload = Assoc Value

pub data PayloadError : Type 0 where
  summary_exceeds_limit : ℕ → PayloadError

pub record PreparedPayload : Type 0 where
  pub body : String
  pub payload : Payload

-- The fields that every summary starts with.
abbrev pub summary_head : ℕ → ℕ → Payload
summary_head original_payload_bytes max_payload_bytes =
    ("truncated", flag true)
    ∷ ("reason", text "payload_too_large")
    ∷ ("originalPayloadBytes", number original_payload_bytes)
    ∷ ("maxPayloadBytes", number max_payload_bytes)
    ∷ []

-- `passthroughKeys`, those that the payload has.
abbrev pub pass_through : List String → Payload → Payload
pass_through [] p = []
pass_through (k ∷ ks) p =
    let rest = pass_through ks p in elim (lookup k p) [ none ↦ rest | some v ↦ (k, v) ∷ rest ]

abbrev pub topics_count : Option Value → Payload
topics_count (some (items n _)) = ("topicsCount", number n) ∷ []
topics_count _ = []

unfoldable pub summarize_oversized : Payload → ℕ → ℕ → Payload
summarize_oversized p original_payload_bytes max_payload_bytes =
    summary_head original_payload_bytes max_payload_bytes
    ++ pass_through ("eventId" ∷ "eventType" ∷ "loanId" ∷ "address" ∷ "ledger" ∷ []) p
    ++ topics_count (lookup "topics" p)

-- A field that is kept when it is a text.
abbrev pub text_field : String → Option Value → Payload
text_field k (some (text s)) = (k, text s) ∷ []
text_field k _ = []

unfoldable pub summarize_oversized_minimal : Payload → ℕ → ℕ → Payload
summarize_oversized_minimal p original_payload_bytes max_payload_bytes =
    summary_head original_payload_bytes max_payload_bytes
    ++ text_field "eventId" (lookup "eventId" p)
    ++ text_field "eventType" (lookup "eventType" p)

module _ (stringify : Payload → String) (byte_length : String → ℕ) where
  unfoldable pub prepare_webhook_payload : ℕ → Payload → Result PayloadError PreparedPayload
  unfolding summarize_oversized summarize_oversized_minimal
  prepare_webhook_payload max_payload_bytes p =
      let payload_bytes = byte_length (stringify p) in
      let summary = summarize_oversized p payload_bytes max_payload_bytes in
      let minimal = summarize_oversized_minimal p payload_bytes max_payload_bytes in
      if ltb max_payload_bytes payload_bytes
      then (if ltb max_payload_bytes (byte_length (stringify summary))
          then (if ltb max_payload_bytes (byte_length (stringify minimal))
              then err (summary_exceeds_limit max_payload_bytes)
              else ok (record { body = stringify minimal; payload = minimal }))
          else ok (record { body = stringify summary; payload = summary }))
      else ok (record { body = stringify p; payload = p })

  -- What is sent: the whole payload, its summary, or its minimal summary.
  prepared-whole :
      (m : ℕ) (p : Payload)
      → ltb m (byte_length (stringify p)) ≡ false
      → prepare_webhook_payload m p ≡ ok (record { body = stringify p; payload = p })
  unfolding prepare_webhook_payload
  prepared-whole m p h = rw (h, prepare_webhook_payload) refl

  prepared-summary :
      (m : ℕ) (p : Payload)
      → let s = summarize_oversized p (byte_length (stringify p)) m in
        ltb m (byte_length (stringify p)) ≡ true
        → ltb m (byte_length (stringify s)) ≡ false
        → prepare_webhook_payload m p ≡ ok (record { body = stringify s; payload = s })
  unfolding prepare_webhook_payload
  prepared-summary m p h k = rw (h, prepare_webhook_payload, k) refl

  prepared-minimal :
      (m : ℕ) (p : Payload) (b : Bool)
      → let s = summarize_oversized p (byte_length (stringify p)) m in
        let t = summarize_oversized_minimal p (byte_length (stringify p)) m in
        ltb m (byte_length (stringify p)) ≡ true
        → ltb m (byte_length (stringify s)) ≡ true
        → ltb m (byte_length (stringify t)) ≡ b
        → prepare_webhook_payload m p ≡ (
            if b
            then err (summary_exceeds_limit m)
            else ok (record { body = stringify t; payload = t }))
  unfolding prepare_webhook_payload
  prepared-minimal m p b h k l = rw (h, prepare_webhook_payload, k, l) refl

  summary-event_id :
      (p : Payload) (n m : ℕ) (v : Value)
      → lookup "eventId" p ≡ some v
      → lookup "eventId" (summarize_oversized p n m) ≡ some v
  unfolding summarize_oversized
  summary-event_id p n m v h = rw h refl

  minimal-event_id :
      (p : Payload) (n m : ℕ) (e : String)
      → lookup "eventId" p ≡ some (text e)
      → lookup "eventId" (summarize_oversized_minimal p n m) ≡ some (text e)
  unfolding summarize_oversized_minimal
  minimal-event_id p n m e h = rw h refl

  -- A body that fits, made of the payload beside it, which keeps the event's id.
  abbrev pub Fits : ℕ → String → PreparedPayload → Type 0
  Fits m e prepared =
      (byte_length prepared.body ≤ m)
      × (prepared.body ≡ stringify prepared.payload)
      × (lookup "eventId" prepared.payload ≡ some (text e))

  -- For a payload with the text of an event id, either what is sent fits into the limit and names the same
  -- event, or an error is thrown, and then even the minimal summary exceeds the limit.
  pub prepare_webhook_payload-Fits :
      (m : ℕ) (p : Payload) (e : String)
      → lookup "eventId" p ≡ some (text e)
      → ((prepared : PreparedPayload) × (prepare_webhook_payload m p ≡ ok prepared)
          × Fits m e prepared)
        ⊎ ((prepare_webhook_payload m p ≡ err (summary_exceeds_limit m))
            × (m
                < byte_length
                    (stringify (summarize_oversized_minimal p (byte_length (stringify p)) m))))
  prepare_webhook_payload-Fits m p e h =
      let n = byte_length (stringify p) in
      let s = summarize_oversized p n m in
      let t = summarize_oversized_minimal p n m in
      elim (Bool-cases (ltb m n)) [
        | inr a ↦ inl (_, prepared-whole m p a, (ground (arith, a), refl, h))
        | inl a ↦ elim (Bool-cases (ltb m (byte_length (stringify s)))) [
          | inr b ↦ inl (
            _,
            prepared-summary m p a b,
            (ground (arith, b), refl, summary-event_id p n m (text e) h),
          )
          | inl b ↦ elim (Bool-cases (ltb m (byte_length (stringify t)))) [
            | inr c ↦ inl (
              _,
              prepared-minimal m p false a b c,
              (ground (arith, c), refl, minimal-event_id p n m e h),
            )
            | inl c ↦ inr (prepared-minimal m p true a b c, ground (arith, c))
          ]
        ]
      ]
