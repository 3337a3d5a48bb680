-- ===== src/DualControl/Canonical.antt =====
-- privilegedActionService.ts: `canonicalize` and `computePayloadHash`. The platform gives `stringify`, which
-- is `JSON.stringify` of a primitive value or of a key, `before`, the order of `Array.prototype.sort`, and
-- `sha256`, the digest in hexadecimal. Values are made canonical before the keys are sorted, not after,
-- which gives the same text. As an item of an array `undefined` joins as the empty text. A payload is stored as
-- what `JSON.stringify` writes of it (`written`), in a column of type `jsonb`: the platform's `jsonb` is what
-- such a column gives back, and `is_finite` tells the numbers that are written as such from the others.
use Prim.Native.String.{String, ◌++◌}
use remitlend.Base.{Bool, true, false, List, [], ◌∷◌, if◌then◌else◌}

mutual
  pub data Json : Type 0 where
    undefined null : Json
    bool : Bool → Json
    number text : String → Json
    array : Items → Json
    object : Fields → Json

  pub data Items : Type 0 where
    no_items : Items
    item : Json → Items → Items

  pub data Fields : Type 0 where
    no_fields : Fields
    field : String → Json → Fields → Fields

pub record JsonPlatform : Type 0 where
  pub stringify : Json → String
  pub before : String → String → Bool
  pub sha256 : String → String
  pub is_finite : String → Bool
  pub jsonb : Json → Json

abbrev pub is_undefined : Json → Bool
is_undefined undefined = true
is_undefined _ = false

-- `texts.join(',')`.
abbrev pub join : List String → String
join [] = ""
join (t ∷ []) = t
join (t ∷ u ∷ us) = t ++ "," ++ join (u ∷ us)

abbrev insert_key :
    (String → String → Bool) → String × String → List (String × String) → List (String × String)
insert_key before e [] = e ∷ []
insert_key before e (x ∷ xs) = if before x.0 e.0 then x ∷ insert_key before e xs else e ∷ x ∷ xs

abbrev sort_keys : (String → String → Bool) → List (String × String) → List (String × String)
sort_keys before [] = []
sort_keys before (e ∷ es) = insert_key before e (sort_keys before es)

abbrev entries : JsonPlatform → List (String × String) → List String
entries p [] = []
entries p ((k, v) ∷ es) = (p.stringify (text k) ++ ":" ++ v) ∷ entries p es

unfoldable mutual
  pub canonicalize : JsonPlatform → Json → String
  canonicalize p undefined = ""
  canonicalize p null = p.stringify null
  canonicalize p (bool b) = p.stringify (bool b)
  canonicalize p (number n) = p.stringify (number n)
  canonicalize p (text s) = p.stringify (text s)
  canonicalize p (array xs) = "[" ++ join (canonical_items p xs) ++ "]"
  canonicalize p (object fs) =
      "{" ++ join (entries p (sort_keys p.before (canonical_fields p fs))) ++ "}"

  pub canonical_items : JsonPlatform → Items → List String
  canonical_items p no_items = []
  canonical_items p (item x xs) = canonicalize p x ∷ canonical_items p xs

  pub canonical_fields : JsonPlatform → Fields → List (String × String)
  canonical_fields p no_fields = []
  canonical_fields p (field k v fs) =
      if is_undefined v
      then canonical_fields p fs
      else (k, canonicalize p v) ∷ canonical_fields p fs

-- What `JSON.stringify` writes, as a value again: `undefined` and numbers that are not finite are null, and a
-- field that is `undefined` is left out.
unfoldable mutual
  pub written : JsonPlatform → Json → Json
  written p undefined = null
  written p null = null
  written p (bool b) = bool b
  written p (number n) = if p.is_finite n then number n else null
  written p (text s) = text s
  written p (array xs) = array (written_items p xs)
  written p (object fs) = object (written_fields p fs)

  pub written_items : JsonPlatform → Items → Items
  written_items p no_items = no_items
  written_items p (item x xs) = item (written p x) (written_items p xs)

  pub written_fields : JsonPlatform → Fields → Fields
  written_fields p no_fields = no_fields
  written_fields p (field k v fs) =
      let rest = written_fields p fs in if is_undefined v then rest else field k (written p v) rest

-- `JSON.stringify(payload)::jsonb`, as it is read.
unfoldable pub stored_payload : JsonPlatform → Json → Json
unfolding written
stored_payload p payload = p.jsonb (written p payload)

unfoldable pub compute_payload_hash : JsonPlatform → String → Json → String
compute_payload_hash p action_type payload =
    p.sha256 (action_type ++ "\n" ++ canonicalize p payload)
