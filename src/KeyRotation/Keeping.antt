-- ===== src/KeyRotation/Keeping.antt =====
-- `executeRotation` of backend/src/services/keyRotationService.ts keeps every DEK: whatever fails, the key
-- that a row's wrapped key opens to, under the row's own KEK, stays what it was.
use Prim.Native.String.{String}
use text.Mathlib.TextEquality.{eq_iff}
use remitlend.Base.{
  ℕ, zero, suc, ◌+◌, ◌≡◌, refl, sym, ap, ◌∙◌, ◌⊎◌, inl, inr, true, false, Bool-cases, List, [], ◌∷◌,
  map, take, All, arith,
}
use remitlend.Base.Assoc.{◌same◌}
use remitlend.KeyRotation.{EncryptedRecord, Database, rewrap}
use remitlend.KeyRotation.Kms.{Platform}
use remitlend.KeyRotation.Execution.{on_kek, drop, rotate_each}
use remitlend.KeyRotation.Attempt.{IsRewrapped, IsRotation}
use remitlend.KeyRotation.Counting.{one_record, tried, rotate_each_step, rotate_each-empty}
use remitlend.KeyRotation.Sound.{IsSound, unwrap_dek-opens, wrap_dek-opens}

-- The rows' ids are distinct, as a primary key's are.
abbrev pub DistinctIds : {Buffer : Type 0} → List (EncryptedRecord Buffer) → Type 0
DistinctIds [] = Unit
DistinctIds (x ∷ xs) = All (λ y. (y.id same x.id) ≡ false) xs × DistinctIds xs

-- The key that a row holds, under the KEK that it names.
abbrev pub dek_of : {Buffer : Type 0} → (String → Buffer → Buffer) → EncryptedRecord Buffer → Buffer
dek_of opens x = opens x.dek_kek_id x.dek_wrapped

module _ {Buffer : Type 0} (opens : String → Buffer → Buffer) (old : String) where
  -- A row with the id of a scanned record holds the key that the record was scanned with.
  abbrev pub Matches : EncryptedRecord Buffer → EncryptedRecord Buffer → Type 0
  Matches r x = ((x.id same r.id) ≡ false) ⊎ (dek_of opens x ≡ opens old r.dek_wrapped)

  rewrap_keeps :
      (r x : EncryptedRecord Buffer) (w : Buffer) (new : String)
      → Matches r x
      → opens new w ≡ opens old r.dek_wrapped
      → dek_of opens (rewrap r.id w new x) ≡ dek_of opens x
  rewrap_keeps r x w new (inl n) o = rw n refl
  rewrap_keeps r x w new (inr m) o = elim (Bool-cases (x.id same r.id)) [
    | inl e ↦ rw e (o ∙ sym m)
    | inr e ↦ rw e refl
  ]

  rewrap_keeps_rows :
      (r : EncryptedRecord Buffer) (w : Buffer) (new : String) (xs : List (EncryptedRecord Buffer))
      → All (Matches r) xs
      → opens new w ≡ opens old r.dek_wrapped
      → map (dek_of opens) (map (rewrap r.id w new) xs) ≡ map (dek_of opens) xs
  rewrap_keeps_rows r w new [] h o = refl
  rewrap_keeps_rows r w new (x ∷ xs) h o =
      cc (rewrap_keeps r x w new h.0 o, rewrap_keeps_rows r w new xs h.1 o)

  rewrap-Matches :
      (s r x : EncryptedRecord Buffer) (w : Buffer) (new : String)
      → Matches s x
      → Matches r x
      → opens new w ≡ opens old r.dek_wrapped
      → Matches s (rewrap r.id w new x)
  rewrap-Matches s r x w new h k o = elim (Bool-cases (x.id same r.id)) [
    | inr e ↦ rw e h
    | inl e ↦ elim h [ inl n ↦ rw e (inl n) | inr m ↦ inr (rewrap_keeps r x w new k o ∙ m) ]
  ]

  rewrap-Matches_rows :
      (s r : EncryptedRecord Buffer) (w : Buffer) (new : String)
      (xs : List (EncryptedRecord Buffer))
      → All (Matches s) xs
      → All (Matches r) xs
      → opens new w ≡ opens old r.dek_wrapped
      → All (Matches s) (map (rewrap r.id w new) xs)
  rewrap-Matches_rows s r w new [] h k o = tt
  rewrap-Matches_rows s r w new (x ∷ xs) h k o =
      (rewrap-Matches s r x w new h.0 k.0 o, rewrap-Matches_rows s r w new xs h.1 k.1 o)

  pub Scanned : List (EncryptedRecord Buffer) → List (EncryptedRecord Buffer) → Type 0
  Scanned rs xs = All (λ r. All (Matches r) xs) rs

  rewrap-Scanned :
      (rs : List (EncryptedRecord Buffer)) (r : EncryptedRecord Buffer) (w : Buffer) (new : String)
      (xs : List (EncryptedRecord Buffer))
      → Scanned rs xs
      → All (Matches r) xs
      → opens new w ≡ opens old r.dek_wrapped
      → Scanned rs (map (rewrap r.id w new) xs)
  unfolding Scanned
  rewrap-Scanned [] r w new xs h k o = tt
  rewrap-Scanned (s ∷ rs) r w new xs h k o =
      (rewrap-Matches_rows s r w new xs h.0 k o, rewrap-Scanned rs r w new xs h.1 k o)

  module _ (platform : Platform Buffer) (sound : IsSound platform opens) (id new : String) where
    rewrapped-opens :
        (r : EncryptedRecord Buffer) (before after : Database Buffer)
        (w : IsRewrapped platform r old new before after)
        → opens new w.wrapped ≡ opens old r.dek_wrapped
    rewrapped-opens r before after w =
        wrap_dek-opens platform opens (w.call + 1) w.dek new w.wrapped sound w.sealed
        ∙ sym (unwrap_dek-opens platform opens w.call r.dek_wrapped old w.dek sound w.opened)

    rotation-deks :
        (r : EncryptedRecord Buffer) (rs : List (EncryptedRecord Buffer))
        (before after : Database Buffer)
        → Scanned (r ∷ rs) before.fields
        → IsRotation platform r old new before after
        → (map (dek_of opens) after.fields ≡ map (dek_of opens) before.fields)
          × Scanned rs after.fields
    unfolding Scanned
    rotation-deks r rs before after h k = elim k.field [
      | inl p ↦ rw p (refl, h.1)
      | inr w ↦ rw w.written (
        rewrap_keeps_rows r w.wrapped new before.fields h.0 (rewrapped-opens r before after w),
        rewrap-Scanned rs r w.wrapped new before.fields h.1 h.0 (rewrapped-opens r before after w),
      )
    ]

    pub rotate_each-deks :
        (rs : List (EncryptedRecord Buffer)) (db : Database Buffer)
        → Scanned rs db.fields
        → map (dek_of opens) (rotate_each platform id old new rs db).1.fields
          ≡ map (dek_of opens) db.fields
    rotate_each-deks [] db h = rw (rotate_each-empty platform id old new db) refl
    rotate_each-deks (r ∷ rs) db h =
        let step = rotation-deks r rs db _ h (one_record platform id old new r db).rotation in
        rw (rotate_each_step platform id old new r rs db)
          (rotate_each-deks rs (tried platform id old new r db) step.1 ∙ step.0)

  -- The scan gives rows as they are.
  same_self : (s : String) → (s same s) ≡ true
  same_self s = ground (arith, eq_iff s s)

  pub filter-Scanned :
      (ys xs : List (EncryptedRecord Buffer))
      → All (λ r. (r.dek_kek_id same old) ≡ true → All (Matches r) xs) ys
      → Scanned (on_kek old ys) xs
  unfolding Scanned
  filter-Scanned [] xs h = tt
  filter-Scanned (y ∷ ys) xs h = elim (Bool-cases (y.dek_kek_id same old)) [
    | inl e ↦ rw e (h.0 e, filter-Scanned ys xs h.1)
    | inr e ↦ rw e (filter-Scanned ys xs h.1)
  ]

  pub drop-Scanned :
      (n : ℕ) (ys xs : List (EncryptedRecord Buffer)) → Scanned ys xs → Scanned (drop n ys) xs
  unfolding Scanned
  drop-Scanned zero ys xs h = h
  drop-Scanned (suc n) [] xs h = tt
  drop-Scanned (suc n) (y ∷ ys) xs h = drop-Scanned n ys xs h.1

  pub take-Scanned :
      (n : ℕ) (ys xs : List (EncryptedRecord Buffer)) → Scanned ys xs → Scanned (take n ys) xs
  unfolding Scanned
  take-Scanned zero ys xs h = tt
  take-Scanned (suc n) [] xs h = tt
  take-Scanned (suc n) (y ∷ ys) xs h = (h.0, take-Scanned n ys xs h.1)

  self_Matches : (x : EncryptedRecord Buffer) → (x.dek_kek_id same old) ≡ true → Matches x x
  self_Matches x e = inr (ap (λ k. opens k x.dek_wrapped) ((eq_iff x.dek_kek_id old).0 e))

  other_Matches :
      (x : EncryptedRecord Buffer) (xs : List (EncryptedRecord Buffer))
      → All (λ y. (y.id same x.id) ≡ false) xs
      → All (Matches x) xs
  other_Matches x [] h = tt
  other_Matches x (y ∷ ys) h = (inl h.0, other_Matches x ys h.1)

  extend :
      (x : EncryptedRecord Buffer) (xs zs : List (EncryptedRecord Buffer))
      → All (λ y. (y.id same x.id) ≡ false) zs
      → All (λ r. (r.dek_kek_id same old) ≡ true → All (Matches r) xs) zs
      → All (λ r. (r.dek_kek_id same old) ≡ true → All (Matches r) (x ∷ xs)) zs
  extend x xs [] h k = tt
  extend x xs (z ∷ zs) h k = (
    λ e. (inl (ground (arith, h.0, eq_iff z.id x.id, eq_iff x.id z.id)), k.0 e),
    extend x xs zs h.1 k.1,
  )

  pub distinct-Matches :
      (xs : List (EncryptedRecord Buffer))
      → DistinctIds xs
      → All (λ r. (r.dek_kek_id same old) ≡ true → All (Matches r) xs) xs
  distinct-Matches [] h = tt
  distinct-Matches (x ∷ xs) h = (
    λ e. (self_Matches x e, other_Matches x xs h.0),
    extend x xs xs h.0 (distinct-Matches xs h.1),
  )
