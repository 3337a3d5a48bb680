-- ===== src/KeyRotation/Ids.antt =====
-- The runs of backend/src/services/keyRotationService.ts keep the ids of `pii_encrypted_fields`.
use Prim.Native.String.{String}
use remitlend.Base.{◌≡◌, refl, ap, ◌∙◌, inl, inr, false, List, [], ◌∷◌, map, All, arith}
use remitlend.Base.Assoc.{◌same◌}
use remitlend.KeyRotation.{EncryptedRecord, Database, rewrap}
use remitlend.KeyRotation.Kms.{Platform}
use remitlend.KeyRotation.Execution.{rotate_each}
use remitlend.KeyRotation.Counting.{one_record, tried, rotate_each_step, rotate_each-empty}
use remitlend.KeyRotation.Keeping.{DistinctIds}

module _ {Buffer : Type 0} where
  rewrap-id :
      (id : String) (w : Buffer) (new : String) (x : EncryptedRecord Buffer)
      → (rewrap id w new x).id ≡ x.id
  rewrap-id id w new x = ground arith

  map-rewrap-id :
      (id : String) (w : Buffer) (new : String) (xs : List (EncryptedRecord Buffer))
      → map (λ x. x.id) (map (rewrap id w new) xs) ≡ map (λ x. x.id) xs
  map-rewrap-id id w new [] = refl
  map-rewrap-id id w new (x ∷ xs) = cc (rewrap-id id w new x, map-rewrap-id id w new xs)

  module _ (platform : Platform Buffer) (batch_id old new : String) where
    -- A loop over records keeps the rows' ids.
    pub rotate_each-ids :
        (rs : List (EncryptedRecord Buffer)) (db : Database Buffer)
        → map (λ x. x.id) (rotate_each platform batch_id old new rs db).1.fields
          ≡ map (λ x. x.id) db.fields
    rotate_each-ids [] db = rw (rotate_each-empty platform batch_id old new db) refl
    rotate_each-ids (r ∷ rs) db = rw (rotate_each_step platform batch_id old new r rs db) (
        rotate_each-ids rs (tried platform batch_id old new r db)
        ∙ elim (one_record platform batch_id old new r db).rotation.field [
          | inl p ↦ ap (map (λ x. x.id)) p
          | inr w ↦ ap (map (λ x. x.id)) w.written ∙ map-rewrap-id r.id w.wrapped new db.fields
        ])

  ids_apart :
      (k : String) (xs ys : List (EncryptedRecord Buffer))
      → map (λ x. x.id) xs ≡ map (λ x. x.id) ys
      → All (λ y. (y.id same k) ≡ false) ys
      → All (λ y. (y.id same k) ≡ false) xs
  ids_apart k [] ys e h = tt
  ids_apart k (x ∷ xs) [] e h = absurd (cc)
  ids_apart k (x ∷ xs) (y ∷ ys) e h =
      let same_id : x.id ≡ y.id = cc in (rw same_id (h.0), ids_apart k xs ys (cc) h.1)

  pub DistinctIds-of_ids :
      (xs ys : List (EncryptedRecord Buffer))
      → map (λ x. x.id) xs ≡ map (λ x. x.id) ys
      → DistinctIds ys
      → DistinctIds xs
  DistinctIds-of_ids [] ys e h = tt
  DistinctIds-of_ids (x ∷ xs) [] e h = absurd (cc)
  DistinctIds-of_ids (x ∷ xs) (y ∷ ys) e h =
      let same_id : x.id ≡ y.id = cc in
      (rw same_id (ids_apart y.id xs ys (cc) h.0), DistinctIds-of_ids xs ys (cc) h.1)
