-- ===== src/Pagination/Walk.antt =====
-- Walking the pages of `getRemittances` in backend/src/controllers/remittanceController.ts, while rows are
-- added to the table.
use mathlib.Core.Path.{subst}
use remitlend.Base.{
  ℕ, suc, ◌+◌, ◌%◌, ◌≤◌, ◌<◌, ◌≡◌, refl, sym, ap, ◌∙◌, ◌⊎◌, inl, inr, Bool, true, false, Bool-cases,
  ◌&&◌, Option, none, some, List, [], ◌∷◌, ◌++◌, filter, length, take, All, arith, ltb, ltb→lt,
  lt→ltb,
}
use remitlend.Pagination.Cuts.{
  drop_first, take_short, take-take-suc, length-take_long, take-drop_first, length-drop_lt, IsCut,
  cut, append_front, append_assoc,
}
use remitlend.Pagination.{
  Row, DecodedCursor, cursor_of, is_past, in_snapshot, last?, next_cursor, query_rows, page_of,
  get_page,
}

module _ {A : Type 0} where
  -- The order of the query, the newest first.
  abbrev pub Before : Row A → Row A → Type 0
  Before x y =
      (y.created_at_us < x.created_at_us) ⊎ ((y.created_at_us ≡ x.created_at_us) × (y.seq < x.seq))

  abbrev pub Ordered : List (Row A) → Type 0
  Ordered [] = Unit
  Ordered (x ∷ xs) = All (Before x) xs × Ordered xs

  -- A time of whole milliseconds.
  abbrev pub IsWhole : Row A → Type 0
  IsWhole r = r.created_at_us % 1000 ≡ 0

  filter_and :
      (p q : Row A → Bool) (xs : List (Row A))
      → filter (λ r. p r && q r) xs ≡ filter q (filter p xs)
  filter_and p q [] = refl
  filter_and p q (x ∷ xs) = ground (arith, filter_and p q xs)

  past-after : (b y : Row A) → IsWhole b → Before b y → is_past (some (cursor_of b)) y ≡ true
  past-after b y w (inl h) = ground (arith, w, h)
  past-after b y w (inr h) = ground (arith, w, h.0, h.1)

  past_self : (b : Row A) → IsWhole b → is_past (some (cursor_of b)) b ≡ false
  past_self b w = ground (arith, w)

  past-Before : (b x : Row A) → IsWhole b → Before x b → is_past (some (cursor_of b)) x ≡ false
  past-Before b x w (inl h) = ground (arith, w, h)
  past-Before b x w (inr h) = ground (arith, w, h.0, h.1)

  past-rest :
      (b : Row A) (ys : List (Row A))
      → IsWhole b
      → All (Before b) ys
      → filter (is_past (some (cursor_of b))) ys ≡ ys
  past-rest b [] w h = refl
  past-rest b (y ∷ ys) w h = rw (past-after b y w h.0) (ap (λ zs. y ∷ zs) (past-rest b ys w h.1))

  All-at : (P : Row A → Type 0) (fr rest : List (Row A)) (b : Row A) → All P (fr ++ b ∷ rest) → P b
  All-at P [] rest b h = h.0
  All-at P (x ∷ fr) rest b h = All-at P fr rest b h.1

  -- The rows past a row's cursor are those that stand after it.
  past-split :
      (fr rest : List (Row A)) (b : Row A)
      → Ordered (fr ++ b ∷ rest)
      → IsWhole b
      → filter (is_past (some (cursor_of b))) (fr ++ b ∷ rest) ≡ rest
  past-split [] rest b h w = rw (past_self b w) (past-rest b rest w h.0)
  past-split (x ∷ fr) rest b h w =
      rw (past-Before b x w (All-at (Before x) fr rest b h.0)) (past-split fr rest b h.1 w)

  -- A page, and what its cursor leads to.
  abbrev pub follow :
      List (Row A) × Option DecodedCursor → (DecodedCursor → List (Row A)) → List (Row A)
  follow (rows, none) next = rows
  follow (rows, some c) next = rows ++ next c

  -- The pages of one request after another, each on the table as it then is, until no cursor is left.
  unfoldable pub walk :
      (Row A → Bool) → ℕ → ℕ → Option DecodedCursor → List (List (Row A)) → List (Row A)
  walk selected limit snapshot_seq cursor [] = []
  walk selected limit snapshot_seq cursor (table ∷ tables) =
      follow (get_page selected limit snapshot_seq cursor table)
        (λ c. walk selected limit snapshot_seq (some c) tables)

  page_of-last :
      (limit : ℕ) (zs : List (Row A))
      → length zs ≤ limit
      → page_of limit (take (limit + 1) zs) ≡ (zs, none)
  unfolding page_of
  page_of-last limit zs h =
      ap (page_of limit) (take_short (limit + 1) zs (omega (arith, h))) ∙ ground (arith, h)

  page_of-full :
      (limit : ℕ) (xs : List (Row A))
      → limit < length xs
      → page_of limit xs ≡ (take limit xs, next_cursor (last? (take limit xs)))
  unfolding page_of
  page_of-full limit xs h = rw (lt→ltb limit (length xs) h, page_of) refl

  page_of-more :
      (n : ℕ) (zs : List (Row A)) (c : IsCut n zs)
      → suc n < length zs
      → page_of (suc n) (take (suc n + 1) zs) ≡ (take (suc n) zs, some (cursor_of c.last))
  page_of-more n zs c h =
      let one_more : suc n + 1 ≡ suc (suc n) = omega arith in
      page_of-full (suc n) (take (suc n + 1) zs)
        (omega (arith, length-take_long (suc n + 1) zs (omega (arith, h))))
      ∙ ap (λ us. (us, next_cursor (last? us)))
          (ap (λ m. take (suc n) (take m zs)) one_more ∙ take-take-suc (suc n) zs)
      ∙ ap (λ o. (take (suc n) zs, next_cursor o)) c.is_last

  module _ (selected : Row A → Bool) (n snapshot_seq : ℕ) where
    walk-last :
        (cursor : Option DecodedCursor) (t : List (Row A)) (ts : List (List (Row A)))
        (rows : List (Row A))
        → get_page selected (suc n) snapshot_seq cursor t ≡ (rows, none)
        → walk selected (suc n) snapshot_seq cursor (t ∷ ts) ≡ rows
    unfolding walk
    walk-last cursor t ts rows h =
        ap (λ p. follow p (λ c. walk selected (suc n) snapshot_seq (some c) ts)) h

    walk-more :
        (cursor : Option DecodedCursor) (t : List (Row A)) (ts : List (List (Row A)))
        (rows : List (Row A)) (c : DecodedCursor)
        → get_page selected (suc n) snapshot_seq cursor t ≡ (rows, some c)
        → walk selected (suc n) snapshot_seq cursor (t ∷ ts)
          ≡ rows ++ walk selected (suc n) snapshot_seq (some c) ts
    unfolding walk
    walk-more cursor t ts rows c h =
        ap (λ p. follow p (λ d. walk selected (suc n) snapshot_seq (some d) ts)) h

    -- A page depends on the snapshot only.
    page-snapshot :
        (cursor : Option DecodedCursor) (t ys zs : List (Row A))
        → filter (in_snapshot selected snapshot_seq) t ≡ ys
        → filter (is_past cursor) ys ≡ zs
        → get_page selected (suc n) snapshot_seq cursor t ≡ page_of (suc n) (take (suc n + 1) zs)
    unfolding get_page query_rows
    page-snapshot cursor t ys zs h k =
        ap (λ us. page_of (suc n) (take (suc n + 1) us))
          (filter_and (in_snapshot selected snapshot_seq) (is_past cursor) t
            ∙ ap (filter (is_past cursor)) h
            ∙ k)

    walk-rest :
        (ys : List (Row A)) (tables : List (List (Row A))) (cursor : Option DecodedCursor)
        (fr zs : List (Row A))
        → Ordered ys
        → All IsWhole ys
        → All (λ t. filter (in_snapshot selected snapshot_seq) t ≡ ys) tables
        → ys ≡ fr ++ zs
        → filter (is_past cursor) ys ≡ zs
        → length zs ≤ length tables
        → walk selected (suc n) snapshot_seq cursor tables ≡ zs
    unfolding walk
    walk-rest ys [] cursor fr [] ordered whole same split past enough = refl
    walk-rest ys [] cursor fr (z ∷ zs) ordered whole same split past enough =
        absurd (omega (arith, enough))
    walk-rest ys (t ∷ ts) cursor fr zs ordered whole same split past enough =
        let page = page-snapshot cursor t ys zs same.0 past in
        elim (Bool-cases (ltb (suc n) (length zs))) [
          | inr e ↦ walk-last cursor t ts zs (page ∙ page_of-last (suc n) zs (ground (arith, e)))
          | inl e ↦
              let long = ltb→lt (suc n) (length zs) e in
              let c = cut n zs (omega (arith, long)) in
              let rest = drop_first (suc n) zs in
              let parts = append_front fr c.front rest c.last ys zs split c.whole in
              let later : filter (is_past (some (cursor_of c.last))) ys ≡ rest =
                ap (filter (is_past (some (cursor_of c.last)))) parts
                ∙ past-split (fr ++ c.front) rest c.last (subst Ordered parts ordered) (
                    All-at IsWhole (fr ++ c.front) rest c.last (subst (All IsWhole) parts whole)) in
              walk-more cursor t ts (take (suc n) zs) (cursor_of c.last)
                (page ∙ page_of-more n zs c long)
              ∙ ap (λ us. take (suc n) zs ++ us)
                  (walk-rest ys ts (some (cursor_of c.last)) (fr ++ take (suc n) zs) rest ordered
                    whole same.1
                    (split
                      ∙ ap (λ us. fr ++ us) (sym (take-drop_first (suc n) zs))
                      ∙ sym (append_assoc fr (take (suc n) zs) rest))
                    later (omega (arith, enough, length-drop_lt n zs (omega (arith, long)))))
              ∙ take-drop_first (suc n) zs
        ]

    filter_all : (ys : List (Row A)) → filter (is_past none) ys ≡ ys
    filter_all [] = refl
    filter_all (y ∷ ys) = ap (λ zs. y ∷ zs) (filter_all ys)

    -- Where times are whole milliseconds, the pages of a snapshot are the snapshot: asked for one after
    -- another with a limit of at least one, on tables that may change in other rows, and as often as the
    -- snapshot has rows at most, they give every row of it once, in order.
    pub walk_is_snapshot :
        (ys : List (Row A)) (tables : List (List (Row A)))
        → Ordered ys
        → All IsWhole ys
        → All (λ t. filter (in_snapshot selected snapshot_seq) t ≡ ys) tables
        → length ys ≤ length tables
        → walk selected (suc n) snapshot_seq none tables ≡ ys
    walk_is_snapshot ys tables ordered whole same enough =
        walk-rest ys tables none [] ys ordered whole same refl (filter_all ys) enough
