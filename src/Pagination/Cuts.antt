-- ===== src/Pagination/Cuts.antt =====
-- How a page cuts a list: its first elements, the last of them, and those that are left.
use remitlend.Base.{
  ℕ, zero, suc, ◌≤◌, ◌<◌, ◌≡◌, refl, sym, ap, ◌∙◌, some, List, [], ◌∷◌, ◌++◌, length, take, arith,
}
use remitlend.Pagination.{last?}

module _ {A : Type 0} where
  abbrev pub drop_first : ℕ → List A → List A
  drop_first zero xs = xs
  drop_first (suc _) [] = []
  drop_first (suc n) (_ ∷ xs) = drop_first n xs

  pub take_short : (n : ℕ) (xs : List A) → length xs ≤ n → take n xs ≡ xs
  take_short zero [] h = refl
  take_short zero (x ∷ xs) h = absurd (omega (arith, h))
  take_short (suc n) [] h = refl
  take_short (suc n) (x ∷ xs) h = ap (λ ys. x ∷ ys) (take_short n xs (omega (arith, h)))

  pub take-take-suc : (n : ℕ) (xs : List A) → take n (take (suc n) xs) ≡ take n xs
  take-take-suc zero xs = refl
  take-take-suc (suc n) [] = refl
  take-take-suc (suc n) (x ∷ xs) = ap (λ ys. x ∷ ys) (take-take-suc n xs)

  pub length-take_long : (n : ℕ) (xs : List A) → n ≤ length xs → length (take n xs) ≡ n
  length-take_long zero xs h = refl
  length-take_long (suc n) [] h = absurd (omega (arith, h))
  length-take_long (suc n) (x ∷ xs) h = ap suc (length-take_long n xs (omega (arith, h)))

  pub take-drop_first : (n : ℕ) (xs : List A) → take n xs ++ drop_first n xs ≡ xs
  take-drop_first zero xs = refl
  take-drop_first (suc n) [] = refl
  take-drop_first (suc n) (x ∷ xs) = ap (λ ys. x ∷ ys) (take-drop_first n xs)

  pub length-drop_lt :
      (n : ℕ) (xs : List A) → n < length xs → length (drop_first (suc n) xs) < length xs
  length-drop_lt n [] h = absurd (omega (arith, h))
  length-drop_lt zero (x ∷ xs) h = omega arith
  length-drop_lt (suc n) (x ∷ xs) h = omega (arith, length-drop_lt n xs (omega (arith, h)))

  last-append : (xs : List A) (b : A) → last? (xs ++ b ∷ []) ≡ some b
  last-append [] b = refl
  last-append (x ∷ []) b = refl
  last-append (x ∷ y ∷ xs) b = last-append (y ∷ xs) b

  pub append_assoc : (xs ys zs : List A) → (xs ++ ys) ++ zs ≡ xs ++ (ys ++ zs)
  append_assoc [] ys zs = refl
  append_assoc (x ∷ xs) ys zs = ap (λ ws. x ∷ ws) (append_assoc xs ys zs)

  -- The last element of a page, and where it stands.
  pub record IsCut (n : ℕ) (xs : List A) : Type 0 where
    pub front : List A
    pub last : A
    pub is_last : last? (take (suc n) xs) ≡ some last
    pub whole : xs ≡ front ++ last ∷ drop_first (suc n) xs

  pub cut : (n : ℕ) (xs : List A) → n < length xs → IsCut n xs
  cut n [] h = absurd (omega (arith, h))
  cut zero (x ∷ xs) h = record { front = []; last = x; is_last = refl; whole = refl }
  cut (suc n) (x ∷ []) h = absurd (omega (arith, h))
  cut (suc n) (x ∷ y ∷ xs) h =
      let rest = cut n (y ∷ xs) (omega (arith, h)) in
      record {
        front = x ∷ rest.front;
        last = rest.last;
        is_last = rest.is_last;
        whole = ap (λ ys. x ∷ ys) rest.whole;
      }

  pub append_front :
      (fr gr rest : List A) (b : A) (ys zs : List A)
      → ys ≡ fr ++ zs
      → zs ≡ gr ++ b ∷ rest
      → ys ≡ (fr ++ gr) ++ b ∷ rest
  append_front fr gr rest b ys zs h k =
      h ∙ ap (λ ws. fr ++ ws) k ∙ sym (append_assoc fr gr (b ∷ rest))
