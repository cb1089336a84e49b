-- ===== src/Store/Updates.antt =====
-- Sequences of statements as one pass over a table.
use open_tiger.Prelude.{
  if◌then◌else◌, Bool-cases, length, filterb, any, Within, here, there, ◌+◌, ◌≤◌, ◌≡◌, refl, ap,
  ap₂, inl, inr, Bool, false, ◌||◌, List, [], ◌∷◌, arith,
}
use open_tiger.Store.{update_where, delete_where}

module _ {ℓ} {A : Type ℓ} where
  -- Two passes in a row are one.
  pub update-update :
      (p q r : A → Bool) (f g h : A → A)
      → ((x : A)
          → (if q (if p x then f x else x)
              then g (if p x then f x else x)
              else (if p x then f x else x))
            ≡ (if r x then h x else x))
      → (xs : List A) → update_where q g (update_where p f xs) ≡ update_where r h xs
  update-update p q r f g h same [] = refl
  update-update p q r f g h same (x ∷ xs) = ap₂ ◌∷◌ (same x) (update-update p q r f g h same xs)

  pub update_none :
      (p : A → Bool) (f : A → A)
      → ((x : A) → p x ≡ false)
      → (xs : List A) → update_where p f xs ≡ xs
  update_none p f no_match [] = refl
  update_none p f no_match (x ∷ xs) = ap₂ ◌∷◌ (rw (no_match x)) (update_none p f no_match xs)

  pub delete-delete :
      (p q r : A → Bool)
      → ((x : A) → (p x || q x) ≡ r x)
      → (xs : List A) → delete_where q (delete_where p xs) ≡ delete_where r xs
  delete-delete p q r same [] = refl
  delete-delete p q r same (x ∷ xs) = ground (arith, same x, delete-delete p q r same xs)

  -- After a delete no row matches.
  pub any-delete : (p : A → Bool) (xs : List A) → any p (delete_where p xs) ≡ false
  any-delete p [] = refl
  any-delete p (x ∷ xs) = ground (arith, any-delete p xs)

  pub length-delete :
      (p : A → Bool) (xs : List A) → length (delete_where p xs) + length (filterb p xs) ≡ length xs
  length-delete p [] = omega arith
  length-delete p (x ∷ xs) = ground (arith, length-delete p xs)

  pub any-delete-le :
      (p q : A → Bool) (xs : List A) → any p xs ≡ false → any p (delete_where q xs) ≡ false
  any-delete-le p q [] h = refl
  any-delete-le p q (x ∷ xs) h = ground (arith, any-delete-le p q xs)

  pub delete_of_filter_nil :
      (p : A → Bool) (xs : List A) → filterb p xs ≡ [] → delete_where p xs ≡ xs
  delete_of_filter_nil p [] h = refl
  delete_of_filter_nil p (x ∷ xs) h = elim (Bool-cases (p x)) [
    | inl e ↦ let bad = rw e at h in absurd (cc)
    | inr e ↦ rw e (ap (◌∷◌ x) (delete_of_filter_nil p xs (rw e at h)))
  ]

  -- Passes that agree on the rows of the table agree.
  pub delete-congr :
      (p q : A → Bool) (xs : List A)
      → ((x : A) → Within x xs → p x ≡ q x)
      → delete_where p xs ≡ delete_where q xs
  delete-congr p q [] same = refl
  delete-congr p q (x ∷ xs) same =
      ground (arith, same x here, delete-congr p q xs (λ y w. same y (there w)))

  pub length-delete-le : (p : A → Bool) (xs : List A) → length (delete_where p xs) ≤ length xs
  length-delete-le p [] = omega arith
  length-delete-le p (x ∷ xs) = ground (arith, length-delete-le p xs)

  pub delete_none : (p : A → Bool) (xs : List A) → ((x : A) → p x ≡ false) → delete_where p xs ≡ xs
  delete_none p [] no_match = refl
  delete_none p (x ∷ xs) no_match = rw (no_match x) (ap (◌∷◌ x) (delete_none p xs no_match))

  pub update-congr :
      (p q : A → Bool) (f : A → A) (xs : List A)
      → ((x : A) → p x ≡ q x)
      → update_where p f xs ≡ update_where q f xs
  update-congr p q f [] same = refl
  update-congr p q f (x ∷ xs) same = ap₂ ◌∷◌ (rw (same x)) (update-congr p q f xs same)
