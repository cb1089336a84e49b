-- ===== src/Prelude/Lists.antt =====
-- Lists measured by native numbers and tested by Boolean functions, as the source tests them.
use Prim.Native.Nat.{ℕ, suc, ◌+◌, ◌≤◌}
use Prim.Native.String.{String}
use mathlib.Core.Path.{◌≡◌, refl}
use mathlib.Core.Logic.{◌⊎◌, inl, inr, ◌≢◌}
use mathlib.Core.Bool.{Bool, true, false, ◌&&◌, ◌||◌}
use mathlib.Core.Option.{Option, none, some}
use mathlib.Core.List.{List, [], ◌∷◌, ◌++◌, map}
use native.Mathlib.Omega.{arith}
use open_tiger.Prelude.Tests.{◌==◌, ◌===◌, if◌then◌else◌, ===→eq, Bool-cases}

module _ {ℓ} {A : Type ℓ} where
  abbrev pub length : List A → ℕ
  length [] = 0
  length (x ∷ xs) = suc (length xs)

  pub length-append : (xs ys : List A) → length (xs ++ ys) ≡ length xs + length ys
  length-append [] ys = omega arith
  length-append (x ∷ xs) ys = omega (arith, length-append xs ys)

  abbrev pub is_empty : List A → Bool
  is_empty [] = true
  is_empty (x ∷ xs) = false

  -- `list.filter(test)`
  abbrev pub filterb : (A → Bool) → List A → List A
  filterb p [] = []
  filterb p (x ∷ xs) = if p x then x ∷ filterb p xs else filterb p xs

  -- `list.some(test)`
  abbrev pub any : (A → Bool) → List A → Bool
  any p [] = false
  any p (x ∷ xs) = p x || any p xs

  -- `list.every(test)`
  abbrev pub all : (A → Bool) → List A → Bool
  all p [] = true
  all p (x ∷ xs) = p x && all p xs

  -- `list.find(test)`
  abbrev pub find_first : (A → Bool) → List A → Option A
  find_first p [] = none
  find_first p (x ∷ xs) = if p x then some x else find_first p xs

  abbrev pub count_if : (A → Bool) → List A → ℕ
  count_if p [] = 0
  count_if p (x ∷ xs) = (if p x then 1 else 0) + count_if p xs

  pub count_if-append :
      (p : A → Bool) (xs ys : List A) → count_if p (xs ++ ys) ≡ count_if p xs + count_if p ys
  count_if-append p [] ys = omega arith
  count_if-append p (x ∷ xs) ys = omega (arith, count_if-append p xs ys)

  pub count_if-le-length : (p : A → Bool) (xs : List A) → count_if p xs ≤ length xs
  count_if-le-length p [] = omega arith
  count_if-le-length p (x ∷ xs) = ground (arith, count_if-le-length p xs)

  -- Where an element stands in a list.
  pub data Within (a : A) : List A → Type ℓ where
    here : {xs : List A} → Within a (a ∷ xs)
    there : {x : A} {xs : List A} → Within a xs → Within a (x ∷ xs)

  abbrev pub All {κ} : (A → Type κ) → List A → Type κ
  All P [] = Unit
  All P (x ∷ xs) = P x × All P xs

  pub All-append {κ} : (P : A → Type κ) (xs ys : List A) → All P xs → All P ys → All P (xs ++ ys)
  All-append P [] ys hx hy = hy
  All-append P (x ∷ xs) ys hx hy = (hx.0, All-append P xs ys hx.1 hy)

  pub All-Within {κ} : (P : A → Type κ) {a : A} {xs : List A} → All P xs → Within a xs → P a
  All-Within P h here = h.0
  All-Within P h (there w) = All-Within P h.1 w

-- Membership tests, `set.has(x)` and `list.includes(x)`.
abbrev pub has_id : List ℕ → ℕ → Bool
has_id [] x = false
has_id (y ∷ ys) x = (x == y) || has_id ys x

abbrev pub has_text : List String → String → Bool
has_text [] x = false
has_text (y ∷ ys) x = (x === y) || has_text ys x

abbrev pub DistinctIds : List ℕ → Type 0
DistinctIds [] = Unit {0}
DistinctIds (x ∷ xs) = (has_id xs x ≡ false) × DistinctIds xs

abbrev pub DistinctTexts : List String → Type 0
DistinctTexts [] = Unit {0}
DistinctTexts (x ∷ xs) = (has_text xs x ≡ false) × DistinctTexts xs

has_id-snoc :
    (xs : List ℕ) (x y : ℕ)
    → has_id xs x ≡ false
    → (x == y) ≡ false
    → has_id (xs ++ y ∷ []) x ≡ false
has_id-snoc [] x y h e = ground arith
has_id-snoc (z ∷ xs) x y h e = ground (arith, has_id-snoc xs x y)

pub DistinctIds-snoc :
    (xs : List ℕ) (y : ℕ) → DistinctIds xs → has_id xs y ≡ false → DistinctIds (xs ++ y ∷ [])
DistinctIds-snoc [] y d h = (refl, tt)
DistinctIds-snoc (x ∷ xs) y d h =
    (has_id-snoc xs x y d.0 (ground arith), DistinctIds-snoc xs y d.1 (ground arith))

pub ===_sym : (a b : String) → (a === b) ≡ false → (b === a) ≡ false
===_sym a b h = elim (Bool-cases (b === a)) [
  | inl e ↦ let p = ===→eq b a e in ground arith
  | inr e ↦ e
]

pub has_text-snoc :
    (xs : List String) (x y : String)
    → has_text xs x ≡ false
    → (x === y) ≡ false
    → has_text (xs ++ y ∷ []) x ≡ false
has_text-snoc [] x y h e = ground arith
has_text-snoc (z ∷ xs) x y h e = ground (arith, has_text-snoc xs x y)

pub DistinctTexts-snoc :
    (xs : List String) (y : String)
    → DistinctTexts xs
    → has_text xs y ≡ false
    → DistinctTexts (xs ++ y ∷ [])
DistinctTexts-snoc [] y d h = (refl, tt)
DistinctTexts-snoc (x ∷ xs) y d h = (
  has_text-snoc xs x y d.0 (===_sym y x (ground arith)),
  DistinctTexts-snoc xs y d.1 (ground arith),
)

pub is_empty→eq {ℓ} : {A : Type ℓ} (xs : List A) → is_empty xs ≡ true → xs ≡ []
is_empty→eq [] h = refl
is_empty→eq (x ∷ xs) h = cc

pub List-cases {ℓ} : {A : Type ℓ} (xs : List A) → (xs ≡ []) ⊎ (xs ≢ [])
List-cases [] = inl refl
List-cases (x ∷ xs) = inr (λ e. cc)

pub cons-cases {ℓ} : {A : Type ℓ} (xs : List A) → xs ≢ [] → (y : A) × (ys : List A) × (xs ≡ y ∷ ys)
cons-cases [] h = absurd (h refl)
cons-cases (y ∷ ys) h = (y, ys, refl)

pub ne-nil→is_empty {ℓ} : {A : Type ℓ} (xs : List A) → xs ≢ [] → is_empty xs ≡ false
ne-nil→is_empty [] h = absurd (h refl)
ne-nil→is_empty (x ∷ xs) h = refl

pub Within-ne-nil {ℓ} : {A : Type ℓ} {x : A} {xs : List A} → Within x xs → xs ≢ []
Within-ne-nil here e = cc
Within-ne-nil (there w) e = cc

pub All-imp {ℓ κ μ} :
    {A : Type ℓ} {P : A → Type κ} {Q : A → Type μ}
    → ((x : A) → P x → Q x)
    → (xs : List A) → All P xs
    → All Q xs
All-imp f [] h = tt
All-imp f (x ∷ xs) h = (f x h.0, All-imp f xs h.1)

pub All-self {ℓ} :
    {A : Type ℓ} (xs whole : List A)
    → ((x : A) → Within x xs → Within x whole)
    → All (λ x. Within x whole) xs
All-self [] whole inside = tt
All-self (x ∷ xs) whole inside = (inside x here, All-self xs whole (λ y w. inside y (there w)))

pub any-append {ℓ} :
    {A : Type ℓ} (p : A → Bool) (xs ys : List A) → any p (xs ++ ys) ≡ (any p xs || any p ys)
any-append p [] ys = refl
any-append p (x ∷ xs) ys = ground (arith, any-append p xs ys)

pub any-congr {ℓ} :
    {A : Type ℓ} (p q : A → Bool) (xs : List A) → ((x : A) → p x ≡ q x) → any p xs ≡ any q xs
any-congr p q [] same = refl
any-congr p q (x ∷ xs) same = ground (arith, same x, any-congr p q xs same)

pub All-filterb {ℓ κ} :
    {A : Type ℓ} {P : A → Type κ} (p : A → Bool) (xs : List A)
    → ((x : A) → Within x xs → p x ≡ true → P x)
    → All P (filterb p xs)
All-filterb p [] f = tt
All-filterb p (y ∷ ys) f =
    let rest = All-filterb p ys (λ x w h. f x (there w) h) in
    elim (Bool-cases (p y)) [ inl kept ↦ rw kept (f y here kept, rest) | inr out ↦ rw out rest ]

pub All-map {ℓ κ μ} :
    {A : Type ℓ} {B : Type κ} (P : B → Type μ) (f : A → B) (xs : List A)
    → All (λ x. P (f x)) xs
    → All P (map f xs)
All-map P f [] h = tt
All-map P f (x ∷ xs) h = (h.0, All-map P f xs h.1)

-- What stands in a filtered list stands in the list and passes the filter.
pub Within-filterb {ℓ} :
    {A : Type ℓ} (p : A → Bool) {x : A} (xs : List A)
    → Within x (filterb p xs)
    → Within x xs × (p x ≡ true)
Within-filterb p {x} xs w =
    let whole = All-filterb {P = λ y. Within y xs × (p y ≡ true)} p xs (λ y v h. (v, h)) in
    All-Within (λ y. Within y xs × (p y ≡ true)) whole w
