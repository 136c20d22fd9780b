-- ===== src/Common/Lists.antt =====
-- Lists measured by native numbers, and predicates over lists by recursion.
use mathlib.Core.Logic.{◌≢◌}
use Prim.Native.Nat.{ℕ, zero, suc, ◌+◌, ◌≤◌}
use mathlib.Core.Path.{◌≡◌, refl, ap, sym, subst}
use mathlib.Core.Logic.{inl, inr}
use mathlib.Core.List.{List, [], ◌∷◌, ◌++◌, map, Sublistᴰ}
use mathlib.Core.Bool.{Bool, true}
use native.Mathlib.Omega.{arith}
use outboxexpress.Common.Tests.{leb, if◌then◌else◌, Bool-cases}

module _ {ℓ} {A : Type ℓ} where
  abbrev pub length : List A → ℕ
  length [] = 0
  length (x ∷ xs) = suc (length xs)

  pub length-append : (xs ys : List A) → length (xs ++ ys) ≡ length xs + length ys
  length-append [] ys = omega arith
  length-append (x ∷ xs) ys = omega (arith, length-append xs ys)

module _ {ℓ} {A : Type ℓ} where
  abbrev pub take : ℕ → List A → List A
  take zero xs = []
  take (suc n) [] = []
  take (suc n) (x ∷ xs) = x ∷ take n xs

  pub length-take-le : (n : ℕ) (xs : List A) → length (take n xs) ≤ n
  length-take-le zero xs = omega arith
  length-take-le (suc n) [] = omega arith
  length-take-le (suc n) (x ∷ xs) = omega (arith, length-take-le n xs)

  pub take_all : (n : ℕ) (xs : List A) → length xs ≤ n → take n xs ≡ xs
  take_all zero [] h = refl
  take_all zero (x ∷ xs) h = absurd (omega arith)
  take_all (suc n) [] h = refl
  take_all (suc n) (x ∷ xs) h = ap (◌∷◌ x) (take_all n xs (omega arith))

  pub length-map {κ} : {B : Type κ} (f : A → B) (xs : List A) → length (map f xs) ≡ length xs
  length-map f [] = refl
  length-map f (x ∷ xs) = ap suc (length-map f xs)

-- Computes to a tuple, which the tactics read and build.
abbrev pub All {ℓ κ} : {A : Type ℓ} → (A → Type κ) → List A → Type κ
All P [] = Unit
All P (x ∷ xs) = P x × All P xs

pub All-append {ℓ κ} :
    {A : Type ℓ} (P : A → Type κ) (front back : List A)
    → All P back
    → All P front
    → All P (front ++ back)
All-append P [] back later h = later
All-append P (x ∷ front) back later (here, h) = (here, All-append P front back later h)

pub All-imp {ℓ κ} :
    {A : Type ℓ} (P Q : A → Type κ) → ((a : A) → P a → Q a) → (xs : List A) → All P xs → All Q xs
All-imp P Q f [] h = tt
All-imp P Q f (x ∷ xs) h = (f x h.0, All-imp P Q f xs h.1)

-- Every pair of two positions, the earlier one first.
abbrev pub Pairs {ℓ κ} : {A : Type ℓ} → (A → A → Type κ) → List A → Type κ
Pairs R [] = Unit
Pairs R (x ∷ xs) = All (R x) xs × Pairs R xs

module _ {ℓ} {A : Type ℓ} where
  -- By a Boolean test.
  abbrev pub filter : (A → Bool) → List A → List A
  filter p [] = []
  filter p (x ∷ xs) = if p x then x ∷ filter p xs else filter p xs

  pub length-filter-le : (p : A → Bool) (xs : List A) → length (filter p xs) ≤ length xs
  length-filter-le p [] = omega arith
  length-filter-le p (x ∷ xs) = ground (arith, length-filter-le p xs)

  -- How many elements pass the test.
  abbrev pub count_if : (A → Bool) → List A → ℕ
  count_if p [] = 0
  count_if p (x ∷ xs) = if p x then suc (count_if p xs) else count_if p xs

  pub length-filter : (p : A → Bool) (xs : List A) → length (filter p xs) ≡ count_if p xs
  length-filter p [] = refl
  length-filter p (x ∷ xs) = ground (arith, length-filter p xs)

  pub filter-All : (p : A → Bool) (xs : List A) → All (λ x. p x ≡ true) (filter p xs)
  filter-All p [] = tt
  filter-All p (x ∷ xs) = elim (Bool-cases (p x)) [
    | inl e ↦ rw e (e, filter-All p xs)
    | inr e ↦ rw e (filter-All p xs)
  ]

  pub filter-keeps {κ} :
      (P : A → Type κ) (p : A → Bool) (xs : List A) → All P xs → All P (filter p xs)
  filter-keeps P p [] h = tt
  filter-keeps P p (x ∷ xs) h = elim (Bool-cases (p x)) [
    | inl e ↦ rw e (h.0, filter-keeps P p xs h.1)
    | inr e ↦ rw e (filter-keeps P p xs h.1)
  ]

  pub filter-Pairs {κ} :
      (R : A → A → Type κ) (p : A → Bool) (xs : List A) → Pairs R xs → Pairs R (filter p xs)
  filter-Pairs R p [] h = tt
  filter-Pairs R p (x ∷ xs) h = elim (Bool-cases (p x)) [
    | inl e ↦ rw e (filter-keeps (R x) p xs h.0, filter-Pairs R p xs h.1)
    | inr e ↦ rw e (filter-Pairs R p xs h.1)
  ]

-- ORDER BY a number: insertion sort, which keeps the order of equal keys.
module _ {ℓ} {A : Type ℓ} (key : A → ℕ) where
  unfoldable pub insert_by : A → List A → List A
  insert_by x [] = x ∷ []
  insert_by x (y ∷ ys) = if leb (key x) (key y) then x ∷ y ∷ ys else y ∷ insert_by x ys

  unfoldable pub sort_by : List A → List A
  unfolding insert_by
  sort_by [] = []
  sort_by (x ∷ xs) = insert_by x (sort_by xs)

  pub insert_by-All {κ} :
      (P : A → Type κ) (x : A) (ys : List A) → P x → All P ys → All P (insert_by x ys)
  unfolding insert_by
  insert_by-All P x [] h hs = (h, tt)
  insert_by-All P x (y ∷ ys) h hs = elim (Bool-cases (leb (key x) (key y))) [
    | inl e ↦ rw e (h, hs)
    | inr e ↦ rw e (hs.0, insert_by-All P x ys h hs.1)
  ]

  pub sort_by-All {κ} : (P : A → Type κ) (xs : List A) → All P xs → All P (sort_by xs)
  unfolding sort_by
  sort_by-All P [] h = tt
  sort_by-All P (x ∷ xs) h = insert_by-All P x (sort_by xs) h.0 (sort_by-All P xs h.1)

  pub insert_by-Pairs :
      (x : A) (ys : List A)
      → Pairs (λ a b. key a ≤ key b) ys
      → Pairs (λ a b. key a ≤ key b) (insert_by x ys)
  unfolding insert_by
  insert_by-Pairs x [] h = (tt, tt)
  insert_by-Pairs x (y ∷ ys) h = elim (Bool-cases (leb (key x) (key y))) [
    | inl e ↦ rw e (
      (
        ground arith,
        All-imp (λ b. key y ≤ key b) (λ b. key x ≤ key b) (λ b k. ground arith) ys h.0,
      ),
      h,
    )
    | inr e ↦
        rw e (insert_by-All (λ b. key y ≤ key b) x ys (ground arith) h.0, insert_by-Pairs x ys h.1)
  ]

  pub sort_by-Pairs : (xs : List A) → Pairs (λ a b. key a ≤ key b) (sort_by xs)
  unfolding sort_by
  sort_by-Pairs [] = tt
  sort_by-Pairs (x ∷ xs) = insert_by-Pairs x (sort_by xs) (sort_by-Pairs xs)

  insert_by-Pairs_symm {κ} :
      (R : A → A → Type κ) (symm : (a b : A) → R a b → R b a) (x : A) (ys : List A)
      → All (R x) ys
      → Pairs R ys
      → Pairs R (insert_by x ys)
  unfolding insert_by
  insert_by-Pairs_symm R symm x [] h hs = (tt, tt)
  insert_by-Pairs_symm R symm x (y ∷ ys) h hs = elim (Bool-cases (leb (key x) (key y))) [
    | inl e ↦ rw e (h, hs)
    | inr e ↦
        rw e
          (insert_by-All (R y) x ys (symm x y h.0) hs.0, insert_by-Pairs_symm R symm x ys h.1 hs.1)
  ]

  -- What holds of every two elements holds of them in the new order, when it is symmetric.
  pub sort_by-Pairs_symm {κ} :
      (R : A → A → Type κ) (symm : (a b : A) → R a b → R b a) (xs : List A)
      → Pairs R xs
      → Pairs R (sort_by xs)
  unfolding sort_by
  sort_by-Pairs_symm R symm [] h = tt
  sort_by-Pairs_symm R symm (x ∷ xs) h =
      insert_by-Pairs_symm R symm x (sort_by xs) (sort_by-All (R x) xs h.0)
        (sort_by-Pairs_symm R symm xs h.1)

  -- Distinct keys in ascending order are in strict order.
  pub strict_order :
      (xs : List A)
      → Pairs (λ a b. key a ≤ key b) xs
      → Pairs (λ a b. key a ≢ key b) xs
      → Pairs (λ a b. suc (key a) ≤ key b) xs
  strict_order [] h k = tt
  strict_order (x ∷ xs) h k = (go xs h.0 k.0, strict_order xs h.1 k.1)
    where
      go :
          (ys : List A)
          → All (λ b. key x ≤ key b) ys
          → All (λ b. key x ≢ key b) ys
          → All (λ b. suc (key x) ≤ key b) ys
      go [] h k = tt
      go (y ∷ ys) h k = (omega (arith, h.0, k.0), go ys h.1 k.1)

  -- A list that is in strict order already is left alone.
  pub sort_by_sorted : (xs : List A) → Pairs (λ a b. suc (key a) ≤ key b) xs → sort_by xs ≡ xs
  unfolding sort_by
  sort_by_sorted [] h = refl
  sort_by_sorted (x ∷ []) h = refl
  sort_by_sorted (x ∷ y ∷ ys) h = rw (sort_by_sorted (y ∷ ys) h.1) (ground arith)

module _ {ℓ} {A : Type ℓ} where
  pub Sublist-All {κ} : (P : A → Type κ) {xs ys : List A} → Sublistᴰ xs ys → All P ys → All P xs
  Sublist-All P Sublistᴰ.slnil h = tt
  Sublist-All P (Sublistᴰ.cons s) h = Sublist-All P s h.1
  Sublist-All P (Sublistᴰ.cons-cons e s) h = (subst P (sym e) h.0, Sublist-All P s h.1)

  pub Sublist-Pairs {κ} :
      (R : A → A → Type κ) {xs ys : List A} → Sublistᴰ xs ys → Pairs R ys → Pairs R xs
  Sublist-Pairs R Sublistᴰ.slnil h = tt
  Sublist-Pairs R (Sublistᴰ.cons s) h = Sublist-Pairs R s h.1
  Sublist-Pairs R (Sublistᴰ.cons-cons {l₁ = xs} e s) h =
      (subst (λ a. All (R a) xs) (sym e) (Sublist-All (R _) s h.0), Sublist-Pairs R s h.1)

  pub All-map {κ μ} :
      {B : Type κ} (P : B → Type μ) (f : A → B) (xs : List A)
      → All (λ x. P (f x)) xs
      → All P (map f xs)
  All-map P f [] h = tt
  All-map P f (x ∷ xs) h = (h.0, All-map P f xs h.1)

  pub Pairs-map {κ μ} :
      {B : Type κ} (R : B → B → Type μ) (f : A → B) (xs : List A)
      → Pairs (λ x y. R (f x) (f y)) xs
      → Pairs R (map f xs)
  Pairs-map R f [] h = tt
  Pairs-map R f (x ∷ xs) h = (All-map (R (f x)) f xs h.0, Pairs-map R f xs h.1)

  pub Pairs-append {κ} :
      (R : A → A → Type κ) (xs : List A) (y : A)
      → Pairs R xs
      → All (λ x. R x y) xs
      → Pairs R (xs ++ y ∷ [])
  Pairs-append R [] y h k = (tt, tt)
  Pairs-append R (x ∷ xs) y h k =
      (All-append (R x) xs (y ∷ []) (k.0, tt) h.0, Pairs-append R xs y h.1 k.1)
