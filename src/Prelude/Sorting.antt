-- ===== src/Prelude/Sorting.antt =====
-- sort.Slice by a numeric key, as insertion sort. The program sorts values that are equal where
-- their keys are, so the order that Go leaves open among equal keys makes no difference.
use mathlib.Core.List.Perm
use Prim.Native.Nat.{ℕ, zero, suc, ◌≤◌}
use mathlib.Core.Path.{◌≡◌, refl, ap, ◌∙◌}
use mathlib.Core.Bool.{Bool, true, false}
use mathlib.Core.Logic.{inl, inr}
use mathlib.Core.List.{List, [], ◌∷◌, Perm, map}
use native.Mathlib.Omega.{arith}
use task_discovery_service.Prelude.Tests.{leb, leb→le, if◌then◌else◌, Bool-cases}
use task_discovery_service.Prelude.Lists.{All, length, any, take, drop}

module _ {ℓ} {A : Type ℓ} (key : A → ℕ) where
  abbrev pub insert_by : A → List A → List A
  insert_by x [] = x ∷ []
  insert_by x (y ∷ ys) =
      let rest = insert_by x ys in if leb (key x) (key y) then x ∷ y ∷ ys else y ∷ rest

  abbrev pub sort_by : List A → List A
  sort_by [] = []
  sort_by (x ∷ xs) = insert_by x (sort_by xs)

  -- The keys never fall.
  abbrev pub Sorted : List A → Type 0
  Sorted [] = Unit
  Sorted (x ∷ xs) = All (λ y. key x ≤ key y) xs × Sorted xs

  module _ {κ} (P : A → Type κ) where
    All-insert_by : (x : A) (ys : List A) → P x → All P ys → All P (insert_by x ys)
    All-insert_by x [] p h = (p, tt)
    All-insert_by x (y ∷ ys) p h = elim (Bool-cases (leb (key x) (key y))) [
      | inl e ↦ rw e (p, h)
      | inr e ↦ rw e (h.0, All-insert_by x ys p h.1)
    ]

    pub All-sort_by : (xs : List A) → All P xs → All P (sort_by xs)
    All-sort_by [] h = tt
    All-sort_by (x ∷ xs) h = All-insert_by x (sort_by xs) h.0 (All-sort_by xs h.1)

    All_of_insert_step :
        (b : Bool) (x y : A) (ys zs : List A)
        → (All P zs → P x × All P ys)
        → All P (if b then x ∷ y ∷ ys else y ∷ zs)
        → P x × All P (y ∷ ys)
    All_of_insert_step true x y ys zs later (p, h) = (p, h)
    All_of_insert_step false x y ys zs later (p, h) = let (q, k) = later h in (q, (p, k))

    All_of_insert_by : (x : A) (ys : List A) → All P (insert_by x ys) → P x × All P ys
    All_of_insert_by x [] h = (h.0, tt)
    All_of_insert_by x (y ∷ ys) h =
        All_of_insert_step (leb (key x) (key y)) x y ys (insert_by x ys) (All_of_insert_by x ys) h

    pub All_of_sort_by : (xs : List A) → All P (sort_by xs) → All P xs
    All_of_sort_by [] h = tt
    All_of_sort_by (x ∷ xs) h =
        let (p, rest) = All_of_insert_by x (sort_by xs) h in (p, All_of_sort_by xs rest)

  All-le : (a b : ℕ) (ys : List A) → a ≤ b → All (λ y. b ≤ key y) ys → All (λ y. a ≤ key y) ys
  All-le a b [] h k = tt
  All-le a b (y ∷ ys) h k = (omega arith, All-le a b ys h k.1)

  insert_by-Sorted : (x : A) (ys : List A) → Sorted ys → Sorted (insert_by x ys)
  insert_by-Sorted x [] h = (tt, tt)
  insert_by-Sorted x (y ∷ ys) h = elim (Bool-cases (leb (key x) (key y))) [
    | inl e ↦ let le = leb→le (key x) (key y) e in rw e ((le, All-le (key x) (key y) ys le h.0), h)
    | inr e ↦
        rw e (All-insert_by (λ z. key y ≤ key z) x ys (ground arith) h.0, insert_by-Sorted x ys h.1)
  ]

  pub sort_by-Sorted : (xs : List A) → Sorted (sort_by xs)
  sort_by-Sorted [] = tt
  sort_by-Sorted (x ∷ xs) = insert_by-Sorted x (sort_by xs) (sort_by-Sorted xs)

  insert_by-perm : (x : A) (ys : List A) → Perm (insert_by x ys) (x ∷ ys)
  insert_by-perm x [] = Perm.rfl
  insert_by-perm x (y ∷ ys) = elim (Bool-cases (leb (key x) (key y))) [
    | inl e ↦ rw e Perm.rfl
    | inr e ↦ rw e (Perm.trans (Perm.cons y (insert_by-perm x ys)) (Perm.swap x y ys))
  ]

  pub sort_by-perm : (xs : List A) → Perm (sort_by xs) xs
  sort_by-perm [] = Perm.rfl
  sort_by-perm (x ∷ xs) = Perm.trans (insert_by-perm x (sort_by xs)) (Perm.cons x (sort_by-perm xs))

  length-insert_by : (x : A) (ys : List A) → length (insert_by x ys) ≡ suc (length ys)
  length-insert_by x [] = refl
  length-insert_by x (y ∷ ys) = ground (arith, length-insert_by x ys)

  pub length-sort_by : (xs : List A) → length (sort_by xs) ≡ length xs
  length-sort_by [] = refl
  length-sort_by (x ∷ xs) = omega (arith, length-insert_by x (sort_by xs), length-sort_by xs)

  any-insert_by :
      (p : A → Bool) (x : A) (ys : List A)
      → any p (insert_by x ys) ≡ (if p x then true else any p ys)
  any-insert_by p x [] = refl
  any-insert_by p x (y ∷ ys) = ground (arith, any-insert_by p x ys)

  -- Sorting keeps what stands in the list.
  pub any-sort_by : (p : A → Bool) (xs : List A) → any p (sort_by xs) ≡ any p xs
  any-sort_by p [] = refl
  any-sort_by p (x ∷ xs) =
      any-insert_by p x (sort_by xs) ∙ ap (λ b. if p x then true else b) (any-sort_by p xs)

  pub All-take : (P : A → Type 0) (k : ℕ) (xs : List A) → All P xs → All P (take k xs)
  All-take P zero xs h = tt
  All-take P (suc k) [] h = tt
  All-take P (suc k) (x ∷ xs) h = (h.0, All-take P k xs h.1)

  All-drop : (P : A → Type 0) (k : ℕ) (xs : List A) → All P xs → All P (drop k xs)
  All-drop P zero xs h = h
  All-drop P (suc k) [] h = tt
  All-drop P (suc k) (x ∷ xs) h = All-drop P k xs h.1

  -- In a sorted list, what is taken lies before what is left.
  pub take-le-drop :
      (k : ℕ) (xs : List A)
      → Sorted xs
      → All (λ x. All (λ y. key x ≤ key y) (drop k xs)) (take k xs)
  take-le-drop zero xs h = tt
  take-le-drop (suc k) [] h = tt
  take-le-drop (suc k) (x ∷ xs) h = (All-drop (λ y. key x ≤ key y) k xs h.0, take-le-drop k xs h.1)

module _ {ℓ κ} {A : Type ℓ} {B : Type κ} (f : A → B) (key : B → ℕ) where
  insert_by-map :
      (x : A) (ys : List A)
      → insert_by key (f x) (map f ys) ≡ map f (insert_by (λ a. key (f a)) x ys)
  insert_by-map x [] = refl
  insert_by-map x (y ∷ ys) = elim (Bool-cases (leb (key (f x)) (key (f y)))) [
    | inl e ↦ rw e refl
    | inr e ↦ rw e (ap (◌∷◌ (f y)) (insert_by-map x ys))
  ]

  -- To sort what a function gives is to sort its arguments by the key of what it gives.
  pub sort_by-map : (xs : List A) → sort_by key (map f xs) ≡ map f (sort_by (λ a. key (f a)) xs)
  sort_by-map [] = refl
  sort_by-map (x ∷ xs) =
      ap (insert_by key (f x)) (sort_by-map xs) ∙ insert_by-map x (sort_by (λ a. key (f a)) xs)
