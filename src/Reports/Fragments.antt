-- ===== src/Reports/Fragments.antt =====
-- The fragments of a response: nothing is lost, and no fragment is empty or too large.
use mathlib.Core.List.{append_assoc, flatten}
use throttr.Prelude.{
  ℕ, ◌+◌, ◌≤◌, ◌<◌, List, [], ◌∷◌, ◌++◌, true, ◌≡◌, ◌⊎◌, inl, inr, refl, ◌∙◌, ap, arith, length,
  length-append, All, ltb, Bool-cases,
}
use throttr.Reports.{fragments_from}

abbrev pub total {ℓ} : {A : Type ℓ} → (A → ℕ) → List A → ℕ
total f [] = 0
total f (x ∷ xs) = f x + total f xs

pub total-append {ℓ} :
    {A : Type ℓ} (f : A → ℕ) (xs ys : List A) → total f (xs ++ ys) ≡ total f xs + total f ys
total-append f [] ys = omega arith
total-append f (x ∷ xs) ys = omega (arith, total-append f xs ys)

pub All-split {ℓ κ} :
    {A : Type ℓ} (P : A → Type κ) (xs ys : List A) → All P (xs ++ ys) → All P xs × All P ys
All-split P [] ys h = (tt, h)
All-split P (x ∷ xs) ys h = let (a, b) = All-split P xs ys h.1 in ((h.0, a), b)

module _ {A : Type 0} (limit : ℕ) (cost : A → ℕ) where
  flatten-fragments_from :
      (current : List A) (size : ℕ) (xs : List A)
      → flatten (fragments_from limit cost current size xs) ≡ current ++ xs
  unfolding fragments_from flatten
  flatten-fragments_from [] size [] = refl
  flatten-fragments_from (y ∷ ys) size [] = refl
  flatten-fragments_from current size (x ∷ xs) = elim (Bool-cases (ltb limit (size + cost x))) [
    | inl full ↦ rw full (ap (λ t. current ++ t) (flatten-fragments_from (x ∷ []) (cost x) xs))
    | inr room ↦ rw room (
        flatten-fragments_from (current ++ x ∷ []) (size + cost x) xs
        ∙ append_assoc current (x ∷ []) xs)
  ]

  -- A fragment that is sent: not empty, and not larger than the limit.
  abbrev pub IsFragment : List A → Type 0
  IsFragment f = (0 < length f) × (total cost f ≤ limit)

  fragments_from-IsFragment :
      (current : List A) (size : ℕ) (xs : List A)
      → size ≡ total cost current
      → size ≤ limit
      → (current ≡ []) ⊎ (0 < length current)
      → All (λ x. cost x ≤ limit) xs
      → All IsFragment (fragments_from limit cost current size xs)
  unfolding fragments_from
  fragments_from-IsFragment [] size [] e small some_there fits = tt
  fragments_from-IsFragment (y ∷ ys) size [] e small some_there fits =
      ((omega arith, omega (arith, e)), tt)
  fragments_from-IsFragment current size (x ∷ xs) e small some_there fits =
      elim (Bool-cases (ltb limit (size + cost x))) [
        | inl full ↦ rw full (
          (pushed some_there full, omega (arith, e)),
          fragments_from-IsFragment (x ∷ []) (cost x) xs (omega arith) fits.0 (inr (omega arith))
              fits.1,
        )
        | inr room ↦ rw room (
            fragments_from-IsFragment (current ++ x ∷ []) (size + cost x) xs
              (omega (arith, e, total-append cost current (x ∷ []))) (ground arith)
              (inr (omega (arith, length-append current (x ∷ [])))) fits.1)
      ]
    where
      pushed :
          (current ≡ []) ⊎ (0 < length current)
          → ltb limit (size + cost x) ≡ true
          → 0 < length current
      pushed (inl none_there) full = absurd (ground (arith, ap (total cost) none_there, fits.0))
      pushed (inr pos) full = pos

  abbrev pub fragments : List A → List (List A)
  fragments xs = fragments_from limit cost [] 0 xs

  pub flatten-fragments : (xs : List A) → flatten (fragments xs) ≡ xs
  flatten-fragments xs = flatten-fragments_from [] 0 xs

  -- Items that each fit into a fragment are cut into fragments that are not empty and fit.
  pub fragments-IsFragment :
      (xs : List A) → All (λ x. cost x ≤ limit) xs → All IsFragment (fragments xs)
  fragments-IsFragment xs fits =
      fragments_from-IsFragment [] 0 xs refl (omega arith) (inl refl) fits
