-- ===== src/Messages/Table.antt =====
-- Tables that a constructor fills with a callback for each request type.
use throttr.Prelude.{
  ℕ, zero, suc, ◌<◌, ◌≤◌, List, [], ◌∷◌, none, some, Bool, true, false, ◌==◌, ◌||◌, ◌≡◌, ◌⊎◌, inl,
  inr, refl, ◌∙◌, ap, arith, length, length-replicate, set as put, replicate, if◌then◌else◌,
  Bool-cases,
}
use throttr.Protocol.{RequestTypes, insert}
use throttr.Messages.{slot, install, request_types}

-- What the protocol library's codes must be: different bytes, within the tables.
pub record IsCoding (code : RequestTypes → ℕ) : Type 0 where
  pub injective : (s t : RequestTypes) → code s ≡ code t → s ≡ t
  pub small : (t : RequestTypes) → code t < 32

abbrev listed : (RequestTypes → ℕ) → ℕ → List RequestTypes → Bool
listed code n [] = false
listed code n (t ∷ ts) = code t == n || listed code n ts

module _ {ℓ} {A : Type ℓ} where
  slot-put :
      (table : List A) (i j : ℕ) (a : A)
      → i < length table
      → slot (put table i a) j ≡ (if i == j then some a else slot table j)
  slot-put [] i j a h = absurd (omega arith)
  slot-put (x ∷ table) zero zero a h = ground arith
  slot-put (x ∷ table) zero (suc j) a h = ground arith
  slot-put (x ∷ table) (suc i) zero a h = ground arith
  slot-put (x ∷ table) (suc i) (suc j) a h = ground (arith, slot-put table i j a)

  length-put : (table : List A) (i : ℕ) (a : A) → length (put table i a) ≡ length table
  length-put [] i a = refl
  length-put (x ∷ table) zero a = refl
  length-put (x ∷ table) (suc i) a = ap suc (length-put table i a)

  slot-replicate : (n i : ℕ) (a : A) → i < n → slot (replicate n a) i ≡ some a
  slot-replicate zero i a h = absurd (omega arith)
  slot-replicate (suc n) zero a h = refl
  slot-replicate (suc n) (suc i) a h = slot-replicate n i a (omega arith)

  pub slot_past : (table : List A) (i : ℕ) → length table ≤ i → slot table i ≡ none
  slot_past [] i h = refl
  slot_past (x ∷ table) zero h = absurd (omega arith)
  slot_past (x ∷ table) (suc i) h = slot_past table i (omega arith)

  pub length-install :
      (code : RequestTypes → ℕ) (callback : RequestTypes → A) (ts : List RequestTypes)
      (table : List A)
      → length (install code callback ts table) ≡ length table
  unfolding install
  length-install code callback [] table = refl
  length-install code callback (t ∷ ts) table =
      length-install code callback ts (put table (code t) (callback t))
      ∙ length-put table (code t) (callback t)

  module _ (code : RequestTypes → ℕ) (coding : IsCoding code) (callback : RequestTypes → A) where
    slot-install-unlisted :
        (n : ℕ) (ts : List RequestTypes) (table : List A)
        → 32 ≤ length table
        → listed code n ts ≡ false
        → slot (install code callback ts table) n ≡ slot table n
    unfolding install
    slot-install-unlisted n [] table h k = refl
    slot-install-unlisted n (t ∷ ts) table h k = ground (
      arith,
      slot-install-unlisted n ts (put table (code t) (callback t)),
      length-put table (code t) (callback t),
      slot-put table (code t) n (callback t),
      coding.small t,
    )

    slot-install-listed :
        (t : RequestTypes) (ts : List RequestTypes) (table : List A)
        → 32 ≤ length table
        → (listed code (code t) ts ≡ true) ⊎ (slot table (code t) ≡ some (callback t))
        → slot (install code callback ts table) (code t) ≡ some (callback t)
    unfolding install
    slot-install-listed t [] table h k = ground arith
    slot-install-listed t (s ∷ ts) table h k =
        slot-install-listed t ts (put table (code s) (callback s))
          (omega (arith, length-put table (code s) (callback s), h))
          (elim (Bool-cases (code s == code t)) [
            | inl same ↦ inr (
                slot-put table (code s) (code t) (callback s) (omega (arith, coding.small s))
                ∙ rw same (
                    ap (λ (x : RequestTypes). some (callback x))
                      (coding.injective s t (ground arith))))
            | inr other ↦ elim k [
              | inl later ↦ inl (ground arith)
              | inr now ↦ inr (
                  slot-put table (code s) (code t) (callback s) (omega (arith, coding.small s))
                  ∙ rw other now)
            ]
          ])

listed-request_types :
    (code : RequestTypes → ℕ) (t : RequestTypes) → listed code (code t) request_types ≡ true
listed-request_types code insert = ground arith
listed-request_types code _ = ground arith

-- The codes of the request types.
abbrev pub is_code : (RequestTypes → ℕ) → ℕ → Bool
is_code code n = listed code n request_types

-- A table of 32 slots or more that a constructor has filled holds at the code of a type its callback, and
-- in every other slot what it was filled with first.
pub slot-install {ℓ} :
    {A : Type ℓ} (code : RequestTypes → ℕ) (callback : RequestTypes → A) (filler : A) (slots : ℕ)
    → 32 ≤ slots
    → IsCoding code
    → let table = install code callback request_types (replicate slots filler) in
      ((t : RequestTypes) → slot table (code t) ≡ some (callback t))
      × ((n : ℕ) → n < slots → is_code code n ≡ false → slot table n ≡ some filler)
slot-install {A = A} code callback filler slots enough coding = (
  λ t.
      slot-install-listed code coding callback t request_types (replicate slots filler)
        (omega (arith, enough, length-replicate {A = A} slots filler))
        (inl (listed-request_types code t)),
  λ n h other.
      slot-install-unlisted code coding callback n request_types (replicate slots filler)
        (omega (arith, enough, length-replicate {A = A} slots filler)) other
      ∙ slot-replicate slots n filler h,
)

listed_type :
    (code : RequestTypes → ℕ) (n : ℕ) (ts : List RequestTypes)
    → listed code n ts ≡ true
    → (t : RequestTypes) × (code t ≡ n)
listed_type code n [] h = absurd (cc)
listed_type code n (t ∷ ts) h = elim (Bool-cases (code t == n)) [
  | inl same ↦ (t, ground arith)
  | inr other ↦ listed_type code n ts (ground arith)
]

pub type_of_code :
    (code : RequestTypes → ℕ) (n : ℕ) → is_code code n ≡ true → (t : RequestTypes) × (code t ≡ n)
type_of_code code n h = listed_type code n request_types h
