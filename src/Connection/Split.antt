-- ===== src/Connection/Split.antt =====
-- The stream as a sequence of messages, without a buffer: the specification of the read side.
use mathlib.Core.List.{append_assoc, flatten}
use throttr.Prelude.{
  ℕ, zero, suc, ◌+◌, ◌≤◌, ◌<◌, List, [], ◌∷◌, ◌++◌, true, false, Option, none, some, ◌≡◌, refl, sym,
  ◌∙◌, ap, arith, length, take, drop, ◌==◌, ◌||◌, ltb, if◌then◌else◌, Bool-cases, Option-cases, inl,
  inr, length-drop, length-append, take-append-drop, ◌≢◌, take-append_le, drop-append_le,
}
use throttr.Connection.{Stop, waits, fault, no_fuel}

pub record Split : Type 0 where
  pub messages : List (List ℕ)
  pub rest : List ℕ
  pub stop : Stop

abbrev pub before : List (List ℕ) → Split → Split
before ms s = record s { messages = ms ++ s.messages }

-- What the loop needs of the sizes: a size that is known stays what it is when more bytes come.
pub record IsStable (size : List ℕ → Option ℕ) : Type 0 where
  pub stable : (xs ys : List ℕ) (n : ℕ) → size xs ≡ some n → 0 < n → size (xs ++ ys) ≡ some n

module _ (size : List ℕ → Option ℕ) where
  unfoldable pub split : ℕ → List ℕ → Split
  split zero bs = record { messages = []; rest = bs; stop = no_fuel }
  split (suc fuel) bs = elim (size bs) [
    | none ↦ record { messages = []; rest = bs; stop = fault }
    | some n ↦
        let cut = before (take n bs ∷ []) (split fuel (drop n bs)) in
        if n == 0 || ltb (length bs) n
        then record { messages = []; rest = bs; stop = waits }
        else cut
  ]

  -- The three things that a round can do.
  pub data Case (bs : List ℕ) : Type 0 where
    faults : size bs ≡ none → Case bs
    pauses : (n : ℕ) → size bs ≡ some n → (n == 0 || ltb (length bs) n) ≡ true → Case bs
    cuts :
        (n : ℕ)
        → size bs ≡ some n
        → (n == 0 || ltb (length bs) n) ≡ false
        → 0 < n
        → n ≤ length bs
        → Case bs

  pub cases : (bs : List ℕ) → Case bs
  cases bs = elim (Option-cases (size bs)) [
    | inl e ↦ faults e
    | inr (n, e) ↦ elim (Bool-cases (n == 0 || ltb (length bs) n)) [
      | inl h ↦ pauses n e h
      | inr h ↦ cuts n e h (ground arith) (ground arith)
    ]
  ]

  -- More fuel than bytes is enough, and any such fuel gives the same.
  pub split_fuel : (f g : ℕ) (bs : List ℕ) → length bs < f → length bs < g → split f bs ≡ split g bs
  unfolding split
  split_fuel zero g bs h k = absurd (omega arith)
  split_fuel (suc f) zero bs h k = absurd (omega arith)
  split_fuel (suc f) (suc g) bs h k = elim (cases bs) [
    | faults e ↦ rw (e, split)
    | pauses n e w ↦ rw (e, split) (rw w)
    | cuts n e w pos fits ↦
        rw (e, split)
          (rw w (
            ap (before (take n bs ∷ [])) (
              split_fuel f g (drop n bs) (omega (arith, length-drop n bs))
                (omega (arith, length-drop n bs)))))
  ]

  -- The whole of a sequence of bytes.
  abbrev pub split_all : List ℕ → Split
  split_all bs = split (suc (length bs)) bs

  -- The loop ends by its own tests.
  pub split_ends : (f : ℕ) (bs : List ℕ) → length bs < f → (split f bs).stop ≢ no_fuel
  unfolding split
  split_ends zero bs h = absurd (omega arith)
  split_ends (suc f) bs h = elim (cases bs) [
    | faults e ↦ rw (e, split) (λ p. cc)
    | pauses n e w ↦ rw (e, split) (rw w (λ p. cc))
    | cuts n e w pos fits ↦
        rw (e, split) (rw w (split_ends f (drop n bs) (omega (arith, length-drop n bs))))
  ]

  -- Nothing is lost or made up: the messages and the rest make up the bytes.
  pub flatten-split :
      (f : ℕ) (bs : List ℕ) → flatten (split f bs).messages ++ (split f bs).rest ≡ bs
  unfolding split flatten
  flatten-split zero bs = refl
  flatten-split (suc f) bs = elim (cases bs) [
    | faults e ↦ rw (e, split)
    | pauses n e w ↦ rw (e, split) (rw w)
    | cuts n e w pos fits ↦
        rw (e, split)
          (rw w (
            append_assoc (take n bs) (flatten (split f (drop n bs)).messages)
              (split f (drop n bs)).rest
            ∙ ap (◌++◌ (take n bs)) (flatten-split f (drop n bs))
            ∙ take-append-drop n bs))
  ]

  at_fault :
      (f : ℕ) (bs : List ℕ)
      → size bs ≡ none
      → split (suc f) bs ≡ record { messages = []; rest = bs; stop = fault }
  unfolding split
  at_fault f bs e = rw (e, split)

  pub at_pause :
      (f : ℕ) (bs : List ℕ) (n : ℕ)
      → size bs ≡ some n
      → (n == 0 || ltb (length bs) n) ≡ true
      → split (suc f) bs ≡ record { messages = []; rest = bs; stop = waits }
  unfolding split
  at_pause f bs n e w = rw (e, split) (rw w)

  at_cut :
      (f : ℕ) (bs : List ℕ) (n : ℕ)
      → size bs ≡ some n
      → 0 < n
      → n ≤ length bs
      → split (suc f) bs ≡ before (take n bs ∷ []) (split f (drop n bs))
  unfolding split
  at_cut f bs n e pos fits =
      let more : (n == 0 || ltb (length bs) n) ≡ false = ground arith in rw (e, split) (rw more)

  -- Splitting a prefix first changes nothing, if no message of the prefix is at fault.
  pub split-append :
      IsStable size
      → (f g : ℕ) (xs ys : List ℕ) → length xs < f
      → length xs + length ys < g
      → (split f xs).stop ≡ waits
      → split g (xs ++ ys) ≡ before (split f xs).messages (split_all ((split f xs).rest ++ ys))
  split-append stable zero g xs ys h k calm = absurd (omega arith)
  split-append stable (suc f) zero xs ys h k calm = absurd (omega arith)
  split-append stable (suc f) (suc g) xs ys h k calm = elim (cases xs) [
    | faults e ↦ absurd (cc (ap (λ (s : Split). s.stop) (at_fault f xs e)))
    | pauses n e w ↦ rw (at_pause f xs n e w) (
        split_fuel (suc g) (suc (length (xs ++ ys))) (xs ++ ys) (omega (arith, length-append xs ys))
          (omega arith))
    | cuts n e w pos fits ↦ rw (at_cut f xs n e pos fits) (
        at_cut g (xs ++ ys) n (stable.stable xs ys n e pos) pos (omega (arith, length-append xs ys))
        ∙ rw (take-append_le n xs ys fits, drop-append_le n xs ys fits)
            (ap (before (take n xs ∷ [])) (
              split-append stable f g (drop n xs) ys (omega (arith, length-drop n xs))
                (omega (arith, length-drop n xs))
                (sym (ap (λ (s : Split). s.stop) (at_cut f xs n e pos fits)) ∙ calm))))
  ]

  -- What the loop leaves is not split any further.
  abbrev pub IsQuiet : List ℕ → Type 0
  IsQuiet bs = split_all bs ≡ record { messages = []; rest = bs; stop = waits }

  pub rest-IsQuiet :
      (f : ℕ) (bs : List ℕ) → length bs < f → (split f bs).stop ≡ waits → IsQuiet (split f bs).rest
  rest-IsQuiet zero bs h calm = absurd (omega arith)
  rest-IsQuiet (suc f) bs h calm = elim (cases bs) [
    | faults e ↦ absurd (cc (ap (λ (s : Split). s.stop) (at_fault f bs e)))
    | pauses n e w ↦ rw (at_pause f bs n e w) (at_pause (length bs) bs n e w)
    | cuts n e w pos fits ↦ rw (at_cut f bs n e pos fits) (
        rest-IsQuiet f (drop n bs) (omega (arith, length-drop n bs))
          (sym (ap (λ (s : Split). s.stop) (at_cut f bs n e pos fits)) ∙ calm))
  ]
