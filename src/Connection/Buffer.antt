-- ===== src/Connection/Buffer.antt =====
-- The buffer as a window on the stream: what each operation does to the bytes in it.
use throttr.Prelude.{
  ℕ, zero, suc, ◌+◌, ◌-◌, ◌/◌, ◌≤◌, List, [], ◌∷◌, ◌++◌, ◌≡◌, ◌≢◌, refl, sym, ◌∙◌, ap, arith,
  length, take, drop, ◌==◌, ltb, Bool-cases, inl, inr, length-take, length-drop, length-append,
  take-length, drop-append_le,
}
use throttr.Connection.{
  Connection, max_length, span, compact_buffer, compact_buffer_if_needed, do_read, received, room,
}

module _ {ℓ} {A : Type ℓ} where
  take-nil : (n : ℕ) → take {A = A} n [] ≡ []
  take-nil zero = refl
  take-nil (suc n) = refl

  drop-nil : (n : ℕ) → drop {A = A} n [] ≡ []
  drop-nil zero = refl
  drop-nil (suc n) = refl

  take_eq : (m n : ℕ) (xs : List A) → m ≡ n → take m xs ≡ take n xs
  take_eq m n xs e = ap (λ (k : ℕ). take k xs) e

  drop_eq : (m n : ℕ) (xs : List A) → m ≡ n → drop m xs ≡ drop n xs
  drop_eq m n xs e = ap (λ (k : ℕ). drop k xs) e

  drop-take : (n m : ℕ) (xs : List A) → drop n (take m xs) ≡ take (m - n) (drop n xs)
  drop-take zero m xs = take_eq m (m - 0) xs (omega arith)
  drop-take (suc n) zero xs = sym (take_eq (0 - suc n) 0 (drop (suc n) xs) (omega arith))
  drop-take (suc n) (suc m) [] = sym (take-nil (suc m - suc n))
  drop-take (suc n) (suc m) (x ∷ xs) =
      drop-take n m xs ∙ take_eq (m - n) (suc m - suc n) (drop n xs) (omega arith)

  drop-drop : (n m : ℕ) (xs : List A) → drop n (drop m xs) ≡ drop (m + n) xs
  drop-drop n zero xs = drop_eq n (0 + n) xs (omega arith)
  drop-drop n (suc m) [] = drop-nil n ∙ sym (drop-nil (suc m + n))
  drop-drop n (suc m) (x ∷ xs) =
      drop-drop n m xs ∙ drop_eq (suc (m + n)) (suc m + n) (x ∷ xs) (omega arith)

  take-append_add : (n : ℕ) (xs ys : List A) → take (length xs + n) (xs ++ ys) ≡ xs ++ take n ys
  take-append_add n [] ys = take_eq (0 + n) n ys (omega arith)
  take-append_add n (x ∷ xs) ys =
      take_eq (suc (length xs) + n) (suc (length xs + n)) (x ∷ (xs ++ ys)) (omega arith)
      ∙ ap (◌∷◌ x) (take-append_add n xs ys)

  -- A window that is written to where it ends.
  drop-write :
      (s e : ℕ) (xs ys : List A)
      → s ≤ e
      → e ≤ length xs
      → drop s (take e xs ++ ys) ≡ take (e - s) (drop s xs) ++ ys
  drop-write s e xs ys h k =
      drop-append_le s (take e xs) ys (omega (arith, length-take e xs))
      ∙ ap (λ (zs : List A). zs ++ ys) (drop-take s e xs)

-- The buffer is the array, and the two marks lie in order within it.
pub record IsWindow (c : Connection) : Type 0 where
  pub whole : length c.buffer ≡ max_length
  pub ordered : c.buffer_start ≤ c.buffer_end
  pub within : c.buffer_end ≤ max_length

pub length-span : (c : Connection) → IsWindow c → length (span c) ≡ c.buffer_end - c.buffer_start
unfolding span
length-span c w = omega (
  arith,
  length-take (c.buffer_end - c.buffer_start) (drop c.buffer_start c.buffer),
  length-drop c.buffer_start c.buffer,
)

-- Cutting bytes off the front.
pub span-advance :
    (c : Connection) (n : ℕ)
    → span (record c { buffer_start = c.buffer_start + n }) ≡ drop n (span c)
unfolding span
span-advance c n =
    take_eq (c.buffer_end - (c.buffer_start + n)) (c.buffer_end - c.buffer_start - n)
      (drop (c.buffer_start + n) c.buffer) (omega arith)
    ∙ ap (take (c.buffer_end - c.buffer_start - n)) (sym (drop-drop n c.buffer_start c.buffer))
    ∙ sym (drop-take n (c.buffer_end - c.buffer_start) (drop c.buffer_start c.buffer))

-- Bytes that arrive stand behind those that are there.
pub span-received :
    (c : Connection) (chunk : List ℕ)
    → IsWindow c
    → let c' = received c chunk in
      span (record c' { buffer_end = c'.buffer_end + length chunk }) ≡ span c ++ chunk
unfolding span received
span-received c chunk w =
    let before : List ℕ = span c in
    let after : List ℕ = drop (c.buffer_end + length chunk) c.buffer in
    ap (take (c.buffer_end + length chunk - c.buffer_start)) (
      drop-write c.buffer_start c.buffer_end c.buffer (chunk ++ after) w.ordered
        (omega (arith, w.within, w.whole)))
    ∙ take_eq (c.buffer_end + length chunk - c.buffer_start) (length before + length chunk)
        (before ++ (chunk ++ after)) (omega (arith, length-span c w, w.ordered))
    ∙ take-append_add (length chunk) before (chunk ++ after)
    ∙ ap (◌++◌ before) (take-length chunk after)

pub received-IsWindow :
    (c : Connection) (chunk : List ℕ)
    → IsWindow c
    → length chunk ≤ room c
    → let c' = received c chunk in
      IsWindow (record c' { buffer_end = c'.buffer_end + length chunk })
unfolding received
received-IsWindow c chunk w fits = record {
  whole = omega (
    arith,
    length-append (take c.buffer_end c.buffer)
        (chunk ++ drop (c.buffer_end + length chunk) c.buffer),
    length-append chunk (drop (c.buffer_end + length chunk) c.buffer),
    length-take c.buffer_end c.buffer,
    length-drop (c.buffer_end + length chunk) c.buffer,
    w.whole,
    w.within,
  );
  ordered = omega (arith, w.ordered);
  within = omega (arith, w.within);
}

span_front :
    (xs ys : List ℕ) (n : ℕ)
    → length xs ≡ n
    → span (record { buffer = xs ++ ys; buffer_start = 0; buffer_end = n }) ≡ xs
unfolding span
span_front xs ys n h = take_eq (n - 0) (length xs) (xs ++ ys) (omega arith) ∙ take-length xs ys

-- Compacting moves the bytes and keeps them.
pub span-compact_buffer : (c : Connection) → IsWindow c → span (compact_buffer c) ≡ span c
unfolding compact_buffer
span-compact_buffer c w = elim (Bool-cases (c.buffer_start == c.buffer_end)) [
  | inl e ↦ rw e
  | inr e ↦ rw e (
      span_front (span c) (drop (c.buffer_end - c.buffer_start) c.buffer)
        (c.buffer_end - c.buffer_start) (length-span c w))
]

pub compact_buffer-IsWindow : (c : Connection) → IsWindow c → IsWindow (compact_buffer c)
unfolding compact_buffer
compact_buffer-IsWindow c w = elim (Bool-cases (c.buffer_start == c.buffer_end)) [
  | inl e ↦ rw e w
  | inr e ↦ rw e (record { whole = kept; ordered = omega arith; within = omega (arith, w.within) })
]
  where
    kept : length (span c ++ drop (c.buffer_end - c.buffer_start) c.buffer) ≡ max_length
    kept = omega (
      arith,
      length-append (span c) (drop (c.buffer_end - c.buffer_start) c.buffer),
      length-span c w,
      length-drop (c.buffer_end - c.buffer_start) c.buffer,
      w.whole,
      w.within,
      w.ordered,
    )

-- After compacting the bytes stand at the front, unless there are none.
pub compact_buffer_start :
    (c : Connection) → c.buffer_start ≢ c.buffer_end → (compact_buffer c).buffer_start ≡ 0
unfolding compact_buffer
compact_buffer_start c h = ground arith

span_empty : (c : Connection) → c.buffer_start ≡ c.buffer_end → span c ≡ []
unfolding span
span_empty c e =
    take_eq (c.buffer_end - c.buffer_start) 0 (drop c.buffer_start c.buffer) (omega arith)

pub span-compact_buffer_if_needed :
    (c : Connection) → IsWindow c → span (compact_buffer_if_needed c) ≡ span c
unfolding compact_buffer_if_needed
span-compact_buffer_if_needed c w = elim (Bool-cases (c.buffer_start == c.buffer_end)) [
  | inl e ↦ rw e (
      span_empty (record c { buffer_start = 0; buffer_end = 0 }) refl
      ∙ sym (span_empty c (ground arith)))
  | inr e ↦ rw e (elim (Bool-cases (ltb (max_length / 2) c.buffer_start)) [
    | inl far ↦ rw far (span-compact_buffer c w)
    | inr near ↦ rw near
  ])
]

pub compact_buffer_if_needed-IsWindow :
    (c : Connection) → IsWindow c → IsWindow (compact_buffer_if_needed c)
unfolding compact_buffer_if_needed
compact_buffer_if_needed-IsWindow c w = elim (Bool-cases (c.buffer_start == c.buffer_end)) [
  | inl e ↦ rw e (record { whole = w.whole; ordered = omega arith; within = omega arith })
  | inr e ↦ rw e (elim (Bool-cases (ltb (max_length / 2) c.buffer_start)) [
    | inl far ↦ rw far (compact_buffer-IsWindow c w)
    | inr near ↦ rw near w
  ])
]

pub span-do_read : (c : Connection) → IsWindow c → span (do_read c) ≡ span c
unfolding do_read
span-do_read c w = elim (Bool-cases (c.buffer_end == max_length)) [
  | inl e ↦ rw e (span-compact_buffer c w)
  | inr e ↦ rw e
]

pub do_read-IsWindow : (c : Connection) → IsWindow c → IsWindow (do_read c)
unfolding do_read
do_read-IsWindow c w = elim (Bool-cases (c.buffer_end == max_length)) [
  | inl e ↦ rw e (compact_buffer-IsWindow c w)
  | inr e ↦ rw e w
]
