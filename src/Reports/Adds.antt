-- ===== src/Reports/Adds.antt =====
-- What an operation adds to a response: bytes, segments, and the room that they take.
use mathlib.Core.List.{append_assoc, append-nil, flatten}
use throttr.Prelude.{
  ℕ, ◌+◌, List, [], ◌∷◌, ◌++◌, ◌≡◌, refl, sym, ◌∙◌, ap, arith, length, length-append,
}
use throttr.Prelude.Bytes.{le_bytes, length-le_bytes}
use throttr.Reports.{Output, point, put}

-- The second output is the first with more bytes, in so many segments, the offset moved by so much.
pub record Adds (o o' : Output) (bytes : List ℕ) (segments advance : ℕ) : Type 0 where
  pub shows : flatten o'.batch ≡ flatten o.batch ++ bytes
  pub segments_eq : length o'.batch ≡ length o.batch + segments
  pub offset_eq : o'.offset ≡ o.offset + advance
  pub size_eq : o'.size ≡ o.size
  pub reserved_eq : o'.reserved ≡ o.reserved

flatten-append {ℓ} :
    {A : Type ℓ} (xss yss : List (List A)) → flatten (xss ++ yss) ≡ flatten xss ++ flatten yss
unfolding flatten
flatten-append [] yss = refl
flatten-append (xs ∷ xss) yss =
    ap (λ t. xs ++ t) (flatten-append xss yss) ∙ sym (append_assoc xs (flatten xss) (flatten yss))

flatten-snoc {ℓ} :
    {A : Type ℓ} (xss : List (List A)) (xs : List A) → flatten (xss ++ xs ∷ []) ≡ flatten xss ++ xs
unfolding flatten
flatten-snoc xss xs = flatten-append xss (xs ∷ []) ∙ ap (λ t. flatten xss ++ t) (append-nil xs)

pub none-Adds : (o : Output) {s a : ℕ} → s ≡ 0 → a ≡ 0 → Adds o o [] s a
none-Adds o segs adv = record {
  shows = sym (append-nil (flatten o.batch));
  segments_eq = omega (arith, segs);
  offset_eq = omega (arith, adv);
  size_eq = refl;
  reserved_eq = refl;
}

pub put-Adds : (bytes : List ℕ) (o : Output) → Adds o (put bytes o) bytes 1 (length bytes)
unfolding put
put-Adds bytes o = record {
  shows = flatten-snoc o.batch bytes;
  segments_eq = length-append o.batch (bytes ∷ []);
  offset_eq = refl;
  size_eq = refl;
  reserved_eq = refl;
}

pub put_bytes-Adds : (w v : ℕ) (o : Output) → Adds o (put (le_bytes w v) o) (le_bytes w v) 1 w
unfolding put
put_bytes-Adds w v o = record {
  shows = flatten-snoc o.batch (le_bytes w v);
  segments_eq = length-append o.batch (le_bytes w v ∷ []);
  offset_eq = omega (arith, length-le_bytes w v);
  size_eq = refl;
  reserved_eq = refl;
}

pub point-Adds : (bytes : List ℕ) (o : Output) → Adds o (point bytes o) bytes 1 0
unfolding point
point-Adds bytes o = record {
  shows = flatten-snoc o.batch bytes;
  segments_eq = length-append o.batch (bytes ∷ []);
  offset_eq = omega arith;
  size_eq = refl;
  reserved_eq = refl;
}

-- One output after the other; the sums are given as they are wanted.
pub then_Adds :
    {o o' o'' : Output} {b b' : List ℕ} {s a s' a' : ℕ} {s'' a'' : ℕ}
    → Adds o o' b s a
    → Adds o' o'' b' s' a'
    → s'' ≡ s + s'
    → a'' ≡ a + a'
    → Adds o o'' (b ++ b') s'' a''
then_Adds {o} {b = b} {b' = b'} x y segs adv = record {
  shows = y.shows ∙ ap (λ t. t ++ b') x.shows ∙ append_assoc (flatten o.batch) b b';
  segments_eq = omega (arith, x.segments_eq, y.segments_eq, segs);
  offset_eq = omega (arith, x.offset_eq, y.offset_eq, adv);
  size_eq = y.size_eq ∙ x.size_eq;
  reserved_eq = y.reserved_eq ∙ x.reserved_eq;
}
