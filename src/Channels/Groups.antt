-- ===== src/Channels/Groups.antt =====
-- The channels of an index: every subscription is in one, and the room that they take.
use mathlib.Core.Path.{subst}
use throttr.Prelude.{
  ℕ, ◌+◌, ◌*◌, ◌≤◌, List, [], ◌∷◌, ◌++◌, ◌≡◌, inl, inr, refl, ◌∙◌, ap, arith, length, bytes_eq,
  Bool-cases, ◌≢◌, All, sym, bytes_eq_iff,
}
use throttr.Entry.{Key}
use throttr.Subscriptions.{Subscription}
use throttr.Channels.{Channel, extend, channels_of, channels_size}

-- The subscriptions of channels.
abbrev pub members : List Channel → List Subscription
members [] = []
members (g ∷ gs) = g.subscriptions ++ members gs

members-extend : (x : Subscription) (gs : List Channel) → members (extend x gs) ≡ x ∷ members gs
members-extend x [] = refl
members-extend x (g ∷ gs) = elim (Bool-cases (bytes_eq x.channel g.name)) [
  | inl same ↦ rw same refl
  | inr other ↦ rw other refl
]

pub members-channels_of : (xs : List Subscription) → members (channels_of xs) ≡ xs
unfolding channels_of
members-channels_of [] = refl
members-channels_of (x ∷ xs) =
    members-extend x (channels_of xs) ∙ ap (◌∷◌ x) (members-channels_of xs)

-- A channel has a subscription, and only its own.
abbrev pub HasOwn : Channel → Type 0
HasOwn g = (g.subscriptions ≢ []) × All (λ x. x.channel ≡ g.name) g.subscriptions

-- Channels that are next to each other have different names.
abbrev pub IsApart : List Channel → Type 0
IsApart [] = Unit
IsApart (g ∷ []) = Unit
IsApart (g ∷ h ∷ gs) = (g.name ≢ h.name) × IsApart (h ∷ gs)

extend-HasOwn : (x : Subscription) (gs : List Channel) → All HasOwn gs → All HasOwn (extend x gs)
extend-HasOwn x [] own = ((λ e. cc, (refl, tt)), tt)
extend-HasOwn x (g ∷ gs) own = elim (Bool-cases (bytes_eq x.channel g.name)) [
  | inl same ↦
      let e = (bytes_eq_iff x.channel g.name).0 same in
      rw same ((λ h. cc, (refl, All-own g.subscriptions (sym e) own.0.1)), own.1)
  | inr other ↦ rw other ((λ e. cc, (refl, tt)), own)
]
  where
    All-own :
        (xs : List Subscription) {a b : Key}
        → a ≡ b
        → All (λ y. y.channel ≡ a) xs
        → All (λ y. y.channel ≡ b) xs
    All-own xs e all = subst (λ n. All (λ y. y.channel ≡ n) xs) e all

extend-IsApart : (x : Subscription) (gs : List Channel) → IsApart gs → IsApart (extend x gs)
extend-IsApart x [] apart = tt
extend-IsApart x (g ∷ []) apart = elim (Bool-cases (bytes_eq x.channel g.name)) [
  | inl same ↦ rw same tt
  | inr other ↦ rw other (λ e. ground (arith, bytes_eq_iff x.channel g.name), tt)
]
extend-IsApart x (g ∷ h ∷ gs) apart = elim (Bool-cases (bytes_eq x.channel g.name)) [
  | inl same ↦ rw same (λ e. apart.0 (sym ((bytes_eq_iff x.channel g.name).0 same) ∙ e), apart.1)
  | inr other ↦ rw other (λ e. ground (arith, bytes_eq_iff x.channel g.name), apart)
]

pub channels_of-HasOwn : (xs : List Subscription) → All HasOwn (channels_of xs)
unfolding channels_of
channels_of-HasOwn [] = tt
channels_of-HasOwn (x ∷ xs) = extend-HasOwn x (channels_of xs) (channels_of-HasOwn xs)

pub channels_of-IsApart : (xs : List Subscription) → IsApart (channels_of xs)
unfolding channels_of
channels_of-IsApart [] = tt
channels_of-IsApart (x ∷ xs) = extend-IsApart x (channels_of xs) (channels_of-IsApart xs)

length-extend : (x : Subscription) (gs : List Channel) → length (extend x gs) ≤ length gs + 1
length-extend x [] = omega arith
length-extend x (g ∷ gs) = elim (Bool-cases (bytes_eq x.channel g.name)) [
  | inl same ↦ rw same (omega arith)
  | inr other ↦ rw other (omega arith)
]

pub length-channels_of : (xs : List Subscription) → length (channels_of xs) ≤ length xs
unfolding channels_of
length-channels_of [] = omega arith
length-channels_of (x ∷ xs) = omega (arith, length-channels_of xs, length-extend x (channels_of xs))

pub channels_size-append :
    (xs ys : List Channel) → channels_size (xs ++ ys) ≡ channels_size xs + channels_size ys
unfolding channels_size
channels_size-append [] ys = omega arith
channels_size-append (x ∷ xs) ys = omega (arith, channels_size-append xs ys)

abbrev pub names_size : List Channel → ℕ
names_size [] = 0
names_size (g ∷ gs) = length g.name + names_size gs

pub channels_size_eq : (gs : List Channel) → channels_size gs ≡ length gs * 25 + names_size gs
unfolding channels_size
channels_size_eq [] = omega arith
channels_size_eq (g ∷ gs) = omega (arith, channels_size_eq gs)
