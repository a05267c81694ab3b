-- ===== src/Subscriptions/ListSubscriptions.antt =====
-- A container that meets the laws: a list in the order of insertion, with each index a pass over it.
use throttr.Prelude.{
  List, [], ◌∷◌, ◌++◌, Bool, true, not, ◌||◌, ◌≡◌, refl, ◌∙◌, ap, arith, leb, if◌then◌else◌,
}
use throttr.Subscriptions.{Subscription, SubscriptionContainer, keep, exists, of_channel}

-- Behind all that have no greater connection.
unfoldable pub insert_sorted : Subscription → List Subscription → List Subscription
insert_sorted x [] = x ∷ []
insert_sorted x (y ∷ ys) =
    let rest = insert_sorted x ys in
    if leb y.connection_id x.connection_id then y ∷ rest else x ∷ y ∷ ys

pub exists-insert_sorted :
    (p : Subscription → Bool) (x : Subscription) (ys : List Subscription)
    → exists p (insert_sorted x ys) ≡ (p x || exists p ys)
unfolding exists insert_sorted
exists-insert_sorted p x [] = refl
exists-insert_sorted p x (y ∷ ys) = ground (arith, exists-insert_sorted p x ys)

pub keep-append :
    (p : Subscription → Bool) (xs ys : List Subscription)
    → keep p (xs ++ ys) ≡ keep p xs ++ keep p ys
unfolding keep
keep-append p [] ys = refl
keep-append p (x ∷ xs) ys = ground (arith, keep-append p xs ys)

pub keep_comm :
    (p q : Subscription → Bool) (xs : List Subscription) → keep p (keep q xs) ≡ keep q (keep p xs)
unfolding keep
keep_comm p q [] = refl
keep_comm p q (x ∷ xs) = ground (arith, keep_comm p q xs)

pub keep_idem : (p : Subscription → Bool) (xs : List Subscription) → keep p (keep p xs) ≡ keep p xs
unfolding keep
keep_idem p [] = refl
keep_idem p (x ∷ xs) = ground (arith, keep_idem p xs)

pub keep_one :
    (p : Subscription → Bool) (x : Subscription) → keep p (x ∷ []) ≡ (if p x then x ∷ [] else [])
unfolding keep
keep_one p x = refl

-- The lists of both indexes: the first sorted, the second in the order of insertion.
abbrev pub Lists : Type 0
Lists = List Subscription × List Subscription

unfoldable pub list_subscriptions : SubscriptionContainer Lists
unfolding insert_sorted
list_subscriptions = record {
  by_connection_id = λ s. s.0;
  equal_range = λ s channel. keep (of_channel channel) s.1;
  insert = λ s x. ((insert_sorted x s.0, s.1 ++ x ∷ []), true);
  erase_if = λ s p. (keep (λ x. not (p x)) s.0, keep (λ x. not (p x)) s.1);
  insert_inserts = λ s x. refl;
  exists-by_connection_id = λ s x p. exists-insert_sorted p x s.0;
  equal_range-insert = λ s x channel.
      keep-append (of_channel channel) s.1 (x ∷ [])
      ∙ ap (λ (ys : List Subscription). keep (of_channel channel) s.1 ++ ys)
          (keep_one (of_channel channel) x);
  by_connection_id-erase_if = λ s p. refl;
  equal_range-erase_if = λ s p channel. keep_comm (of_channel channel) (λ x. not (p x)) s.1;
  equal_range-of_channel = λ s channel. keep_idem (of_channel channel) s.1;
}
