-- ===== src/Members/Owners.antt =====
-- Every subscription belongs to a connection that is there.
use throttr.Prelude.{
  ℕ, List, [], ◌∷◌, ◌++◌, Bool, true, false, not, ◌&&◌, ◌==◌, ◌≡◌, inl, inr, refl, ◌∙◌, arith, All,
  Bool-cases, if◌then◌else◌,
}
use throttr.Entry.{Key}
use throttr.Subscriptions.{
  same_map, Subscription, SubscriptionContainer, keep, of_connection, of_channel, of_both,
  subscribe_command, unsubscribe_command, is_subscribed, ConnectionMap, tcp, unix, agent_tcp,
  agent_unix,
}
use throttr.Members.{
  Transport, ConnectionType, map_of, Members, has_id, try_emplace, erase_id, update_map, join,
  leave,
}

-- An id that one of the maps has.
abbrev pub IsMember : (ConnectionMap → List ℕ) → ℕ → Type 0
IsMember maps id = (m : ConnectionMap) × (has_id id (maps m) ≡ true)

abbrev pub IsOwned : (ConnectionMap → List ℕ) → Subscription → Type 0
IsOwned maps x = IsMember maps x.connection_id

same_map_eq : (m k : ConnectionMap) → same_map m k ≡ true → m ≡ k
same_map_eq tcp tcp h = refl
same_map_eq unix unix h = refl
same_map_eq agent_tcp agent_tcp h = refl
same_map_eq agent_unix agent_unix h = refl
same_map_eq tcp unix h = absurd (cc)
same_map_eq tcp agent_tcp h = absurd (cc)
same_map_eq tcp agent_unix h = absurd (cc)
same_map_eq unix tcp h = absurd (cc)
same_map_eq unix agent_tcp h = absurd (cc)
same_map_eq unix agent_unix h = absurd (cc)
same_map_eq agent_tcp tcp h = absurd (cc)
same_map_eq agent_tcp unix h = absurd (cc)
same_map_eq agent_tcp agent_unix h = absurd (cc)
same_map_eq agent_unix tcp h = absurd (cc)
same_map_eq agent_unix unix h = absurd (cc)
same_map_eq agent_unix agent_tcp h = absurd (cc)

same_map_refl : (m : ConnectionMap) → same_map m m ≡ true
same_map_refl tcp = refl
same_map_refl unix = refl
same_map_refl agent_tcp = refl
same_map_refl agent_unix = refl

has_id-try_emplace_self : (id : ℕ) (xs : List ℕ) → has_id id (try_emplace id xs) ≡ true
unfolding try_emplace has_id
has_id-try_emplace_self id xs = ground arith

has_id-try_emplace :
    (i id : ℕ) (xs : List ℕ) → has_id i xs ≡ true → has_id i (try_emplace id xs) ≡ true
unfolding try_emplace has_id
has_id-try_emplace i id xs h = ground (arith, h)

has_id-erase_id :
    (i id : ℕ) (xs : List ℕ) → has_id i (erase_id id xs) ≡ (has_id i xs && not (i == id))
unfolding erase_id has_id
has_id-erase_id i id [] = refl
has_id-erase_id i id (x ∷ xs) = ground (arith, has_id-erase_id i id xs)

module _ (maps : ConnectionMap → List ℕ) (m : ConnectionMap) (id : ℕ) where
  joined : IsMember (update_map m (try_emplace id) maps) id
  joined = (m, rw (same_map_refl m) (has_id-try_emplace_self id (maps m)))

  still-IsMember : (i : ℕ) → IsMember maps i → IsMember (update_map m (try_emplace id) maps) i
  still-IsMember i (k, h) = (k, choose (same_map m k))
    where
      choose : (b : Bool) → has_id i (if b then try_emplace id (maps k) else maps k) ≡ true
      choose true = has_id-try_emplace i id (maps k) h
      choose false = h

  stays-IsMember :
      (i : ℕ) → (i == id) ≡ false → IsMember maps i → IsMember (update_map m (erase_id id) maps) i
  stays-IsMember i other (k, h) = (k, choose (same_map m k))
    where
      choose : (b : Bool) → has_id i (if b then erase_id id (maps k) else maps k) ≡ true
      choose true = has_id-erase_id i id (maps k) ∙ rw (h, other) refl
      choose false = h

All-implies :
    (P Q : Subscription → Type 0) (xs : List Subscription)
    → ((x : Subscription) → P x → Q x)
    → All P xs
    → All Q xs
All-implies P Q [] f all = tt
All-implies P Q (x ∷ xs) f all = (f x all.0, All-implies P Q xs f all.1)

All-append :
    (P : Subscription → Type 0) (xs ys : List Subscription) → All P xs → All P ys → All P (xs ++ ys)
All-append P [] ys a b = b
All-append P (x ∷ xs) ys a b = (a.0, All-append P xs ys a.1 b)

All-keep :
    (P Q : Subscription → Type 0) (p : Subscription → Bool) (xs : List Subscription)
    → ((x : Subscription) → P x → p x ≡ true → Q x)
    → All P xs
    → All Q (keep p xs)
unfolding keep
All-keep P Q p [] f all = tt
All-keep P Q p (x ∷ xs) f all = elim (Bool-cases (p x)) [
  | inl kept ↦ rw kept (f x all.0 kept, All-keep P Q p xs f all.1)
  | inr gone ↦ rw gone (All-keep P Q p xs f all.1)
]

module _ {S : Type 0} (c : SubscriptionContainer S) (uuid : ℕ → List ℕ) where
  -- What changes the members and their subscriptions: connections come and go, and the commands of
  -- one that is there.
  pub data Step : Members S → Members S → Type 0 where
    joins :
        (st : Members S) (now then_now : ℕ) (t : Transport) (k : ConnectionType) (id : ℕ)
        → Step st (join c uuid now then_now t k id st)
    leaves :
        (st : Members S) (t : Transport) (k : ConnectionType) (id : ℕ)
        → Step st (leave c uuid t k id st)
    subscribes :
        (st : Members S) (now id : ℕ) (channel : Key)
        → IsMember st.maps id
        → Step st
            (record st { subscriptions = (subscribe_command c now st.subscriptions id channel).1 })
    unsubscribes :
        (st : Members S) (id : ℕ) (channel : Key)
        → Step st
            (record st { subscriptions = (unsubscribe_command c st.subscriptions id channel).1 })

  -- The states of a server that started without connections.
  pub data Reachable : Members S → Type 0 where
    starts :
        (st : Members S)
        → ((channel : Key) → c.equal_range st.subscriptions channel ≡ [])
        → Reachable st
    goes_on : (st st' : Members S) → Reachable st → Step st st' → Reachable st'

  abbrev AllOwned : (ConnectionMap → List ℕ) → S → Type 0
  AllOwned maps s = (channel : Key) → All (IsOwned maps) (c.equal_range s channel)

  insert-AllOwned :
      (maps : ConnectionMap → List ℕ) (s : S) (x : Subscription)
      → IsOwned maps x
      → AllOwned maps s
      → AllOwned maps (c.insert s x).0
  insert-AllOwned maps s x here ok channel = rw (c.equal_range-insert s x channel) (
      All-append (IsOwned maps) (c.equal_range s channel)
        (if of_channel channel x then x ∷ [] else []) (ok channel) (choose (of_channel channel x)))
    where
      choose : (b : Bool) → All (IsOwned maps) (if b then x ∷ [] else [])
      choose true = (here, tt)
      choose false = tt

  erase_if-AllOwned :
      (maps maps' : ConnectionMap → List ℕ) (s : S) (p : Subscription → Bool)
      → ((x : Subscription) → IsOwned maps x → not (p x) ≡ true → IsOwned maps' x)
      → AllOwned maps s
      → AllOwned maps' (c.erase_if s p)
  erase_if-AllOwned maps maps' s p f ok channel = rw (c.equal_range-erase_if s p channel) (
      All-keep (IsOwned maps) (IsOwned maps') (λ x. not (p x)) (c.equal_range s channel) f
        (ok channel))

  join-AllOwned :
      (now then_now : ℕ) (t : Transport) (k : ConnectionType) (id : ℕ) (st : Members S)
      → AllOwned st.maps st.subscriptions
      → AllOwned
          (join c uuid now then_now t k id st).maps
          (join c uuid now then_now t k id st).subscriptions
  unfolding join
  join-AllOwned now then_now t k id st ok =
      let member = joined st.maps (map_of t k) id in
      let maps' = update_map (map_of t k) (try_emplace id) st.maps in
      insert-AllOwned maps' _ _ member (
        insert-AllOwned maps' st.subscriptions _ member (λ channel.
          All-implies (IsOwned st.maps) (IsOwned maps') (c.equal_range st.subscriptions channel)
            (λ x. still-IsMember st.maps (map_of t k) id x.connection_id) (ok channel)))

  leave-AllOwned :
      (t : Transport) (k : ConnectionType) (id : ℕ) (st : Members S)
      → AllOwned st.maps st.subscriptions
      → AllOwned (leave c uuid t k id st).maps (leave c uuid t k id st).subscriptions
  unfolding leave
  leave-AllOwned t k id st ok =
      erase_if-AllOwned st.maps (update_map (map_of t k) (erase_id id) st.maps) st.subscriptions
        (of_connection id)
        (λ x owned other.
          stays-IsMember st.maps (map_of t k) id x.connection_id (ground (arith, other)) owned)
        ok

  Step-AllOwned :
      (st st' : Members S)
      → Step st st'
      → AllOwned st.maps st.subscriptions
      → AllOwned st'.maps st'.subscriptions
  unfolding subscribe_command unsubscribe_command
  Step-AllOwned _ _ (joins st now then_now t k id) ok = join-AllOwned now then_now t k id st ok
  Step-AllOwned _ _ (leaves st t k id) ok = leave-AllOwned t k id st ok
  Step-AllOwned _ _ (subscribes st now id channel member) ok =
      insert-AllOwned st.maps st.subscriptions _ member ok
  Step-AllOwned _ _ (unsubscribes st id channel) ok =
      elim (Bool-cases (is_subscribed c st.subscriptions id channel)) [
        | inl there ↦ rw there (
            erase_if-AllOwned st.maps st.maps st.subscriptions (of_both id channel)
              (λ x owned h. owned) ok)
        | inr absent ↦ rw absent ok
      ]

  -- Whatever connections join and leave, every subscription of every channel belongs to a connection
  -- that one of the maps has.
  pub Reachable-IsOwned :
      (st : Members S)
      → Reachable st
      → (channel : Key) → All (IsOwned st.maps) (c.equal_range st.subscriptions channel)
  Reachable-IsOwned _ (starts st empty) channel = rw (empty channel) tt
  Reachable-IsOwned _ (goes_on st st' before step) channel =
      Step-AllOwned st st' step (Reachable-IsOwned st before) channel
