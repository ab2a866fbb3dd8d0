-- ===== src/PubSub/Restrict.antt =====
-- `RestrictTopics` of pkg/pubsub/pubsub.go, and what a restricted subscriber can still receive.
use tidegauge_backend.Prelude.{
  ℕ, ◌≡◌, refl, ◌⊎◌, inl, inr, Bool, true, false, ◌&&◌, Option, none, some, List, [], ◌∷◌, arith,
  Eq, ◌==◌, nat_eq_iff, nat_keys, contains, lookup, Distinct, lookup-insert, lookup-delete,
  insert-Distinct, delete-Distinct, Bool-cases, ap, ◌∙◌,
}
use tidegauge_backend.PubSub.{
  Broker, Topics, accepts, keep, current, subscribe, unsubscribe, restrict_topics, publish,
  store_restricted, restrict_loaded,
}
use tidegauge_backend.PubSub.Delivery.{Seat, seat, promise, publish-promise}

module _ {T : Type 0} ⦃e : Eq T⦄ where
  contains-keep :
      (t : T) (allowed ts : List T)
      → contains t (keep allowed ts) ≡ (contains t ts && contains t allowed)
  unfolding keep
  contains-keep t allowed [] = refl
  contains-keep t allowed (x ∷ ts) = elim (Bool-cases (t == x)) [
    | inl same ↦
        let p : t ≡ x = (e.beq_iff t x).0 same in
        rw p (
          ground (
            arith,
            e.beq_iff x x,
            contains-keep x allowed ts,
            rw p at (contains-keep t allowed ts),
          ))
    | inr other ↦ ground (arith, contains-keep t allowed ts)
  ]

  -- Whether an entry of the broker lists a topic by name.
  abbrev pub lists : T → Option (Topics T) → Bool
  lists t none = false
  lists t (some none) = false
  lists t (some (some ts)) = contains t ts

  -- Whether a message on the topic is offered to who holds the entry.
  pub hears : T → Option (Topics T) → Bool
  unfolding accepts
  hears t none = false
  hears t (some topics) = accepts (some t) topics

  lists-current : (t : T) (topics : Topics T) → contains t (current topics) ≡ lists t (some topics)
  unfolding current
  lists-current t none = refl
  lists-current t (some ts) = refl

module _ {M T : Type 0} ⦃e : Eq T⦄ where
  abbrev entry : Broker M T → ℕ → Option (Topics T)
  entry b k = lookup k b.subscriptions

  store_restricted_self :
      (k : ℕ) (kept : List T) (t : T) (b : Broker M T)
      → hears t (entry (store_restricted k kept b) k) ≡ contains t kept
  unfolding hears accepts store_restricted subscribe unsubscribe
  store_restricted_self k [] t b = ground (arith, nat_eq_iff k k, lookup-delete k k b.subscriptions)
  store_restricted_self k (x ∷ kept) t b =
      ground (arith, nat_eq_iff k k, lookup-insert k k (some (x ∷ kept)) b.subscriptions)

  store_restricted_other :
      (k j : ℕ) (kept : List T) (b : Broker M T)
      → (k == j) ≡ false
      → entry (store_restricted k kept b) j ≡ entry b j
  unfolding store_restricted subscribe unsubscribe
  store_restricted_other k j [] b h = ground (arith, lookup-delete k j b.subscriptions)
  store_restricted_other k j (x ∷ kept) b h =
      ground (arith, lookup-insert k j (some (x ∷ kept)) b.subscriptions)

  restrict_loaded_lem :
      (k : ℕ) (allowed : List T) (t : T) (o : Option (Topics T)) (b : Broker M T)
      → entry b k ≡ o
      → hears t (entry (restrict_loaded k allowed o b) k) ≡ (lists t o && contains t allowed)
  unfolding restrict_loaded hears
  restrict_loaded_lem k allowed t none b h = rw h
  restrict_loaded_lem k allowed t (some topics) b h =
      store_restricted_self k (keep allowed (current topics)) t b
      ∙ contains-keep t allowed (current topics)
      ∙ ap (λ (x : Bool). x && contains t allowed) (lists-current t topics)

  restrict_loaded_other :
      (k j : ℕ) (allowed : List T) (o : Option (Topics T)) (b : Broker M T)
      → (k == j) ≡ false
      → entry (restrict_loaded k allowed o b) j ≡ entry b j
  unfolding restrict_loaded
  restrict_loaded_other k j allowed none b h = refl
  restrict_loaded_other k j allowed (some topics) b h =
      store_restricted_other k j (keep allowed (current topics)) b h

  -- After a restriction the subscriber hears exactly those of the topics it had listed that are
  -- allowed (one that listened to all hears nothing), and every other entry is what it was.
  pub restrict_topics-lists :
      (k : ℕ) (allowed : List T) (b : Broker M T)
      → ((t : T)
          → hears t (lookup k (restrict_topics k (some allowed) b).subscriptions)
            ≡ (lists t (lookup k b.subscriptions) && contains t allowed))
        × ((j : ℕ)
            → ((k == j) ≡ true)
              ⊎ (lookup j (restrict_topics k (some allowed) b).subscriptions
                  ≡ lookup j b.subscriptions))
  unfolding restrict_topics
  restrict_topics-lists k allowed b = (
    λ t. restrict_loaded_lem k allowed t (entry b k) b refl,
    λ j. elim (Bool-cases (k == j)) [
      | inl same ↦ inl same
      | inr other ↦ inr (restrict_loaded_other k j allowed (entry b k) b other)
    ],
  )

  pub promise_deaf :
      (message : M) (t : T) (s : Seat M T)
      → hears t s.entry ≡ false
      → promise message (some t) s ≡ s
  unfolding promise hears accepts
  promise_deaf message t s h = ground arith

  pub restrict_topics-heap :
      (k : ℕ) (allowed : List T) (b : Broker M T)
      → (restrict_topics k (some allowed) b).heap ≡ b.heap
  unfolding restrict_topics
  restrict_topics-heap k allowed b = loaded (lookup k b.subscriptions)
    where
      stored : (kept : List T) → (store_restricted k kept b).heap ≡ b.heap
      stored [] = unfold store_restricted unsubscribe in refl
      stored (x ∷ kept) = unfold store_restricted subscribe in refl

      loaded : (o : Option (Topics T)) → (restrict_loaded k allowed o b).heap ≡ b.heap
      loaded none = unfold restrict_loaded in refl
      loaded (some topics) = unfold restrict_loaded in stored (keep allowed (current topics))

  pub restrict_topics-Distinct :
      (k : ℕ) (allowed : Topics T) (b : Broker M T)
      → Distinct b.subscriptions
      → Distinct (restrict_topics k allowed b).subscriptions
  unfolding restrict_topics
  restrict_topics-Distinct k none b d = d
  restrict_topics-Distinct k (some allowed) b d = loaded (lookup k b.subscriptions)
    where
      stored : (kept : List T) → Distinct (store_restricted k kept b).subscriptions
      stored [] = unfold store_restricted unsubscribe in delete-Distinct k b.subscriptions d
      stored (x ∷ kept) =
          unfold store_restricted subscribe in insert-Distinct k (some (x ∷ kept)) b.subscriptions d

      loaded : (o : Option (Topics T)) → Distinct (restrict_loaded k allowed o b).subscriptions
      loaded none = unfold restrict_loaded in d
      loaded (some topics) = unfold restrict_loaded in stored (keep allowed (current topics))

  -- Once a subscriber is restricted, a message on a topic outside the allowed set does not reach it:
  -- neither its buffer nor its entry changes, and it is not cancelled.
  pub publish-restrict_topics :
      (message : M) (t : T) (k : ℕ) (allowed : List T) (b : Broker M T)
      → Distinct b.subscriptions
      → contains t allowed ≡ false
      → seat (publish message (some t) (restrict_topics k (some allowed) b)) k ≡ record {
        subscriber = b.heap k;
        entry = lookup k (restrict_topics k (some allowed) b).subscriptions;
      }
  publish-restrict_topics message t k allowed b d out =
      let b' : Broker M T = restrict_topics k (some allowed) b in
      let h : hears t (lookup k b'.subscriptions)
          ≡ (lists t (lookup k b.subscriptions) && contains t allowed) =
        (restrict_topics-lists k allowed b).0 t in
      publish-promise message (some t) b' k (restrict_topics-Distinct k (some allowed) b d)
      ∙ promise_deaf message t (seat b' k) (h ∙ ground arith)
      ∙ rw restrict_topics-heap
