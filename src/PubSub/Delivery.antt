-- ===== src/PubSub/Delivery.antt =====
-- What `Publish` and `RestrictTopics` of pkg/pubsub/pubsub.go do for each subscriber.
use tidegauge_backend.Prelude.{
  ℕ, ◌≡◌, refl, inl, inr, true, false, Option, none, some, List, [], ◌∷◌, arith, Eq, ◌==◌,
  nat_eq_iff, if◌then◌else◌, lookup, nat_keys, Distinct, lookup-delete, Bool-cases, Option-cases,
  ◌∙◌, ap,
}
use tidegauge_backend.PubSub.{Subscriber, Broker, Topics, offer, accepts, visit, range, publish}

-- What one subscriber holds: the subscriber, and its entry in the broker.
pub record Seat (M T : Type 0) : Type 0 where
  pub subscriber : Subscriber M
  pub entry : Option (Topics T)

abbrev pub seat : {M T : Type 0} → Broker M T → ℕ → Seat M T
seat b k = record { subscriber = b.heap k; entry = lookup k b.subscriptions }

abbrev served : {M T : Type 0} → Topics T → Subscriber M → Option (Subscriber M) → Seat M T
served topics s (some s') = record { subscriber = s'; entry = some topics }
served topics s none = record { subscriber = record s { cancelled = true }; entry = none }

module _ {M T : Type 0} ⦃e : Eq T⦄ where
  -- The promise of `Publish` to one subscriber, from what it holds alone: who listens gets the
  -- message behind those that wait, or is dropped and cancelled where the buffer is full.
  unfoldable pub promise : M → Option T → Seat M T → Seat M T
  unfolding offer accepts
  promise message topic s = elim s.entry [
    | none ↦ s
    | some topics ↦
        if accepts topic topics then served topics s.subscriber (offer message s.subscriber) else s
  ]

  visit_other :
      (message : M) (topic : Option T) (k j : ℕ) (topics : Topics T) (b : Broker M T)
      → (k == j) ≡ false
      → seat (visit message topic k topics b) j ≡ seat b j
  unfolding visit
  visit_other message topic k j topics b h = ground (arith, lookup-delete k j b.subscriptions)

  visit_self :
      (message : M) (topic : Option T) (k : ℕ) (topics : Topics T) (b : Broker M T)
      → lookup k b.subscriptions ≡ some topics
      → seat (visit message topic k topics b) k ≡ promise message topic (seat b k)
  unfolding visit promise
  visit_self message topic k topics b h =
      ground (arith, nat_eq_iff k k, lookup-delete k k b.subscriptions)

  range_absent :
      (message : M) (topic : Option T) (k : ℕ) (snapshot : List (ℕ × Topics T)) (b : Broker M T)
      → lookup k snapshot ≡ none
      → seat (range message topic snapshot b) k ≡ seat b k
  unfolding range
  range_absent message topic k [] b h = refl
  range_absent message topic k ((j, topics) ∷ rest) b h = elim (Bool-cases (j == k)) [
    | inl same ↦ cc (rw same at h)
    | inr other ↦
        range_absent message topic k rest (visit message topic j topics b) (rw other at h)
        ∙ visit_other message topic j k topics b other
  ]

  range_present :
      (message : M) (topic : Option T) (k : ℕ) (topics : Topics T) (snapshot : List (ℕ × Topics T))
      (b : Broker M T)
      → Distinct snapshot
      → lookup k snapshot ≡ some topics
      → lookup k b.subscriptions ≡ some topics
      → seat (range message topic snapshot b) k ≡ promise message topic (seat b k)
  unfolding range
  range_present message topic k topics [] b d h g = cc
  range_present message topic k topics ((j, own) ∷ rest) b d h g = elim (Bool-cases (j == k)) [
    | inl same ↦
        let e : j ≡ k = (nat_eq_iff j k).0 same in
        let o : some own ≡ some topics = rw same at h in
        let o' : own ≡ topics = cc in
        range_absent message topic k rest (visit message topic j own b) (rw e at d.0)
        ∙ rw (e, o') (visit_self message topic k topics b g)
    | inr other ↦
        let s : seat (visit message topic j own b) k ≡ seat b k =
          visit_other message topic j k own b other in
        range_present message topic k topics rest (visit message topic j own b) d.1 (rw other at h)
          (ap (λ (x : Seat M T). x.entry) s ∙ g)
        ∙ ap (promise message topic) s
  ]

  -- `Publish` keeps its promise to every subscriber, whatever the others hold: who listens to the
  -- topic (or to all) gets the message last in its buffer, or, where that is full, is unsubscribed
  -- and cancelled and gets nothing; nobody else changes.
  pub publish-promise :
      (message : M) (topic : Option T) (b : Broker M T) (k : ℕ)
      → Distinct b.subscriptions
      → seat (publish message topic b) k ≡ promise message topic (seat b k)
  unfolding publish promise
  publish-promise message topic b k d = elim (Option-cases (lookup k b.subscriptions)) [
    | inl out ↦ range_absent message topic k b.subscriptions b out ∙ rw out
    | inr (topics, at) ↦ range_present message topic k topics b.subscriptions b d at at
  ]
