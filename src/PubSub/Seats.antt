-- ===== src/PubSub/Seats.antt =====
-- The broker of pkg/pubsub/pubsub.go seen from one subscriber: what any calls make of its seat.
use tidegauge_backend.Prelude.{
  ℕ, ◌≡◌, refl, ◌∙◌, ap, inl, inr, Option, none, some, List, [], ◌∷◌, ltb, Eq, ◌==◌, nat_eq_iff,
  nat_keys, Distinct, insert-Distinct, delete-Distinct, lookup, lookup-insert, lookup-delete,
  length, Bool-cases, if◌then◌else◌,
}
use tidegauge_backend.PubSub.{
  Broker, Topics, offer, cancel, accepts, subscribe, unsubscribe, restrict_topics, keep, current,
  store_restricted, restrict_loaded, publish, range, visit, deliver,
}
use tidegauge_backend.PubSub.Delivery.{Seat, seat, promise, publish-promise}
use tidegauge_backend.PubSub.Restrict.{restrict_topics-Distinct}

-- The calls that a broker takes.
pub data Call (M T : Type 0) : Type 0 where
  subscribes restricts : ℕ → Topics T → Call M T
  unsubscribes : ℕ → Call M T
  publishes : M → Option T → Call M T

-- No topic left is no subscription.
abbrev or_out : {T : Type 0} → List T → Option (Topics T)
or_out [] = none
or_out (t ∷ ts) = some (some (t ∷ ts))

-- An entry with the allowed of its topics only. One that listens to all lists none of them.
abbrev restricted : {T : Type 0} ⦃e : Eq T⦄ → List T → Option (Topics T) → Option (Topics T)
restricted allowed none = none
restricted allowed (some none) = none
restricted allowed (some (some topics)) = or_out (keep allowed topics)

module _ {T : Type 0} ⦃e : Eq T⦄ where
  or_out-restricted :
      (allowed : List T) (topics : Topics T)
      → or_out (keep allowed (current topics)) ≡ restricted allowed (some topics)
  unfolding current keep
  or_out-restricted allowed none = refl
  or_out-restricted allowed (some ts) = refl

module _ {M T : Type 0} ⦃e : Eq T⦄ where
  pub run_call : Call M T → Broker M T → Broker M T
  run_call (subscribes k topics) b = subscribe k topics b
  run_call (restricts k topics) b = restrict_topics k topics b
  run_call (unsubscribes k) b = unsubscribe k b
  run_call (publishes message topic) b = publish message topic b

  pub run_calls : List (Call M T) → Broker M T → Broker M T
  unfolding run_call
  run_calls [] b = b
  run_calls (c ∷ cs) b = run_calls cs (run_call c b)

  -- What a call makes of the seat of `k`, from what it holds alone.
  abbrev pub seen : ℕ → Call M T → Seat M T → Seat M T
  seen k (subscribes j topics) s = if j == k then record s { entry = some topics } else s
  seen k (unsubscribes j) s = if j == k then record s { entry = none } else s
  seen k (restricts j none) s = s
  seen k (restricts j (some allowed)) s =
      if j == k then record s { entry = restricted allowed s.entry } else s
  seen k (publishes message topic) s = promise message topic s

  abbrev pub all_seen : ℕ → List (Call M T) → Seat M T → Seat M T
  all_seen k [] s = s
  all_seen k (c ∷ cs) s = all_seen k cs (seen k c s)

  visit-Distinct :
      (message : M) (topic : Option T) (k : ℕ) (topics : Topics T) (b : Broker M T)
      → Distinct b.subscriptions
      → Distinct (visit message topic k topics b).subscriptions
  unfolding visit deliver offer cancel unsubscribe
  visit-Distinct message topic k topics b d = elim (Bool-cases (accepts topic topics)) [
    | inr shut ↦ rw shut d
    | inl open_to ↦ elim (Bool-cases (ltb (length (b.heap k).waiting) (b.heap k).buffer)) [
      | inl room ↦ rw (open_to, room) d
      | inr full ↦ rw (open_to, full) (delete-Distinct k b.subscriptions d)
    ]
  ]

  range-Distinct :
      (message : M) (topic : Option T) (l : List (ℕ × Topics T)) (b : Broker M T)
      → Distinct b.subscriptions
      → Distinct (range message topic l b).subscriptions
  unfolding range
  range-Distinct message topic [] b d = d
  range-Distinct message topic ((k, topics) ∷ l) b d =
      range-Distinct message topic l (visit message topic k topics b)
        (visit-Distinct message topic k topics b d)

  run_call-Distinct :
      (c : Call M T) (b : Broker M T)
      → Distinct b.subscriptions
      → Distinct (run_call c b).subscriptions
  unfolding run_call subscribe unsubscribe publish
  run_call-Distinct (subscribes k topics) b d = insert-Distinct k topics b.subscriptions d
  run_call-Distinct (restricts k topics) b d = restrict_topics-Distinct k topics b d
  run_call-Distinct (unsubscribes k) b d = delete-Distinct k b.subscriptions d
  run_call-Distinct (publishes message topic) b d = range-Distinct message topic b.subscriptions b d

  abbrev with_entry : Option (Topics T) → Seat M T → Seat M T
  with_entry o s = record s { entry = o }

  store_restricted-seen :
      (j k : ℕ) (kept : List T) (b : Broker M T)
      → seat (store_restricted j kept b) k
        ≡ (if j == k then with_entry (or_out kept) (seat b k) else seat b k)
  unfolding store_restricted subscribe unsubscribe
  store_restricted-seen j k [] b = elim (Bool-cases (j == k)) [
    | inl same ↦ rw (lookup-delete j k b.subscriptions, same) refl
    | inr other ↦ rw (lookup-delete j k b.subscriptions, other) refl
  ]
  store_restricted-seen j k (t ∷ ts) b = elim (Bool-cases (j == k)) [
    | inl same ↦ rw (lookup-insert j k (some (t ∷ ts)) b.subscriptions, same) refl
    | inr other ↦ rw (lookup-insert j k (some (t ∷ ts)) b.subscriptions, other) refl
  ]

  restrict_loaded-seen :
      (j k : ℕ) (allowed : List T) (o : Option (Topics T)) (b : Broker M T)
      → lookup j b.subscriptions ≡ o
      → seat (restrict_loaded j allowed o b) k ≡ (
          if j == k
          then with_entry (restricted allowed (lookup k b.subscriptions)) (seat b k)
          else seat b k)
  unfolding restrict_loaded
  restrict_loaded-seen j k allowed none b h = elim (Bool-cases (j == k)) [
    | inr other ↦ rw other refl
    | inl same ↦
        let e : j ≡ k = (nat_eq_iff j k).0 same in
        let g : lookup k b.subscriptions ≡ none = rw e at h in rw (same, g) refl
  ]
  restrict_loaded-seen j k allowed (some topics) b h =
      store_restricted-seen j k (keep allowed (current topics)) b ∙ elim (Bool-cases (j == k)) [
        | inr other ↦ rw other refl
        | inl same ↦
            let e : j ≡ k = (nat_eq_iff j k).0 same in
            let g : lookup k b.subscriptions ≡ some topics = rw e at h in
            rw (same, g) (ap (λ x. with_entry x (seat b k)) (or_out-restricted allowed topics))
      ]

  run_call-seen :
      (c : Call M T) (k : ℕ) (b : Broker M T)
      → Distinct b.subscriptions
      → seat (run_call c b) k ≡ seen k c (seat b k)
  unfolding run_call subscribe unsubscribe
  run_call-seen (publishes message topic) k b d = publish-promise message topic b k d
  run_call-seen (subscribes j topics) k b d = elim (Bool-cases (j == k)) [
    | inl same ↦ rw (lookup-insert j k topics b.subscriptions, same) refl
    | inr other ↦ rw (lookup-insert j k topics b.subscriptions, other) refl
  ]
  run_call-seen (unsubscribes j) k b d = elim (Bool-cases (j == k)) [
    | inl same ↦ rw (lookup-delete j k b.subscriptions, same) refl
    | inr other ↦ rw (lookup-delete j k b.subscriptions, other) refl
  ]
  run_call-seen (restricts j none) k b d = unfold restrict_topics in refl
  run_call-seen (restricts j (some allowed)) k b d =
      unfold restrict_topics in restrict_loaded-seen j k allowed (lookup j b.subscriptions) b refl

  -- After any calls a subscriber holds exactly what the calls make of its own seat, one after another:
  -- to subscribe and to unsubscribe set its entry, to restrict leaves the allowed of its topics and
  -- drops the entry where none is left, to publish keeps the promise, and what others call changes
  -- nothing. The subscribers of the broker are distinct at the start.
  pub seat-run_calls :
      (cs : List (Call M T)) (k : ℕ) (b : Broker M T)
      → Distinct b.subscriptions
      → seat (run_calls cs b) k ≡ all_seen k cs (seat b k)
  unfolding run_calls
  seat-run_calls [] k b d = refl
  seat-run_calls (c ∷ cs) k b d =
      seat-run_calls cs k (run_call c b) (run_call-Distinct c b d)
      ∙ ap (all_seen k cs) (run_call-seen c k b d)
