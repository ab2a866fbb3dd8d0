-- ===== src/PubSub.antt =====
-- pkg/pubsub/pubsub.go: the broker. A broker's `sync.Map` is a list of subscriptions keyed by the
-- subscriber; the subscribers that the pointers lead to are a heap from identifiers. A nil topic is
-- `none`, and so is a nil topic set.
pub mod Delivery
pub mod Restrict
pub mod Seats
pub mod Delayed
use tidegauge_backend.Prelude.{
  ℕ, Bool, true, false, ◌&&◌, Option, none, some, List, [], ◌∷◌, ◌++◌, length, ltb, Eq, ◌==◌,
  if◌then◌else◌, contains, lookup, insert, delete, nat_keys,
}

-- `Ch` is the buffered channel: what waits in it, and its capacity. `cancelled` says whether
-- `Cancel` was called.
pub record Subscriber (M : Type 0) : Type 0 where
  pub waiting : List M
  pub buffer : ℕ
  pub cancelled : Bool

pub new_subscriber : {M : Type 0} → ℕ → Subscriber M
new_subscriber buffer = record { waiting = []; buffer = buffer; cancelled = false }

unfoldable pub cancel : {M : Type 0} → Subscriber M → Subscriber M
cancel s = record s { cancelled = true }

-- `select { case subscriber.Ch <- message: … default: … }`: `none` is the default case.
unfoldable pub offer : {M : Type 0} → M → Subscriber M → Option (Subscriber M)
offer message s =
    if ltb (length s.waiting) s.buffer
    then some (record s { waiting = s.waiting ++ message ∷ [] })
    else none

abbrev pub Topics : Type 0 → Type 0
Topics T = Option (List T)

pub record Broker (M T : Type 0) : Type 0 where
  pub subscriptions : List (ℕ × Topics T)
  pub heap : ℕ → Subscriber M

abbrev pub write : {A : Type 0} → (ℕ → A) → ℕ → A → ℕ → A
write heap k v j = if k == j then v else heap j

module _ {M T : Type 0} where
  unfoldable pub subscribe : ℕ → Topics T → Broker M T → Broker M T
  subscribe k topics b = record b { subscriptions = insert k topics b.subscriptions }

  unfoldable pub unsubscribe : ℕ → Broker M T → Broker M T
  unsubscribe k b = record b { subscriptions = delete k b.subscriptions }

module _ {T : Type 0} ⦃e : Eq T⦄ where
  -- The guard of `Publish`: a message with a topic goes to those who listen to it or to all.
  unfoldable pub accepts : Option T → Topics T → Bool
  accepts (some topic) (some topics) = contains topic topics
  accepts none topics = true
  accepts topic none = true

  pub keep : List T → List T → List T
  keep allowed [] = []
  keep allowed (t ∷ ts) =
      let rest = keep allowed ts in if contains t allowed then t ∷ rest else rest

  -- A nil set has no topic to range over.
  pub current : Topics T → List T
  current none = []
  current (some topics) = topics

module _ {M T : Type 0} ⦃e : Eq T⦄ where
  store_restricted : ℕ → List T → Broker M T → Broker M T
  store_restricted k [] b = unsubscribe k b
  store_restricted k (t ∷ ts) b = subscribe k (some (t ∷ ts)) b

  restrict_loaded : ℕ → List T → Option (Topics T) → Broker M T → Broker M T
  restrict_loaded k allowed none b = b
  restrict_loaded k allowed (some topics) b = store_restricted k (keep allowed (current topics)) b

  pub restrict_topics : ℕ → Topics T → Broker M T → Broker M T
  unfolding store_restricted restrict_loaded keep current unsubscribe subscribe
  restrict_topics k none b = b
  restrict_topics k (some allowed) b = restrict_loaded k allowed (lookup k b.subscriptions) b

  deliver : ℕ → Option (Subscriber M) → Broker M T → Broker M T
  deliver k (some s) b = record b { heap = write b.heap k s }
  deliver k none b =
      let b' = unsubscribe k b in record b' { heap = write b'.heap k (cancel (b'.heap k)) }

  visit : M → Option T → ℕ → Topics T → Broker M T → Broker M T
  unfolding deliver offer cancel unsubscribe accepts
  visit message topic k topics b =
      if accepts topic topics then deliver k (offer message (b.heap k)) b else b

  range : M → Option T → List (ℕ × Topics T) → Broker M T → Broker M T
  range message topic [] b = b
  range message topic ((k, topics) ∷ rest) b =
      range message topic rest (visit message topic k topics b)

  -- `Range` goes over the subscriptions that stand when it begins.
  pub publish : M → Option T → Broker M T → Broker M T
  unfolding range
  publish message topic b = range message topic b.subscriptions b
