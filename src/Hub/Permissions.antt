-- ===== src/Hub/Permissions.antt =====
-- `UpdatePermissions` of tide_server/controller/sync_hub.go: what a user is told of and still hears.
use tidegauge_backend.Prelude.{
  ℕ, String, ◌≡◌, refl, ◌∙◌, ap, inl, inr, Bool, true, false, ◌&&◌, some, List, [], ◌∷◌, arith,
  ◌==◌, nat_keys, nat_eq_iff, contains, lookup, Distinct, if◌then◌else◌, Bool-cases,
}
use mathlib.Core.Path.{subst}
use tidegauge_backend.Types.{StationItem, UuidStringsMap, station_item_keys}
use tidegauge_backend.Exec.{Result, ok, err}
use tidegauge_backend.PubSub.{Topics, restrict_topics, publish}
use tidegauge_backend.PubSub.Delivery.{Seat, seat, publish-promise}
use tidegauge_backend.PubSub.Restrict.{
  lists, hears, restrict_topics-lists, restrict_topics-Distinct, promise_deaf,
}
use tidegauge_backend.Relay.Convert.{uuid_strings_map_to_topics}
use tidegauge_backend.Hub.{
  Hub, HubBroker, Message, matches, conn_type_web_browser, conn_type_sync_data, subscribers_of,
  cancel_at, on_broker, broker_data, hub_publish,
}
use tidegauge_backend.Hub.Availability.{
  limit, limit_all, announce, send_all, cancel_all, config_subscribers, allowed_topics,
  update_permissions,
}

-- The subscriber is tracked as a web browser.
abbrev pub browses : ℕ → List (ℕ × ℕ) → Bool
browses j [] = false
browses j ((k, conn_type) ∷ rest) =
    if k == j && matches conn_type_web_browser conn_type then true else browses j rest

abbrev Deaf : StationItem → ℕ → Hub → Type 0
Deaf t j h = hears t (lookup j h.data_subscriptions) ≡ false

-- The subscriptions to the data stay distinct, and who does not hear an item goes on not hearing it.
abbrev Limits : StationItem → (Hub → Hub) → Type 0
Limits t f =
    (h : Hub)
    → (Distinct h.data_subscriptions → Distinct (f h).data_subscriptions)
      × ((j : ℕ) → Deaf t j h → Deaf t j (f h))

send_all-data :
    (msg : Message) (ks : List ℕ) (h : Hub)
    → (send_all msg ks h).data_subscriptions ≡ h.data_subscriptions
unfolding send_all
send_all-data msg [] h = refl
send_all-data msg (k ∷ ks) h = send_all-data msg ks _

cancel_all-data :
    (ks : List ℕ) (h : Hub) → (cancel_all ks h).data_subscriptions ≡ h.data_subscriptions
unfolding cancel_all
cancel_all-data [] h = refl
cancel_all-data (k ∷ ks) h = cancel_all-data ks (cancel_at k h) ∙ unfold cancel_at in refl

announce-data :
    (allowed : Topics StationItem) (items : Result (List StationItem)) (ks : List ℕ) (h : Hub)
    → (announce allowed items ks h).data_subscriptions ≡ h.data_subscriptions
unfolding announce
announce-data allowed items [] h = refl
announce-data allowed (err e) (k ∷ ks) h = cancel_all-data (k ∷ ks) h
announce-data allowed (ok items) (k ∷ ks) h = send_all-data _ (k ∷ ks) h

cancel_if-data :
    (b : Bool) (k : ℕ) (h : Hub)
    → (if b then cancel_at k h else h).data_subscriptions ≡ h.data_subscriptions
unfolding cancel_at
cancel_if-data true k h = refl
cancel_if-data false k h = refl

module _ (t : StationItem) (allowed : List StationItem) (out : contains t allowed ≡ false) where
  restricted : ℕ → Hub → Hub
  restricted k h = on_broker broker_data (restrict_topics k (some allowed)) h

  abbrev data_broker : Hub → HubBroker
  data_broker h = record { subscriptions = h.data_subscriptions; heap = h.heap }

  restricted_self : (k : ℕ) (h : Hub) → Deaf t k (restricted k h)
  unfolding restricted on_broker
  restricted_self k h =
      (restrict_topics-lists k allowed (data_broker h)).0 t
      ∙ rw out (ground (arith, lists t (lookup k h.data_subscriptions)))

  restricted-Limits : (k : ℕ) → Limits t (restricted k)
  restricted-Limits k h = (
    unfold restricted on_broker in restrict_topics-Distinct k (some allowed) (data_broker h),
    λ j d. elim (Bool-cases (k == j)) [
      | inl same ↦
          subst (λ i. Deaf t i (restricted k h)) ((nat_eq_iff k j).0 same) (restricted_self k h)
      | inr other ↦ elim ((restrict_topics-lists k allowed (data_broker h)).1 j) [
        | inl same ↦ absurd (cc (same, other))
        | inr e ↦ unfold restricted on_broker in (ap (hears t) e ∙ d)
      ]
    ],
  )

  abbrev web_limited : Bool → ℕ → Hub → Hub
  web_limited b k h = if b then restricted k h else h

  limit-data :
      (k conn_type : ℕ) (h : Hub)
      → (limit (some allowed) k conn_type h).data_subscriptions
        ≡ (web_limited (matches conn_type_web_browser conn_type) k h).data_subscriptions
  unfolding limit restricted
  limit-data k conn_type h =
      cancel_if-data (matches conn_type_sync_data conn_type) k
        (web_limited (matches conn_type_web_browser conn_type) k h)

  web_limited-Limits : (b : Bool) (k : ℕ) → Limits t (web_limited b k)
  web_limited-Limits true k h = restricted-Limits k h
  web_limited-Limits false k h = ((λ d. d), (λ j d. d))

  limit-Limits : (k conn_type : ℕ) → Limits t (limit (some allowed) k conn_type)
  limit-Limits k conn_type h =
      rw limit-data (web_limited-Limits (matches conn_type_web_browser conn_type) k h)

  limit_self :
      (k conn_type : ℕ) (h : Hub)
      → matches conn_type_web_browser conn_type ≡ true
      → Deaf t k (limit (some allowed) k conn_type h)
  limit_self k conn_type h web = rw limit-data (rw web (restricted_self k h))

  limit_all-Limits : (l : List (ℕ × ℕ)) → Limits t (limit_all (some allowed) l)
  unfolding limit_all
  limit_all-Limits [] h = ((λ d. d), (λ j d. d))
  limit_all-Limits ((k, conn_type) ∷ l) h =
      let h' = limit (some allowed) k conn_type h in
      (
        λ d. (limit_all-Limits l h').0 ((limit-Limits k conn_type h).0 d),
        λ j d. (limit_all-Limits l h').1 j ((limit-Limits k conn_type h).1 j d),
      )

  limit_all-Deaf :
      (l : List (ℕ × ℕ)) (j : ℕ) (h : Hub)
      → browses j l ≡ true
      → Deaf t j (limit_all (some allowed) l h)
  unfolding limit_all
  limit_all-Deaf [] j h b = absurd (cc b)
  limit_all-Deaf ((k, conn_type) ∷ l) j h b =
      let h' = limit (some allowed) k conn_type h in
      elim (Bool-cases (k == j && matches conn_type_web_browser conn_type)) [
        | inl here ↦ (limit_all-Limits l h').1 j (
            subst (λ i. Deaf t i h') ((nat_eq_iff k j).0 (ground arith))
              (limit_self k conn_type h (ground arith)))
        | inr other ↦ limit_all-Deaf l j h' (rw other at b)
      ]

-- Once the permissions of a user are updated, whatever the database answers, a value of an item that
-- is not among the new ones, published on the data broker, does not change what any web browser
-- connection of the user holds: neither its buffer, nor its entry, nor whether it is cancelled.
pub update_permissions-limited :
    (items : Result (List StationItem)) (username : String) (permissions : UuidStringsMap) (h : Hub)
    (message : Message) (t : StationItem) (j : ℕ)
    → Distinct h.data_subscriptions
    → contains t (uuid_strings_map_to_topics permissions) ≡ false
    → browses j (subscribers_of username h.subscribers_by_user) ≡ true
    → let h' = update_permissions items username (some permissions) h in
      (((hub_publish broker_data message (some t) h').heap j ≡ h'.heap j)
        × (lookup j (hub_publish broker_data message (some t) h').data_subscriptions
            ≡ lookup j h'.data_subscriptions))
unfolding update_permissions allowed_topics hub_publish on_broker
update_permissions-limited items username permissions h message t j d out b =
    let allowed : List StationItem = uuid_strings_map_to_topics permissions in
    let subscribers : List (ℕ × ℕ) = subscribers_of username h.subscribers_by_user in
    let limited : Hub = limit_all (some allowed) subscribers h in
    let h' : Hub = announce (some allowed) items (config_subscribers subscribers) limited in
    let e : h'.data_subscriptions ≡ limited.data_subscriptions =
      announce-data (some allowed) items (config_subscribers subscribers) limited in
    let b' : HubBroker = record { subscriptions = h'.data_subscriptions; heap = h'.heap } in
    let deaf : hears t (lookup j h'.data_subscriptions) ≡ false =
      rw e (limit_all-Deaf t allowed out subscribers j h b) in
    let p : seat (publish message (some t) b') j ≡ seat b' j =
      publish-promise message (some t) b' j
        (rw e ((limit_all-Limits t allowed out subscribers h).0 d))
      ∙ promise_deaf message t (seat b' j) deaf in
    (
      ap (λ (s : Seat Message StationItem). s.subscriber) p,
      ap (λ (s : Seat Message StationItem). s.entry) p,
    )
