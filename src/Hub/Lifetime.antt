-- ===== src/Hub/Lifetime.antt =====
-- The end of a relay connection's subscription (`stop` of `syncV2RelayFrameSource.Subscribe` in
-- tide_server/controller/syncv2_adapters.go).
use tidegauge_backend.Prelude.{
  ℕ, String, ◌≡◌, ◌∙◌, Bool, true, ◌&&◌, ◌||◌, none, ◌==◌, nat_keys, string_keys, ==_refl,
  Bool-cases, inl, inr, refl, lookup, lookup-delete, if◌then◌else◌, Option, arith,
}
use tidegauge_backend.PubSub.{unsubscribe, cancel}
use tidegauge_backend.Hub.{Hub, cancel_at, hub_unsubscribe, on_broker, untrack_subscriber}
use tidegauge_backend.Hub.Tracking.{tracked, tracked-untrack_subscriber}
use tidegauge_backend.Hub.Adapters.{stop_frames}

abbrev cancelled_both : ℕ → ℕ → Hub → Hub
cancelled_both c d h = cancel_at d (cancel_at c h)

if-both :
    (u p q : Bool) (o : Option ℕ)
    → (if u && q then none else if u && p then none else o) ≡ (if u && (p || q) then none else o)
if-both u p q o = ground arith

tracked-stop :
    (username other : String) (c d j : ℕ) (h : Hub)
    → tracked other j
        (untrack_subscriber username d
          (untrack_subscriber username c (cancelled_both c d h))).subscribers_by_user
      ≡ (if username == other && (c == j || d == j)
          then none
          else tracked other j h.subscribers_by_user)
unfolding cancel_at
tracked-stop username other c d j h =
    tracked-untrack_subscriber username other d j
      (untrack_subscriber username c (cancelled_both c d h))
    ∙ rw (tracked-untrack_subscriber username other c j (cancelled_both c d h))
        (if-both (username == other) (c == j) (d == j) (tracked other j h.subscribers_by_user))

cancelled_both-second : (c d : ℕ) (h : Hub) → ((cancelled_both c d h).heap d).cancelled ≡ true
unfolding cancel_at cancel
cancelled_both-second c d h = rw (==_refl d) refl

cancelled_both-first : (c d : ℕ) (h : Hub) → ((cancelled_both c d h).heap c).cancelled ≡ true
unfolding cancel_at cancel
cancelled_both-first c d h = elim (Bool-cases (d == c)) [
  | inl same ↦ rw same refl
  | inr other ↦ rw other (rw (==_refl c) refl)
]

-- Whatever became of the hub since the subscription, after stop neither of its two subscribers is
-- entered in any of its brokers or tracked for its user, both are cancelled, and every other entry
-- is what it was.
pub stop_frames-released :
    (username : String) (c d : ℕ) (h : Hub)
    → let h' = stop_frames username c d h in
      (((j : ℕ)
          → (lookup j h'.config_subscriptions
              ≡ (if c == j then none else lookup j h.config_subscriptions))
            × (lookup j h'.status_subscriptions
                ≡ (if c == j then none else lookup j h.status_subscriptions))
            × (lookup j h'.data_subscriptions
                ≡ (if d == j then none else lookup j h.data_subscriptions))
            × (lookup j h'.missing_subscriptions
                ≡ (if d == j then none else lookup j h.missing_subscriptions)))
        × ((other : String) (j : ℕ)
            → tracked other j h'.subscribers_by_user ≡ (
                if username == other && (c == j || d == j)
                then none
                else tracked other j h.subscribers_by_user))
        × ((h'.heap c).cancelled ≡ true)
        × ((h'.heap d).cancelled ≡ true))
unfolding stop_frames hub_unsubscribe on_broker cancel_at untrack_subscriber unsubscribe
stop_frames-released username c d h = (
  λ j. (
    lookup-delete c j h.config_subscriptions,
    lookup-delete c j h.status_subscriptions,
    lookup-delete d j h.data_subscriptions,
    lookup-delete d j h.missing_subscriptions,
  ),
  λ other j. tracked-stop username other c d j h,
  cancelled_both-first c d h,
  cancelled_both-second c d h,
)
