-- ===== src/Hub/Disconnect.antt =====
-- `DisconnectUser` and `DisconnectAll` of tide_server/controller/sync_hub.go.
use tidegauge_backend.Prelude.{
  ℕ, String, ◌≡◌, refl, ◌∙◌, ap, inl, inr, Bool, true, false, ◌&&◌, ◌||◌, List, [], ◌∷◌, arith,
  ◌==◌, nat_keys, nat_eq_iff, if◌then◌else◌, Bool-cases,
}
use tidegauge_backend.PubSub.{Subscriber, cancel}
use tidegauge_backend.Hub.{
  Hub, Message, matches, subscribers_of, cancel_at, cancel_matching, cancel_users, disconnect_user,
  disconnect_all,
}
use tidegauge_backend.Hub.Tracking.{Users}

-- The subscriber stands in the list with a kind that matches.
abbrev pub among : ℕ → ℕ → List (ℕ × ℕ) → Bool
among mask j [] = false
among mask j ((k, conn_type) ∷ rest) = (matches mask conn_type && k == j) || among mask j rest

abbrev pub among_users : ℕ → ℕ → Users → Bool
among_users mask j [] = false
among_users mask j ((username, subscribers) ∷ rest) =
    among mask j subscribers || among_users mask j rest

abbrev pub cancelled_if : Bool → Subscriber Message → Subscriber Message
cancelled_if b s = if b then cancel s else s

cancelled_if-twice :
    (b c : Bool) (s : Subscriber Message)
    → cancelled_if c (cancelled_if b s) ≡ cancelled_if (b || c) s
unfolding cancel
cancelled_if-twice true true s = refl
cancelled_if-twice true false s = refl
cancelled_if-twice false true s = refl
cancelled_if-twice false false s = refl

cancel_one :
    (b : Bool) (k j : ℕ) (h : Hub)
    → (if b then cancel_at k h else h).heap j ≡ cancelled_if (b && k == j) (h.heap j)
unfolding cancel_at
cancel_one false k j h = refl
cancel_one true k j h = elim (Bool-cases (k == j)) [
  | inl same ↦ rw ((nat_eq_iff k j).0 same) (ground (arith, nat_eq_iff j j))
  | inr other ↦ rw other refl
]

cancel_matching-heap :
    (mask j : ℕ) (l : List (ℕ × ℕ)) (h : Hub)
    → (cancel_matching mask l h).heap j ≡ cancelled_if (among mask j l) (h.heap j)
unfolding cancel_matching
cancel_matching-heap mask j [] h = refl
cancel_matching-heap mask j ((k, conn_type) ∷ rest) h =
    cancel_matching-heap mask j rest (if matches mask conn_type then cancel_at k h else h)
    ∙ ap (cancelled_if (among mask j rest)) (cancel_one (matches mask conn_type) k j h)
    ∙ cancelled_if-twice (matches mask conn_type && k == j) (among mask j rest) (h.heap j)

cancel_users-heap :
    (mask j : ℕ) (m : Users) (h : Hub)
    → (cancel_users mask m h).heap j ≡ cancelled_if (among_users mask j m) (h.heap j)
unfolding cancel_users
cancel_users-heap mask j [] h = refl
cancel_users-heap mask j ((username, subscribers) ∷ rest) h =
    cancel_users-heap mask j rest (cancel_matching mask subscribers h)
    ∙ ap (cancelled_if (among_users mask j rest)) (cancel_matching-heap mask j subscribers h)
    ∙ cancelled_if-twice (among mask j subscribers) (among_users mask j rest) (h.heap j)

-- To disconnect a user cancels exactly the subscribers that are tracked for this user with a kind of
-- connection in the mask, and to disconnect all exactly those that are so tracked for any user; every
-- other subscriber is what it was.
pub disconnect-cancelled :
    (username : String) (mask j : ℕ) (h : Hub)
    → ((disconnect_user username mask h).heap j ≡ (
        if among mask j (subscribers_of username h.subscribers_by_user)
        then cancel (h.heap j)
        else h.heap j))
      × ((disconnect_all mask h).heap j
          ≡ (if among_users mask j h.subscribers_by_user then cancel (h.heap j) else h.heap j))
unfolding disconnect_user disconnect_all
disconnect-cancelled username mask j h = (
  cancel_matching-heap mask j (subscribers_of username h.subscribers_by_user) h,
  cancel_users-heap mask j h.subscribers_by_user h,
)
