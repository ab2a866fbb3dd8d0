-- ===== src/Hub/Tracking.antt =====
-- `TrackSubscriber` and `UntrackSubscriber` of tide_server/controller/sync_hub.go.
pub mod Tidy
use tidegauge_backend.Prelude.{
  ℕ, String, ◌≡◌, refl, ◌∙◌, ap, inl, inr, Bool, true, false, ◌&&◌, Option, none, some, List, [],
  ◌∷◌, arith, ◌==◌, nat_keys, string_keys, nat_eq_iff, lookup, insert, delete, Distinct,
  lookup-insert, lookup-delete, insert-Distinct, delete-Distinct, if◌then◌else◌, Bool-cases,
}
use tidegauge_backend.Hub.{
  Hub, or_nothing, subscribers_of, track_subscriber, untrack_subscriber, left_over,
}

abbrev pub Users : Type 0
Users = List (String × List (ℕ × ℕ))

-- The kind of the connection under which a user's subscriber is tracked.
abbrev pub tracked : String → ℕ → Users → Option ℕ
tracked username k m = lookup k (subscribers_of username m)

pub subscribers_of-insert :
    (username other : String) (own : List (ℕ × ℕ)) (m : Users)
    → subscribers_of other (insert username own m)
      ≡ (if username == other then own else subscribers_of other m)
subscribers_of-insert username other own m =
    ap or_nothing (lookup-insert username other own m) ∙ or_nothing-if (username == other)
  where
    or_nothing-if :
        (b : Bool)
        → or_nothing (if b then some own else lookup other m)
          ≡ (if b then own else subscribers_of other m)
    or_nothing-if true = refl
    or_nothing-if false = refl

subscribers_of-delete :
    (username other : String) (m : Users)
    → subscribers_of other (delete username m)
      ≡ (if username == other then [] else subscribers_of other m)
subscribers_of-delete username other m =
    ap or_nothing (lookup-delete username other m) ∙ or_nothing-if (username == other)
  where
    or_nothing-if :
        (b : Bool)
        → or_nothing (if b then none else lookup other m)
          ≡ (if b then [] else subscribers_of other m)
    or_nothing-if true = refl
    or_nothing-if false = refl

pub subscribers_of-left_over :
    (username other : String) (own : List (ℕ × ℕ)) (m : Users)
    → subscribers_of other (left_over username own m)
      ≡ (if username == other then own else subscribers_of other m)
unfolding left_over
subscribers_of-left_over username other [] m = subscribers_of-delete username other m
subscribers_of-left_over username other (s ∷ own) m =
    subscribers_of-insert username other (s ∷ own) m

-- Of a map in which one user's own entry was changed, what the view shows.
tracked-changed :
    (username other : String) (k j : ℕ) (o : Option ℕ) (own : List (ℕ × ℕ)) (m m' : Users)
    → subscribers_of other m' ≡ (if username == other then own else subscribers_of other m)
    → lookup j own ≡ (if k == j then o else lookup j (subscribers_of username m))
    → tracked other j m' ≡ (if username == other && k == j then o else tracked other j m)
tracked-changed username other k j o own m m' user subscriber =
    elim (Bool-cases (username == other)) [
      | inl same ↦
          let e : username ≡ other = (string_keys.beq_iff username other).0 same in
          let u : subscribers_of other m' ≡ own = rw same at user in
          ap (lookup j) u ∙ rw same (rw e at subscriber)
      | inr differs ↦
          let u : subscribers_of other m' ≡ subscribers_of other m = rw differs at user in
          ap (lookup j) u ∙ rw differs refl
    ]

pub tracked-track_subscriber :
    (username other : String) (k j conn_type : ℕ) (h : Hub)
    → tracked other j (track_subscriber username k conn_type h).subscribers_by_user ≡ (
        if username == other && k == j
        then some conn_type
        else tracked other j h.subscribers_by_user)
unfolding track_subscriber
tracked-track_subscriber username other k j conn_type h =
    let m = h.subscribers_by_user in
    let own : List (ℕ × ℕ) = insert k conn_type (subscribers_of username m) in
    tracked-changed username other k j (some conn_type) own m (insert username own m)
      (subscribers_of-insert username other own m)
      (lookup-insert k j conn_type (subscribers_of username m))

pub tracked-untrack_subscriber :
    (username other : String) (k j : ℕ) (h : Hub)
    → tracked other j (untrack_subscriber username k h).subscribers_by_user
      ≡ (if username == other && k == j then none else tracked other j h.subscribers_by_user)
unfolding untrack_subscriber
tracked-untrack_subscriber username other k j h =
    let m = h.subscribers_by_user in
    let own : List (ℕ × ℕ) = delete k (subscribers_of username m) in
    tracked-changed username other k j none own m (left_over username own m)
      (subscribers_of-left_over username other own m)
      (lookup-delete k j (subscribers_of username m))

-- The calls that keep track of connections.
pub data Call : Type 0 where
  tracks : String → ℕ → ℕ → Call
  untracks : String → ℕ → Call

pub run_call : Call → Hub → Hub
run_call (tracks username k conn_type) h = track_subscriber username k conn_type h
run_call (untracks username k) h = untrack_subscriber username k h

pub run_calls : List Call → Hub → Hub
run_calls [] h = h
run_calls (c ∷ cs) h = run_calls cs (run_call c h)

-- What the calls promise for a user's subscriber: the kind it was last tracked with, unless it was
-- untracked since.
abbrev pub promise_call : String → ℕ → Call → Option ℕ → Option ℕ
promise_call other j (tracks username k conn_type) o =
    if username == other && k == j then some conn_type else o
promise_call other j (untracks username k) o = if username == other && k == j then none else o

abbrev pub promise : String → ℕ → List Call → Option ℕ → Option ℕ
promise other j [] o = o
promise other j (c ∷ cs) o = promise other j cs (promise_call other j c o)

tracked-run_call :
    (other : String) (j : ℕ) (c : Call) (h : Hub)
    → tracked other j (run_call c h).subscribers_by_user
      ≡ promise_call other j c (tracked other j h.subscribers_by_user)
unfolding run_call
tracked-run_call other j (tracks username k conn_type) h =
    tracked-track_subscriber username other k j conn_type h
tracked-run_call other j (untracks username k) h = tracked-untrack_subscriber username other k j h

-- Whatever sequence of calls tracks and untracks subscribers, each one of each user is tracked with
-- the kind that it was last tracked with, unless it was untracked since, whatever the calls for
-- others were.
pub tracked-run_calls :
    (other : String) (j : ℕ) (cs : List Call) (h : Hub)
    → tracked other j (run_calls cs h).subscribers_by_user
      ≡ promise other j cs (tracked other j h.subscribers_by_user)
unfolding run_calls
tracked-run_calls other j [] h = refl
tracked-run_calls other j (c ∷ cs) h =
    tracked-run_calls other j cs (run_call c h)
    ∙ ap (promise other j cs) (tracked-run_call other j c h)
