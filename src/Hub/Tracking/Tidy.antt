-- ===== src/Hub/Tracking/Tidy.antt =====
-- What `TrackSubscriber` and `UntrackSubscriber` keep of the map of users.
use tidegauge_backend.Prelude.{
  ℕ, String, ◌≡◌, refl, inl, inr, none, some, List, [], ◌∷◌, ◌==◌, nat_keys, string_keys, lookup,
  insert, delete, Distinct, lookup-insert, lookup-delete, insert-Distinct, delete-Distinct,
  Bool-cases, sym, ◌∙◌, ap,
}
use mathlib.Core.Path.{subst}
use tidegauge_backend.Hub.{
  Hub, or_nothing, subscribers_of, track_subscriber, untrack_subscriber, left_over,
}
use tidegauge_backend.Hub.Tracking.{
  Users, Call, tracks, untracks, run_call, run_calls, subscribers_of-insert,
  subscribers_of-left_over,
}

abbrev pub NonEmpty : List (ℕ × ℕ) → Type 0
NonEmpty l = (x : ℕ × ℕ) × (xs : List (ℕ × ℕ)) × (l ≡ x ∷ xs)

-- No user and no subscriber of a user is entered twice, and no user is entered without a subscriber.
pub record IsTidy (m : Users) : Type 0 where
  pub distinct : Distinct m
  pub own_distinct : (username : String) → Distinct (subscribers_of username m)
  pub non_empty :
      (username : String) → (own : List (ℕ × ℕ)) → lookup username m ≡ some own → NonEmpty own

insert-NonEmpty : (k conn_type : ℕ) (own : List (ℕ × ℕ)) → NonEmpty (insert k conn_type own)
insert-NonEmpty k conn_type [] = ((k, conn_type), [], refl)
insert-NonEmpty k conn_type ((j, c) ∷ own) = elim (Bool-cases (j == k)) [
  | inl same ↦ rw same ((k, conn_type), own, refl)
  | inr other ↦ rw other ((j, c), insert k conn_type own, refl)
]

-- To enter a list of subscribers that is not empty and holds none twice.
insert-IsTidy :
    (username : String) (own : List (ℕ × ℕ)) (m : Users)
    → Distinct own
    → NonEmpty own
    → IsTidy m
    → IsTidy (insert username own m)
insert-IsTidy username own m d n h = record {
  distinct = insert-Distinct username own m h.distinct;
  own_distinct = λ other. elim (Bool-cases (username == other)) [
    | inl same ↦
        let e : subscribers_of other (insert username own m) ≡ own =
          subscribers_of-insert username other own m ∙ rw same refl in
        subst (λ l. Distinct l) (sym e) d
    | inr differs ↦
        let e : subscribers_of other (insert username own m) ≡ subscribers_of other m =
          subscribers_of-insert username other own m ∙ rw differs refl in
        subst (λ l. Distinct l) (sym e) (h.own_distinct other)
  ];
  non_empty = λ other found at. elim (Bool-cases (username == other)) [
    | inl same ↦
        let e : some own ≡ some found =
          sym (lookup-insert username other own m ∙ rw same refl) ∙ at in
        subst NonEmpty (ap or_nothing e) n
    | inr differs ↦
        let e : lookup other m ≡ some found =
          sym (lookup-insert username other own m ∙ rw differs refl) ∙ at in
        h.non_empty other found e
  ];
}

left_over-IsTidy :
    (username : String) (own : List (ℕ × ℕ)) (m : Users)
    → Distinct own
    → IsTidy m
    → IsTidy (left_over username own m)
left_over-IsTidy username (s ∷ own) m d h =
    unfold left_over in insert-IsTidy username (s ∷ own) m d (s, own, refl) h
left_over-IsTidy username [] m d h = record {
  distinct = unfold left_over in delete-Distinct username m h.distinct;
  own_distinct = λ other. elim (Bool-cases (username == other)) [
    | inl same ↦
        let e : subscribers_of other (left_over username [] m) ≡ [] =
          subscribers_of-left_over username other [] m ∙ rw same refl in
        subst (λ l. Distinct l) (sym e) tt
    | inr differs ↦
        let e : subscribers_of other (left_over username [] m) ≡ subscribers_of other m =
          subscribers_of-left_over username other [] m ∙ rw differs refl in
        subst (λ l. Distinct l) (sym e) (h.own_distinct other)
  ];
  non_empty =
      unfold left_over in
      (λ other found at. elim (Bool-cases (username == other)) [
        | inl same ↦
            let e : lookup other (delete username m) ≡ none =
              lookup-delete username other m ∙ rw same refl in
            absurd (cc (e, at))
        | inr differs ↦
            let e : lookup other m ≡ some found =
              sym (lookup-delete username other m ∙ rw differs refl) ∙ at in
            h.non_empty other found e
      ]);
}

run_call-IsTidy :
    (c : Call) (h : Hub) → IsTidy h.subscribers_by_user → IsTidy (run_call c h).subscribers_by_user
unfolding run_call track_subscriber untrack_subscriber
run_call-IsTidy (tracks username k conn_type) h t =
    let own : List (ℕ × ℕ) = subscribers_of username h.subscribers_by_user in
    insert-IsTidy username (insert k conn_type own) h.subscribers_by_user
      (insert-Distinct k conn_type own (t.own_distinct username)) (insert-NonEmpty k conn_type own)
      t
run_call-IsTidy (untracks username k) h t =
    let own : List (ℕ × ℕ) = subscribers_of username h.subscribers_by_user in
    left_over-IsTidy username (delete k own) h.subscribers_by_user
      (delete-Distinct k own (t.own_distinct username)) t

-- Whatever sequence of calls tracks and untracks subscribers, no user and no subscriber of a user is
-- entered twice, and a user whose last subscriber is gone is not kept, if that was so at the start.
pub run_calls-IsTidy :
    (cs : List Call) (h : Hub)
    → IsTidy h.subscribers_by_user
    → IsTidy (run_calls cs h).subscribers_by_user
unfolding run_calls
run_calls-IsTidy [] h t = t
run_calls-IsTidy (c ∷ cs) h t = run_calls-IsTidy cs (run_call c h) (run_call-IsTidy c h t)
