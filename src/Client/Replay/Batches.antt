-- ===== src/Client/Replay/Batches.antt =====
-- How the points of the replay are cut into batches, one part of the history after another.
use tidegauge_backend.Prelude.{
  String, List, [], ◌∷◌, ◌++◌, leb, length, string_keys, map, ◌≡◌, refl, sym, ap, ◌∙◌, All,
  All-append, append_assoc, append-nil, length-append, map-append, arith, ◌<◌, Bool-cases, inl, inr,
}
use tidegauge_backend.Types.{DataTime}
use tidegauge_backend.Wire.{DataPoint}
use tidegauge_backend.Exec.{Exec, Result, ok, ◌>>=◌, pure, continue}
use tidegauge_backend.Client.{Link, send_main_frame, sent}
use tidegauge_backend.Client.Replay.{
  replay_data_batch_size, replay_batch, replay_point, flush_full, replay_rows,
}

-- Batches and what is left: the points sent so far and to be sent, in order.
abbrev pub joined : List (List DataPoint) → List DataPoint → List DataPoint
joined [] left = left
joined (b ∷ bs) left = b ++ joined bs left

-- The session after batches were sent.
abbrev pub after : Link → List (List DataPoint) → Link
after s bs = record s { outbox = s.outbox ++ map replay_batch bs }

-- Points were appended: only full batches went out, and what is left is short of one.
pub record Appended (points news : List DataPoint) (s : Link) (out : Result (List DataPoint) × Link)
    : Type 0 where
  pub batches : List (List DataPoint)
  pub left : List DataPoint
  pub ends : out ≡ (ok left, after s batches)
  pub in_order : joined batches left ≡ points ++ news
  pub are_full : All (λ b. length b ≡ replay_data_batch_size) batches
  pub is_short : length left < replay_data_batch_size

flush_full-Appended :
    (points : List DataPoint) (p : DataPoint) (s : Link)
    → s.faults ≡ []
    → length points < replay_data_batch_size
    → Appended points (p ∷ []) s (flush_full (points ++ p ∷ []) s)
unfolding flush_full ◌>>=◌ send_main_frame sent
flush_full-Appended points p s calm short =
    elim (Bool-cases (leb replay_data_batch_size (length (points ++ p ∷ [])))) [
      | inl full ↦ record {
        batches = (points ++ p ∷ []) ∷ [];
        left = [];
        ends = rw (full, calm);
        in_order = append-nil _;
        are_full = (ground (arith, length-append points (p ∷ [])), tt);
        is_short = ground arith;
      }
      | inr not_full ↦ record {
        batches = [];
        left = points ++ p ∷ [];
        ends = rw (not_full, append-nil s.outbox);
        in_order = refl;
        are_full = tt;
        is_short = ground arith;
      }
    ]

pub joined-append :
    (bs cs : List (List DataPoint)) (left : List DataPoint)
    → joined (bs ++ cs) left ≡ joined bs (joined cs left)
joined-append [] cs left = refl
joined-append (b ∷ bs) cs left = ap (λ r. b ++ r) (joined-append bs cs left)

joined_left :
    (bs : List (List DataPoint)) (left news : List DataPoint)
    → joined bs (left ++ news) ≡ joined bs left ++ news
joined_left [] left news = refl
joined_left (b ∷ bs) left news =
    ap (λ r. b ++ r) (joined_left bs left news) ∙ sym (append_assoc b (joined bs left) news)

pub after-after :
    (s : Link) (bs cs : List (List DataPoint)) → after (after s bs) cs ≡ after s (bs ++ cs)
after-after s bs cs =
    ap (λ out. record s { outbox = out })
      (append_assoc s.outbox (map replay_batch bs) (map replay_batch cs)
        ∙ ap (λ r. s.outbox ++ r) (sym (map-append replay_batch bs cs)))

pub All-append_full :
    (bs cs : List (List DataPoint))
    → All (λ b. length b ≡ replay_data_batch_size) bs
    → All (λ b. length b ≡ replay_data_batch_size) cs
    → All (λ b. length b ≡ replay_data_batch_size) (bs ++ cs)
All-append_full bs cs hb hc = All-append (λ b. length b ≡ replay_data_batch_size) bs cs hb hc

-- One part of the history after another.
pub then-Appended :
    (points n₁ n₂ : List DataPoint) (s : Link) (m : Exec Link (List DataPoint))
    (f : List DataPoint → Exec Link (List DataPoint))
    → Appended points n₁ s (m s)
    → ((left : List DataPoint) (bs : List (List DataPoint))
        → length left < replay_data_batch_size
        → Appended left n₂ (after s bs) (f left (after s bs)))
    → Appended points (n₁ ++ n₂) s ((m >>= f) s)
unfolding ◌>>=◌
then-Appended points n₁ n₂ s m f x g =
    let y = g x.left x.batches x.is_short in
    record {
      batches = x.batches ++ y.batches;
      left = y.left;
      ends =
          ap (λ out. continue out.0 f out.1) x.ends
          ∙ y.ends
          ∙ ap (λ s'. (ok y.left, s')) (after-after s x.batches y.batches);
      in_order =
          joined-append x.batches y.batches y.left
          ∙ ap (joined x.batches) y.in_order
          ∙ joined_left x.batches x.left n₂
          ∙ ap (λ r. r ++ n₂) x.in_order
          ∙ append_assoc points n₁ n₂;
      are_full = All-append_full x.batches y.batches x.are_full y.are_full;
      is_short = y.is_short;
    }

pub none-Appended :
    (points : List DataPoint) (s : Link)
    → length points < replay_data_batch_size
    → Appended points [] s (pure points s)
unfolding pure
none-Appended points s short = record {
  batches = [];
  left = points;
  ends = rw (append-nil s.outbox);
  in_order = sym (append-nil points);
  are_full = tt;
  is_short = short;
}

pub replay_rows-Appended :
    (item_name : String) (points : List DataPoint) (ds : List DataTime) (s : Link)
    → s.faults ≡ []
    → length points < replay_data_batch_size
    → Appended points (map (replay_point item_name) ds) s (replay_rows item_name points ds s)
unfolding replay_rows
replay_rows-Appended item_name points [] s calm short = none-Appended points s short
replay_rows-Appended item_name points (d ∷ ds) s calm short =
    then-Appended points (replay_point item_name d ∷ []) (map (replay_point item_name) ds) s
      (flush_full (points ++ replay_point item_name d ∷ [])) (λ left. replay_rows item_name left ds)
      (flush_full-Appended points (replay_point item_name d) s calm short)
      (λ left bs. replay_rows-Appended item_name left ds (after s bs) calm)
