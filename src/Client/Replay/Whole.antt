-- ===== src/Client/Replay/Whole.antt =====
-- What `send_replay_data` sends: the whole history after the server's latest times, in full batches.
use tidegauge_backend.Prelude.{
  ℕ, String, List, [], ◌∷◌, ◌++◌, true, ltb, length, lookup, string_keys, map, ◌≡◌, refl, ap, ◌∙◌,
  All, append-nil, arith, ◌<◌, ◌≤◌, suc,
}
use tidegauge_backend.Types.{DataTime, UnixMs, StringMapMap}
use tidegauge_backend.Wire.{DataPoint}
use tidegauge_backend.Exec.{Result, ok, ◌>>=◌, pure}
use tidegauge_backend.Client.{Deps, Link, send_main_frame, sent}
use tidegauge_backend.Client.Replay.{
  replay_data_batch_size, replay_batch, replay_point, replay_rows, replay_items, replay_devices,
  flush_rest, latest_or_zero, send_replay_data,
}
use tidegauge_backend.Client.Replay.Batches.{
  joined, joined-append, after, after-after, Appended, then-Appended, none-Appended,
  replay_rows-Appended,
}

module _ (latest : List (String × UnixMs)) (history : String → UnixMs → List DataTime) where
  -- The history of an item after the latest time that the server has.
  abbrev pub item_history : String → List DataPoint
  item_history name = map (replay_point name) (history name (latest_or_zero (lookup name latest)))

  abbrev pub items_history : List (String × String) → List DataPoint
  items_history [] = []
  items_history ((item_type, name) ∷ rest) = item_history name ++ items_history rest

  abbrev pub devices_history : StringMapMap → List DataPoint
  devices_history [] = []
  devices_history ((device, items) ∷ rest) = items_history items ++ devices_history rest

module _ (deps : Deps) (latest : List (String × UnixMs)) (history : String → UnixMs → List DataTime)
    (reads : (name : String) (t : UnixMs)
      → deps.get_data_history name t ≡ ok (history name t)) where
  replay_items-Appended :
      (points : List DataPoint) (items : List (String × String)) (s : Link)
      → s.faults ≡ []
      → length points < replay_data_batch_size
      → Appended points
          (items_history latest history items)
          s
          (replay_items deps latest points items s)
  unfolding replay_items ◌>>=◌
  replay_items-Appended points [] s calm short = none-Appended points s short
  replay_items-Appended points ((item_type, name) ∷ rest) s calm short =
      rw (reads name (latest_or_zero (lookup name latest))) (
        then-Appended points (item_history latest history name) (items_history latest history rest)
          s (replay_rows name points (history name (latest_or_zero (lookup name latest))))
          (λ left. replay_items deps latest left rest)
          (replay_rows-Appended name points _ s calm short)
          (λ left bs. replay_items-Appended left rest (after s bs) calm))

  replay_devices-Appended :
      (points : List DataPoint) (devices : StringMapMap) (s : Link)
      → s.faults ≡ []
      → length points < replay_data_batch_size
      → Appended points
          (devices_history latest history devices)
          s
          (replay_devices deps latest points devices s)
  unfolding replay_devices
  replay_devices-Appended points [] s calm short = none-Appended points s short
  replay_devices-Appended points ((device, items) ∷ rest) s calm short =
      then-Appended points (items_history latest history items)
        (devices_history latest history rest) s (replay_items deps latest points items)
        (λ left. replay_devices deps latest left rest)
        (replay_items-Appended points items s calm short)
        (λ left bs. replay_devices-Appended left rest (after s bs) calm)

-- Full batches, and a last one that is not empty.
abbrev pub IsCut : List (List DataPoint) → Type 0
IsCut [] = Unit
IsCut (b ∷ []) = (0 < length b) × (length b ≤ replay_data_batch_size)
IsCut (b ∷ c ∷ bs) = (length b ≡ replay_data_batch_size) × IsCut (c ∷ bs)

pub record Sent (points : List DataPoint) (s : Link) (out : Result {0} Unit × Link) : Type 0 where
  pub batches : List (List DataPoint)
  pub ends : out ≡ (ok tt, after s batches)
  pub in_order : joined batches [] ≡ points
  pub is_cut : IsCut batches

full-IsCut :
    (bs : List (List DataPoint)) → All (λ b. length b ≡ replay_data_batch_size) bs → IsCut bs
full-IsCut [] h = tt
full-IsCut (b ∷ []) h = (omega (arith, h.0), omega (arith, h.0))
full-IsCut (b ∷ c ∷ bs) h = (h.0, full-IsCut (c ∷ bs) h.1)

closed-IsCut :
    (bs : List (List DataPoint)) (p : DataPoint) (ps : List DataPoint)
    → All (λ b. length b ≡ replay_data_batch_size) bs
    → length (p ∷ ps) < replay_data_batch_size
    → IsCut (bs ++ (p ∷ ps) ∷ [])
closed-IsCut [] p ps h short = (omega arith, omega (arith, short))
closed-IsCut (b ∷ []) p ps h short = (h.0, (omega arith, omega (arith, short)))
closed-IsCut (b ∷ c ∷ bs) p ps h short = (h.0, closed-IsCut (c ∷ bs) p ps h.1 short)

positive : (n : ℕ) → ltb 0 (suc n) ≡ true
positive n = ground arith

flush_rest-Sent :
    (points left : List DataPoint) (s : Link) (batches : List (List DataPoint))
    → s.faults ≡ []
    → joined batches left ≡ points
    → All (λ b. length b ≡ replay_data_batch_size) batches
    → length left < replay_data_batch_size
    → Sent points s (flush_rest left (after s batches))
unfolding flush_rest send_main_frame sent pure
flush_rest-Sent points [] s batches calm whole full short = record {
  batches = batches;
  ends = refl;
  in_order = whole;
  is_cut = full-IsCut batches full;
}
flush_rest-Sent points (p ∷ ps) s batches calm whole full short = record {
  batches = batches ++ (p ∷ ps) ∷ [];
  ends = rw (positive (length ps)) (
      ap (λ f. sent (replay_batch (p ∷ ps)) f (after s batches)) calm
      ∙ ap (λ s'. (ok tt, s')) (after-after s batches ((p ∷ ps) ∷ [])));
  in_order =
      joined-append batches ((p ∷ ps) ∷ []) [] ∙ ap (joined batches) (append-nil (p ∷ ps)) ∙ whole;
  is_cut = closed-IsCut batches p ps full short;
}

module _ (deps : Deps) (latest : List (String × UnixMs)) (history : String → UnixMs → List DataTime)
    (reads : (name : String) (t : UnixMs)
      → deps.get_data_history name t ≡ ok (history name t)) where
  -- When every reading of the local database succeeds and every send succeeds, the replay ends without
  -- an error, and what it sends, batch after batch, is the history of every item of every device after
  -- the server's latest time, in order, each point once: every batch but the last has exactly 128
  -- points, the last has 1 to 128, and nothing else is sent or changed.
  pub send_replay_data-Sent :
      (s : Link)
      → s.faults ≡ []
      → Sent
          (devices_history latest history deps.station_info.devices)
          s
          (send_replay_data deps latest s)
  unfolding send_replay_data ◌>>=◌
  send_replay_data-Sent s calm =
      let x =
        replay_devices-Appended deps latest history reads [] deps.station_info.devices s calm
          (omega arith) in
      rw x.ends (flush_rest-Sent _ x.left s x.batches calm x.in_order x.are_full x.is_short)
