-- ===== src/Relay/Upstream/History.antt =====
-- The missing data on the upstream: what `handle_miss_data_sync` sends.
use tidegauge_backend.Prelude.{
  String, List, [], ◌∷◌, ◌++◌, Option, some, ◌≡◌, ap, ◌∙◌, map, map-append, append_assoc,
  append-nil, lookup, string_keys, if◌then◌else◌, Bool-cases, inl, inr,
}
use tidegauge_backend.Prelude.Int.{ℤ, pos, ltb_ℤ}
use tidegauge_backend.Types.{Uuid, UnixMs, DataTime, UuidStringsMap}
use tidegauge_backend.Exec.{Exec, ok, pure, ◌>>=◌, ◌>>◌, continue}
use tidegauge_backend.Relay.{UpstreamStore, Codec, Peer, recv, received, send, sent}
use tidegauge_backend.Relay.Wire.{RelayMessage, stations_items_latest}
use tidegauge_backend.Relay.Upstream.Frames.{after_ms, miss_data_batch, end_of_data}
use tidegauge_backend.Relay.Upstream.{
  send_history, send_missing, send_all_missing, handle_miss_data_sync, expect_items_latest,
  effective_permissions,
}

-- The history of an item, where it is not empty.
abbrev pub batch_of : Uuid → String → List DataTime → List (Uuid × String × List DataTime)
batch_of id name [] = []
batch_of id name (d ∷ ds) = (id, name, d ∷ ds) ∷ []

module _ (history : Uuid → String → UnixMs → List DataTime) where
  -- What a downstream misses: of each item that it has a time for, the history after that time.
  abbrev pub missing_items :
      Uuid → Option (List (String × ℤ)) → List String → List (Uuid × String × List DataTime)
  missing_items id latest [] = []
  missing_items id latest (name ∷ rest) =
      (if ltb_ℤ (pos 0) (after_ms name latest)
        then batch_of id name (history id name (after_ms name latest))
        else [])
      ++ missing_items id latest rest

  abbrev pub missing :
      Codec
      → List (String × List (String × ℤ))
      → UuidStringsMap
      → List (Uuid × String × List DataTime)
  missing codec latest [] = []
  missing codec latest ((id, names) ∷ rest) =
      missing_items id (lookup (codec.show_uuid id) latest) names ++ missing codec latest rest

abbrev pub frame_of : Codec → Uuid × String × List DataTime → RelayMessage
frame_of codec (id, name, ds) = miss_data_batch codec id name ds

-- The state after frames were sent.
abbrev pub after : {D : Type 0} → Peer D → List RelayMessage → Peer D
after s frames = record s { outbox = s.outbox ++ frames }

module _ {D : Type 0} where
  after-after :
      (s : Peer D) (fs gs : List RelayMessage) → after (after s fs) gs ≡ after s (fs ++ gs)
  after-after s fs gs = ap (λ out. record s { outbox = out }) (append_assoc s.outbox fs gs)

  send-after :
      (frame : RelayMessage) (s : Peer D)
      → s.faults ≡ []
      → send frame s ≡ (ok tt, after s (frame ∷ []))
  unfolding send sent
  send-after frame s calm = ap (λ f. sent frame f s) calm

  -- One action that sends after another.
  then-after :
      (m n : Exec (Peer D) Unit) (fs gs : List RelayMessage) (s : Peer D)
      → m s ≡ (ok tt, after s fs)
      → n (after s fs) ≡ (ok tt, after (after s fs) gs)
      → (m >> n) s ≡ (ok tt, after s (fs ++ gs))
  unfolding ◌>>=◌
  then-after m n fs gs s em en =
      ap (λ out. continue out.0 (λ _. n) out.1) em
      ∙ en
      ∙ ap (λ s'. (ok tt, s')) (after-after s fs gs)

  pure-after : (s : Peer D) → pure tt s ≡ (ok tt, after s [])
  unfolding pure
  pure-after s = rw (append-nil s.outbox)

module _ {D : Type 0} (codec : Codec) (store : UpstreamStore)
    (history : Uuid → String → UnixMs → List DataTime)
    (reads : (id : Uuid) (name : String) (t : UnixMs)
      → store.get_data_history id name t ≡ ok (history id name t)) where
  history-after :
      (id : Uuid) (name : String) (ds : List DataTime) (s : Peer D)
      → s.faults ≡ []
      → send_history codec store id name (ok ds) s
        ≡ (ok tt, after s (map (frame_of codec) (batch_of id name ds)))
  unfolding send_history
  history-after id name [] s calm = pure-after s
  history-after id name (d ∷ ds) s calm = send-after _ s calm

  one-after :
      (id : Uuid) (name : String) (t : ℤ) (s : Peer D)
      → s.faults ≡ []
      → (if ltb_ℤ (pos 0) t
            then send_history codec store id name (store.get_data_history id name t)
            else pure tt)
          s
        ≡ (
          ok tt,
          after s (
              map
                (frame_of codec)
                (if ltb_ℤ (pos 0) t then batch_of id name (history id name t) else [])),
        )
  one-after id name t s calm = elim (Bool-cases (ltb_ℤ (pos 0) t)) [
    | inl e ↦ rw (e, reads id name t) (history-after id name (history id name t) s calm)
    | inr e ↦ rw e (pure-after s)
  ]

  missing-after :
      (id : Uuid) (latest : Option (List (String × ℤ))) (names : List String) (s : Peer D)
      → s.faults ≡ []
      → send_missing codec store id latest names s
        ≡ (ok tt, after s (map (frame_of codec) (missing_items history id latest names)))
  unfolding send_missing
  missing-after id latest [] s calm = pure-after s
  missing-after id latest (name ∷ rest) s calm =
      rw
        (map-append (frame_of codec)
          (if ltb_ℤ (pos 0) (after_ms name latest)
            then batch_of id name (history id name (after_ms name latest))
            else [])
          (missing_items history id latest rest))
        (then-after _ (send_missing codec store id latest rest) _ _ s
          (one-after id name (after_ms name latest) s calm) (missing-after id latest rest _ calm))

  all-after :
      (latest : List (String × List (String × ℤ))) (permissions : UuidStringsMap) (s : Peer D)
      → s.faults ≡ []
      → send_all_missing codec store latest permissions s
        ≡ (ok tt, after s (map (frame_of codec) (missing history codec latest permissions)))
  unfolding send_all_missing
  all-after latest [] s calm = pure-after s
  all-after latest ((id, names) ∷ rest) s calm =
      rw
        (map-append (frame_of codec)
          (missing_items history id (lookup (codec.show_uuid id) latest) names)
          (missing history codec latest rest))
        (then-after _ (send_all_missing codec store latest rest) _ _ s
          (missing-after id (lookup (codec.show_uuid id) latest) names s calm)
          (all-after latest rest _ calm))

  -- When every reading of the histories succeeds and every send succeeds, what a downstream with these
  -- permissions is sent, after its latest times came in, is one batch for each permitted item that it
  -- has a positive time for and that has a history after it, in order, then the end frame; nothing else
  -- is sent, and nothing else changes.
  pub handle_miss_data_sync-missing :
      (latest : List (String × List (String × ℤ))) (permissions : UuidStringsMap)
      (rest : List RelayMessage) (s : Peer D)
      → s.faults ≡ []
      → handle_miss_data_sync codec store
          (some permissions)
          (record s { inbox = stations_items_latest (some latest) ∷ rest })
        ≡ (
          ok tt,
          record s {
            inbox = rest;
            outbox =
                s.outbox
                ++ (map (frame_of codec) (missing history codec latest permissions)
                    ++ end_of_data ∷ []);
          },
        )
  unfolding handle_miss_data_sync recv received expect_items_latest effective_permissions ◌>>=◌ pure
  handle_miss_data_sync-missing latest permissions rest s calm =
      let s' = record s { inbox = rest } in
      then-after (send_all_missing codec store latest permissions) (send end_of_data) _
        (end_of_data ∷ []) s' (all-after latest permissions s' calm) (send-after end_of_data _ calm)
