-- ===== src/Relay/Downstream/Missing.antt =====
-- The missing data on the downstream: the batches are saved in order, up to the empty one that ends them.
use tidegauge_backend.Prelude.{
  List, [], ◌∷◌, ◌++◌, Bool, true, false, some, ◌≡◌, refl, ap, ◌∙◌, map, ◌==◌, string_keys,
  if◌then◌else◌, inl, inr,
}
use tidegauge_backend.Types.{Uuid}
use tidegauge_backend.Wire.{DataPoint}
use tidegauge_backend.Exec.{
  Exec, Result, Result-cases, ok, err, pure, modify, ◌>>=◌, ◌>>◌, continue,
}
use tidegauge_backend.Relay.{DownstreamStore, Codec, Peer, Notice, on_store, notify}
use tidegauge_backend.Relay.Wire.{RelayMessage, data_batch}
use tidegauge_backend.Relay.Upstream.Frames.{end_of_data}
use tidegauge_backend.Relay.Downstream.{save_points, save_points_at, take_data, recv_missing}

-- An action that neither reads nor changes what waits in the inbox.
record Blind {D A : Type 0} (m : Exec (Peer D) A) : Type 0 where
  same :
      (s : Peer D) (frames : List RelayMessage)
      → m (record s { inbox = frames }) ≡ ((m s).0, record (m s).1 { inbox = frames })

module _ {D A B : Type 0} where
  continue-Blind :
      (r : Result A) (f : A → Exec (Peer D) B) (s : Peer D) (frames : List RelayMessage)
      → ((a : A) → Blind (f a))
      → continue r f (record s { inbox = frames })
        ≡ ((continue r f s).0, record (continue r f s).1 { inbox = frames })
  continue-Blind (ok a) f s frames blind = (blind a).same s frames
  continue-Blind (err e) f s frames blind = refl

  bind-Blind :
      (m : Exec (Peer D) A) (f : A → Exec (Peer D) B)
      → Blind m
      → ((a : A) → Blind (f a))
      → Blind (m >>= f)
  unfolding ◌>>=◌
  bind-Blind m f bm bf = record {
    same = λ s frames.
        ap (λ out. continue out.0 f out.1) (bm.same s frames)
        ∙ continue-Blind (m s).0 f (m s).1 frames bf;
  }

module _ {D : Type 0} where
  on_store-Blind : {A : Type 0} (m : Exec D A) → Blind (on_store m)
  unfolding on_store
  on_store-Blind m = record { same = λ s frames. refl }

  notify_if-Blind : (b : Bool) (n : Notice) → Blind {D = D} (if b then notify n else pure tt)
  unfolding notify pure
  notify_if-Blind true n = record { same = λ s frames. refl }
  notify_if-Blind false n = record { same = λ s frames. refl }

  pure-Blind : Blind {D = D} (pure tt)
  unfolding pure
  pure-Blind = record { same = λ s frames. refl }

-- A batch of the missing data that is not the end: its station and its points.
abbrev pub batch_frame : Codec → Uuid × List DataPoint → RelayMessage
batch_frame codec (id, points) =
    data_batch (record { station_id = codec.show_uuid id; data_type = "MissData"; points = points })

module _ {D : Type 0} (codec : Codec) (store : DownstreamStore D) where
  save_points-Blind :
      (id : Uuid) (points : List DataPoint) → Blind (save_points codec store id points)
  unfolding save_points
  save_points-Blind id [] = pure-Blind
  save_points-Blind id (p ∷ ps) = bind-Blind _ _ (on_store-Blind _) (λ _.
      bind-Blind _ _ (on_store-Blind _)
        (λ b. bind-Blind _ _ (notify_if-Blind b _) (λ _. save_points-Blind id ps)))

  -- Every batch saved, one after another.
  unfoldable pub save_all : List (Uuid × List DataPoint) → Exec (Peer D) Unit
  save_all [] = pure tt
  save_all ((id, points) ∷ rest) = do save_points codec store id points; save_all rest

  save_all-Blind : (ms : List (Uuid × List DataPoint)) → Blind (save_all ms)
  unfolding save_all
  save_all-Blind [] = pure-Blind
  save_all-Blind ((id, points) ∷ rest) =
      bind-Blind _ _ (save_points-Blind id points) (λ _. save_all-Blind rest)

  -- Where a UUID's text is not empty and reads back as that UUID: if the database takes every point of
  -- the batches, the loop that receives them and the end frame ends without an error, having saved and
  -- published exactly what saving the batches one after another does, and leaves in the inbox just what
  -- came behind the end frame.
  pub recv_missing-save_all :
      ((id : Uuid) → (codec.show_uuid id == "") ≡ false)
      → ((id : Uuid) → codec.parse_uuid (codec.show_uuid id) ≡ some id)
      → (ms : List (Uuid × List DataPoint)) (rest : List RelayMessage) (s : Peer D)
      → (save_all ms s).0 ≡ ok tt
      → recv_missing codec store (map (batch_frame codec) ms ++ end_of_data ∷ rest) s
        ≡ (ok tt, record (save_all ms s).1 { inbox = rest })
  unfolding recv_missing take_data save_points_at save_all ◌>>=◌ modify pure
  recv_missing-save_all named parse-show [] rest s saved = refl
  recv_missing-save_all named parse-show ((id, points) ∷ ms) rest s saved =
      let frames = map (batch_frame codec) ms ++ end_of_data ∷ rest in
      let s' = (save_points codec store id points s).1 in
      rw (named id, parse-show id, (save_points-Blind id points).same s frames)
        (elim (Result-cases (save_points codec store id points s).0) [
          | inl (x, e) ↦ absurd (cc (rw e at saved))
          | inr (a, e) ↦ rw e (
              recv_missing-save_all named parse-show ms rest (record s' { inbox = frames })
                (ap (λ out. out.0) ((save_all-Blind ms).same s' frames) ∙ rw e at saved)
              ∙ ap (λ out. (ok tt, record out.1 { inbox = rest }))
                  ((save_all-Blind ms).same s' frames))
        ])
