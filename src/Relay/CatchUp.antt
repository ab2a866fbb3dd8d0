-- ===== src/Relay/CatchUp.antt =====
-- Both sides of the missing data: what `handle_miss_data_sync` of relay/upstream.go sends is what
-- `recv_missing` of relay/downstream.go stores.
use mathlib.Core.Path.{subst, sym}
use tidegauge_backend.Prelude.{
  String, List, [], ◌∷◌, ◌++◌, false, some, ◌≡◌, refl, ap, ◌∙◌, map, ◌==◌, string_keys, false,
}
use tidegauge_backend.Prelude.Int.{ℤ}
use tidegauge_backend.Types.{Uuid, UnixMs, DataTime, UuidStringsMap}
use tidegauge_backend.Db.{Database}
use tidegauge_backend.Db.History.Saved.{stored}
use tidegauge_backend.Db.History.Arrivals.{Arrival, kept_or, brought, fresh}
use tidegauge_backend.Relay.DbStore.{db_downstream_store}
use tidegauge_backend.Wire.{DataPoint, normal_kind}
use tidegauge_backend.Exec.{Result, ok}
use tidegauge_backend.Relay.{DownstreamStore, UpstreamStore, Codec, Peer}
use tidegauge_backend.Relay.Wire.{stations_items_latest}
use tidegauge_backend.Relay.Upstream.Frames.{end_of_data}
use tidegauge_backend.Relay.Upstream.{handle_miss_data_sync}
use tidegauge_backend.Relay.Upstream.History.{missing, frame_of, handle_miss_data_sync-missing}
use tidegauge_backend.Relay.Downstream.{recv_missing}
use tidegauge_backend.Relay.Downstream.Saved.{
  arrivals, AllLegal, told_missing, Finished, save_all-Finishes,
}
use tidegauge_backend.Relay.Downstream.Missing.{batch_frame, save_all, recv_missing-save_all}

-- The points of an item's history, under its station.
abbrev pub points_of : Uuid × String × List DataTime → Uuid × List DataPoint
points_of (id, name, ds) = (
  id,
  map
      (λ d. record {
        item_name = name;
        value = d.value;
        unix_ms = d.millisecond;
        kind = normal_kind;
      })
      ds,
)

frames_agree :
    (codec : Codec) (hs : List (Uuid × String × List DataTime))
    → map (frame_of codec) hs ≡ map (batch_frame codec) (map points_of hs)
frames_agree codec [] = refl
frames_agree codec ((id, name, ds) ∷ hs) =
    ap (λ r. frame_of codec (id, name, ds) ∷ r) (frames_agree codec hs)

module _ {D E : Type 0} (codec : Codec) (upstream : UpstreamStore) (downstream : DownstreamStore E)
    (history : Uuid → String → UnixMs → List DataTime) where
  -- Fed with the frames that the upstream sends, the downstream does what saving the batches does.
  recv_missing-saved :
      (latest : List (String × List (String × ℤ))) (permissions : UuidStringsMap) (s : Peer D)
      (t : Peer E)
      → ((id : Uuid) → (codec.show_uuid id == "") ≡ false)
      → ((id : Uuid) → codec.parse_uuid (codec.show_uuid id) ≡ some id)
      → ((id : Uuid) (name : String) (after : UnixMs)
          → upstream.get_data_history id name after ≡ ok (history id name after))
      → s.faults ≡ []
      → (save_all codec downstream (map points_of (missing history codec latest permissions)) t).0
        ≡ ok tt
      → recv_missing codec downstream
          (handle_miss_data_sync codec upstream
            (some permissions)
            (record s { inbox = stations_items_latest (some latest) ∷ []; outbox = [] })).1.outbox
          t
        ≡ (
          ok tt,
          record (save_all codec downstream
              (map points_of (missing history codec latest permissions))
              t).1 { inbox = [] },
        )
  recv_missing-saved latest permissions s t named parse-show reads calm saved =
      let hs = missing history codec latest permissions in
      ap (λ out. recv_missing codec downstream out.1.outbox t)
        (handle_miss_data_sync-missing codec upstream history reads latest permissions []
          (record s { outbox = [] }) calm)
      ∙ ap (λ frames. recv_missing codec downstream (frames ++ end_of_data ∷ []) t)
          (frames_agree codec hs)
      ∙ recv_missing-save_all codec downstream named parse-show (map points_of hs) [] t saved

-- The loop has ended well, nothing waits, each place has the value that it had or else the first that
-- is brought for it, and the new points were told of, in order.
abbrev pub HasTaken : List Arrival → Peer Database → Result {0} Unit × Peer Database → Type 0
HasTaken brings t (r, t') =
    ((r ≡ ok tt) × (t'.inbox ≡ []))
    × (((station : Uuid) (item : String) (at : UnixMs)
          → stored t'.store station item at
            ≡ kept_or (stored t.store station item at) (brought brings station item at))
        × (t'.notices ≡ t.notices ++ map told_missing (fresh t.store [] brings)))

-- Let UUIDs read back from their texts, which are not empty, let the upstream's readings and its sends
-- succeed, and let the names of the items be legal for tables. Then, fed with the very frames that the
-- upstream sends in answer to the latest times of the downstream, the downstream's loop over its
-- database ends without an error and leaves no frame, and of the upstream's histories after these times,
-- of the permitted items, at each place it has the value that it had before, or else the first that is
-- sent for it, and it has published, in order and each once, exactly the points that it did not have.
pub recv_missing-handle_miss_data_sync :
    {D : Type 0} (codec : Codec) (upstream : UpstreamStore) (other : DownstreamStore Database)
    (history : Uuid → String → UnixMs → List DataTime) (latest : List (String × List (String × ℤ)))
    (permissions : UuidStringsMap) (s : Peer D) (t : Peer Database)
    → ((id : Uuid) → (codec.show_uuid id == "") ≡ false)
    → ((id : Uuid) → codec.parse_uuid (codec.show_uuid id) ≡ some id)
    → ((id : Uuid) (name : String) (after : UnixMs)
        → upstream.get_data_history id name after ≡ ok (history id name after))
    → s.faults ≡ []
    → AllLegal (arrivals (map points_of (missing history codec latest permissions)))
    → let sent =
        (handle_miss_data_sync codec upstream
          (some permissions)
          (record s { inbox = stations_items_latest (some latest) ∷ []; outbox = [] })).1.outbox in
      let brings = arrivals (map points_of (missing history codec latest permissions)) in
      HasTaken brings t (recv_missing codec (db_downstream_store other) sent t)
recv_missing-handle_miss_data_sync codec upstream other history latest permissions s t named
      parse-show reads calm legal =
    let ms = map points_of (missing history codec latest permissions) in
    let f : Finished t.store [] (arrivals ms) t (save_all codec (db_downstream_store other) ms t) =
      save_all-Finishes t.store codec other ms [] legal t (λ station item at. refl) in
    subst (HasTaken (arrivals ms) t)
      (sym (
        recv_missing-saved codec upstream (db_downstream_store other) history latest permissions s t
          named parse-show reads calm f.works))
      ((refl, refl), (f.saves.holds, f.saves.told))
