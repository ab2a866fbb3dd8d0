-- ===== src/Station/StatusBatch.antt =====
-- tide_server/syncv2/station/server.go: `handleItemStatusBatch`.
use tidegauge_backend.Prelude.{String, List, [], ◌∷◌, insert, string_keys, if◌then◌else◌}
use tidegauge_backend.Types.{Uuid, RowIdItemStatus, FullItemStatus}
use tidegauge_backend.Wire.{ItemStatusLog, ItemStatusBatch}
use tidegauge_backend.Exec.{Exec, pure, ◌>>=◌, ◌>>◌}
use tidegauge_backend.Station.{
  StationStore, Session, publish_miss_item_status, publish_update_item_status, on_store, notify,
}
use tidegauge_backend.Station.Server.{pb_to_item_status_log}

-- `latestByItem`: the last log of each item. Go ranges over the map in any order; here the order is
-- that in which the items first occur.
unfoldable pub latest_by_item :
    List (String × RowIdItemStatus) → List ItemStatusLog → List (String × RowIdItemStatus)
unfolding pb_to_item_status_log
latest_by_item m [] = m
latest_by_item m (msg ∷ rest) =
    latest_by_item (insert msg.item_name (pb_to_item_status_log msg) m) rest

abbrev full_status : Uuid → String → RowIdItemStatus → FullItemStatus
full_status id identifier log = record { station_id = id; identifier = identifier; log = log }

module _ {D : Type 0} (store : StationStore D) where
  unfoldable pub update_statuses : Uuid → List (String × RowIdItemStatus) → Exec (Session D) Unit
  update_statuses id [] = pure tt
  update_statuses id ((item_name, v) ∷ rest) = do
    let status = v.item_status
    on_store
        (store.update_item_status id status.item_name status.change.status status.change.changed_at)
    update_statuses id rest

  unfoldable pub save_missed : Uuid → String → List ItemStatusLog → Exec (Session D) Unit
  unfolding pb_to_item_status_log
  save_missed id identifier [] = pure tt
  save_missed id identifier (msg ∷ rest) = do
    let log = pb_to_item_status_log msg
    let status = log.item_status
    inserted ← on_store (
        store.save_item_status_log id log.row_id status.item_name status.change.status
          status.change.changed_at)
    if inserted then notify (publish_miss_item_status (full_status id identifier log)) else pure tt
    save_missed id identifier rest

  unfoldable pub save_updates : Uuid → String → List ItemStatusLog → Exec (Session D) Unit
  unfolding pb_to_item_status_log
  save_updates id identifier [] = pure tt
  save_updates id identifier (msg ∷ rest) = do
    let log = pb_to_item_status_log msg
    let status = log.item_status
    inserted ← on_store (
        store.update_and_save_status_log id log.row_id status.item_name status.change.status
          status.change.changed_at)
    if inserted
        then notify (publish_update_item_status (full_status id identifier log))
        else pure tt
    save_updates id identifier rest

  unfoldable pub handle_item_status_batch : Uuid → String → ItemStatusBatch → Exec (Session D) Unit
  unfolding update_statuses save_missed save_updates latest_by_item
  handle_item_status_batch id identifier batch =
      if batch.replay
      then (update_statuses id (latest_by_item [] batch.logs)
          >> save_missed id identifier batch.logs)
      else save_updates id identifier batch.logs
