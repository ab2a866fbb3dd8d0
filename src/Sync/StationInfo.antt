-- ===== src/Sync/StationInfo.antt =====
-- tide_server/controller/station_sync_func.go: `SyncStationInfo`, which makes the configuration of a
-- station what the station says. Its `false` is an error here.
use tidegauge_backend.Prelude.{
  ℕ, ◌+◌, String, List, [], ◌∷◌, Bool, true, false, not, ◌||◌, Option, none, some, lookup, insert,
  string_keys, ltb, ◌==◌, if◌then◌else◌,
}
use tidegauge_backend.Prelude.Int.{pos}
use tidegauge_backend.Types.{Uuid, StationInfo}
use tidegauge_backend.Exec.{Exec, Result, ok, err, pure, ◌>>=◌, ◌>>◌}
use tidegauge_backend.Relay.{Device, station_body, device_body, item_body}
use tidegauge_backend.Sync.{
  Named, ItemInfo, Config, HubCall, publish_config, broadcast_add_items, get_devices, get_items,
  edit_device, del_device, del_item, edit_item, sync_station_cannot_edit, call,
}

abbrev pub OldDevices : Type 0
OldDevices = List (String × Bool)

abbrev pub ItemInfos : Type 0
ItemInfos = List (String × ItemInfo)

-- `oldDevices[device.Name] = false`, for each.
unfoldable pub unmarked : List String → OldDevices → OldDevices
unmarked [] m = m
unmarked (name ∷ rest) m = unmarked rest (insert name false m)

-- `oldItems[item.Name] = item`, for each.
unfoldable pub by_name : ItemInfos → ItemInfos → ItemInfos
by_name [] m = m
by_name ((name, i) ∷ rest) m = by_name rest (insert name i m)

-- The items of one device, and then of all, into `newItems`.
unfoldable pub put_items : String → List (String × String) → ItemInfos → ItemInfos
put_items device_name [] m = m
put_items device_name ((item_type, item_name) ∷ rest) m =
    put_items device_name rest
      (insert item_name (record { type_name = item_type; device_name = device_name }) m)

unfoldable pub new_items : List (String × List (String × String)) → ItemInfos → ItemInfos
new_items [] m = m
new_items ((device_name, items) ∷ rest) m = new_items rest (put_items device_name items m)

abbrev pub named : Uuid → String → Named
named station_id name = record { station_id = station_id; name = name }

abbrev pub sync_item_call : Uuid → String → ItemInfo → HubCall
sync_item_call station_id name i = publish_config "SyncItem" (
    item_body (record {
      station_id = station_id;
      name = name;
      type_name = i.type_name;
      device_name = i.device_name;
      status = "";
      status_changed_at = pos 0;
      available = false;
    }))

-- The guard of an edit. The code compares the old item's name, which is the key, with the device.
abbrev pub changed : String → Option ItemInfo → ItemInfo → Bool
changed name none i = true
changed name (some old) i = not (name == i.device_name) || not (old.type_name == i.type_name)

abbrev pub is_none : Option ItemInfo → Bool
is_none none = true
is_none (some _) = false

-- `db.Device{StationId: stationId, Name: deviceName}`.
abbrev bare_device : Uuid → String → Device
bare_device station_id name = record {
  station_id = station_id;
  name = name;
  specs = "";
  last_maintenance = pos 0;
}

module _ (station_id : Uuid) where
  -- The body of the loop over the devices: `oldDevices` after it.
  unfoldable pub add_or_mark : String → OldDevices → Option Bool → Exec Config OldDevices
  add_or_mark name old (some _) = pure (insert name true old)
  add_or_mark name old none = do
    edit_device (named station_id name)
    call (publish_config "SyncDevice" (device_body (bare_device station_id name)))
    pure old

  unfoldable pub add_devices :
      List (String × List (String × String)) → OldDevices → Exec Config OldDevices
  unfolding add_or_mark
  add_devices [] old = pure old
  add_devices ((name, items) ∷ rest) old = do
    old' ← add_or_mark name old (lookup name old)
    add_devices rest old'

  unfoldable pub del_devices : OldDevices → Exec Config Unit
  del_devices [] = pure tt
  del_devices ((name, keep) ∷ rest) = do
    if keep then pure tt else (do
      del_device (named station_id name)
      call (publish_config "DelDevice" (device_body (bare_device station_id name))))
    del_devices rest

  unfoldable pub del_items : ItemInfos → ItemInfos → Exec Config Unit
  del_items fresh [] = pure tt
  del_items fresh ((name, old) ∷ rest) = do
    if is_none (lookup name fresh)
        then (do
          del_item (named station_id name)
          call (
              publish_config "DelItem" (
                item_body (record {
                  station_id = station_id;
                  name = name;
                  type_name = "";
                  device_name = "";
                  status = "";
                  status_changed_at = pos 0;
                  available = false;
                }))))
        else pure tt
    del_items fresh rest

  -- The loop over the new items: how many of them are new.
  unfoldable pub edit_items : ItemInfos → ItemInfos → Exec Config ℕ
  edit_items old [] = pure 0
  edit_items old ((name, i) ∷ rest) = do
    if changed name (lookup name old) i
        then (do edit_item (named station_id name) i; call (sync_item_call station_id name i))
        else pure tt
    n ← edit_items old rest
    pure (if is_none (lookup name old) then 1 + n else n)

  unfoldable pub cameras_call : String → Bool → Exec Config Unit
  cameras_call cameras false = pure tt
  cameras_call cameras true = call (
      publish_config "SyncStationCannotEdit" (
        station_body (record {
          id = station_id;
          identifier = "";
          name = "";
          ip_addr = "";
          location = "";
          partner = "";
          cameras = cameras;
          status = "";
          status_changed_at = pos 0;
          upstream = false;
        })))

  unfoldable pub sync_cameras : Result String → Exec Config Unit
  unfolding cameras_call
  sync_cameras (err e) c = (err e, c)
  sync_cameras (ok cameras) c =
      (do n ← sync_station_cannot_edit station_id cameras; cameras_call cameras n) c

  -- `json.Marshal` of the cameras is an argument.
  unfoldable pub sync_station_info : (List String → Result String) → StationInfo → Exec Config Unit
  unfolding sync_cameras cameras_call
  sync_station_info write_cameras info = do
    names ← get_devices station_id
    rows ← get_items station_id
    let old_items = by_name rows []
    let fresh = new_items info.devices []
    old ← add_devices info.devices (unmarked names [])
    del_devices old
    del_items fresh old_items
    n ← edit_items old_items fresh
    if ltb 0 n then call broadcast_add_items else pure tt
    sync_cameras (write_cameras info.cameras)
