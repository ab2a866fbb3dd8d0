-- ===== src/Examples/Syncs.antt =====
-- The theorems on the sync of a station's information at a concrete station.
use mathlib.Core.Path.{subst, sym}
use tidegauge_backend.Prelude.{
  String, List, [], ◌∷◌, some, ◌≡◌, refl, inl, inr, Bool-cases, lookup, ◌==◌, string_keys,
}
use tidegauge_backend.Types.{StationInfo, UuidStringsMap, StationItem, station_item_keys}
use tidegauge_backend.Relay.Convert.{uuid_strings_map_to_topics}
use tidegauge_backend.Exec.{Result, ok, pure, ◌>>=◌}
use tidegauge_backend.Db.{contains_illegal_character}
use tidegauge_backend.Sync.{
  Config, ItemInfo, statement, device_names, get_devices, item_rows, get_items, edit_device,
  devices_left, items_left, del_device, del_item, edit_item, sync_station_cannot_edit, call,
}
use tidegauge_backend.Sync.StationInfo.{
  unmarked, by_name, put_items, new_items, named, add_or_mark, add_devices, del_devices, del_items,
  edit_items, cameras_call, sync_cameras, sync_station_info,
}
use tidegauge_backend.Sync.Edited.{row, Differs}
use tidegauge_backend.Sync.Reflected.{sync_station_info-reflected}
use tidegauge_backend.Sync.Available.{
  Availability, transaction, old_items, add_available, remove_available, add_new, remove_old,
  update_available_items,
}
use tidegauge_backend.Sync.Available.Updated.{Updated, Outcome, update_available_items-available}

-- The gauge was replaced: its device is new, and the temperature is no more.
abbrev new_gauge : StationInfo
new_gauge = record {
  identifier = "tide1";
  devices = ("radar", ("water", "level") ∷ []) ∷ [];
  cameras = [];
}

abbrev old_config : Config
old_config = record {
  devices = named 4 "float" ∷ [];
  items =
      (named 4 "level", record { type_name = "water"; device_name = "float" })
      ∷ (named 4 "temp", record { type_name = "air"; device_name = "float" })
      ∷ [];
  cameras = (4, "null") ∷ [];
  faults = [];
  calls = [];
}

abbrev no_cameras : List String → Result String
no_cameras cs = ok "[]"

level_radar :
    (n : String) (i : ItemInfo)
    → "level" ≡ n
    → lookup n (new_items new_gauge.devices []) ≡ some i
    → record { type_name = "water"; device_name = "radar" } ≡ i
unfolding new_items put_items
level_radar n i e at =
    let h : lookup "level" (new_items new_gauge.devices []) ≡ some i =
      subst (λ m. lookup m (new_items new_gauge.devices []) ≡ some i) (sym e) at in
    let r : ItemInfo = record { type_name = "water"; device_name = "radar" } in
    let g : some r ≡ some i = h in cc

new_gauge-Differs : Differs (new_items new_gauge.devices [])
unfolding new_items put_items
new_gauge-Differs n i at = elim (Bool-cases ("level" == n)) [
  | inl same ↦
      let e : "level" ≡ n = (string_keys.beq_iff "level" n).0 same in
      let found : record { type_name = "water"; device_name = "radar" } ≡ i =
        level_radar n i e at in
      rw (← e) (rw (← found) refl)
  | inr other ↦ absurd (cc (rw other at at))
]

new_gauge_synced : (sync_station_info 4 no_cameras new_gauge old_config).0 ≡ ok tt
unfolding sync_station_info ◌>>=◌ get_devices statement get_items add_devices unmarked device_names
    add_or_mark edit_device call del_devices del_device devices_left items_left del_items by_name
    item_rows new_items put_items del_item contains_illegal_character pure edit_items edit_item
    sync_cameras sync_station_cannot_edit cameras_call
new_gauge_synced = refl

sync_station_info-reflected_example :
    row 4 (sync_station_info 4 no_cameras new_gauge old_config).1 "level"
    ≡ lookup "level" (new_items new_gauge.devices [])
sync_station_info-reflected_example =
    sync_station_info-reflected 4 no_cameras new_gauge old_config new_gauge-Differs new_gauge_synced
      "level"

-- The upstream 7 gave the water level of station 4, and gives the temperature instead.
abbrev level : StationItem
level = record { station_id = 4; item_name = "level" }

abbrev temp : StationItem
temp = record { station_id = 4; item_name = "temp" }

abbrev table : Availability
table = record {
  items = (level, 0 ∷ 7 ∷ []) ∷ (temp, 0 ∷ []) ∷ [];
  upstream_stations = (7, 4) ∷ [];
  faults = [];
}

abbrev permitted : UuidStringsMap
permitted = (4, "temp" ∷ []) ∷ []

table_updated : (update_available_items 7 permitted table).0 ≡ ok 2
unfolding update_available_items uuid_strings_map_to_topics transaction ◌>>=◌
    tidegauge_backend.Sync.Available.statement add_new mathlib.Core.List.flat_map old_items
    add_available remove_old remove_available
table_updated = refl

update_available_items-available_example :
    Outcome
      (Updated 7 (uuid_strings_map_to_topics permitted) table)
      table.items
      (update_available_items 7 permitted table)
update_available_items-available_example =
    update_available_items-available 7 permitted table (refl, (refl, record {}))
