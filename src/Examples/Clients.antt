-- ===== src/Examples/Clients.antt =====
-- The theorems on the station client at a concrete link.
use tidegauge_backend.Prelude.{String, List, [], ◌∷◌, false, none, ◌≡◌, refl}
use tidegauge_backend.Prelude.Int.{pos}
use tidegauge_backend.Types.{UnixMs, DataTime, StationInfo, eof}
use tidegauge_backend.Wire.{server_hello, items_latest, status_latest}
use tidegauge_backend.Exec.{ok}
use tidegauge_backend.Client.{Deps, Link}
use tidegauge_backend.Client.Replay.{send_replay_data}
use tidegauge_backend.Client.Replay.Whole.{devices_history, Sent, send_replay_data-Sent}
use tidegauge_backend.Client.Session.{Event, published, broker_closed, run_on_conn}
use tidegauge_backend.Client.Session.Release.{run_on_conn-released}

abbrev one_item : StationInfo
one_item = record {
  identifier = "tide1";
  devices = ("gauge", ("water", "level") ∷ []) ∷ [];
  cameras = [];
}

abbrev two_rows : String → UnixMs → List DataTime
two_rows name t =
    record { value = 100; millisecond = pos 11 } ∷ record { value = 101; millisecond = pos 12 } ∷ []

abbrev deps : Deps
deps = record {
  station_info = one_item;
  get_data_history = λ name t. ok (two_rows name t);
  get_item_status_log_after = λ row. ok [];
  get_camera = none;
  snapshot = none;
}

abbrev link : Link
link = record {
  inbox =
      server_hello "sync-v2" ∷ items_latest (("level", pos 10) ∷ []) ∷ status_latest (pos 0) ∷ [];
  closed = eof;
  faults = [];
  outbox = [];
  subscribed = false;
  ingest_locked = false;
}

abbrev latest : List (String × UnixMs)
latest = ("level", pos 10) ∷ []

send_replay_data-Sent_example :
    Sent (devices_history latest two_rows one_item.devices) link (send_replay_data deps latest link)
send_replay_data-Sent_example =
    send_replay_data-Sent deps latest two_rows (λ name t. refl) link refl

abbrev events : List Event
events = published none ∷ broker_closed ∷ []

run_on_conn-released_example :
    ((run_on_conn "tide1" deps events link).1.ingest_locked ≡ false)
    × ((run_on_conn "tide1" deps events link).1.subscribed ≡ false)
run_on_conn-released_example = run_on_conn-released "tide1" deps events link refl refl
