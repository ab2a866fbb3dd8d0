-- ===== src/Station/Refused.antt =====
-- Sessions of tide_server/syncv2/station/server.go that are not accepted.
use tidegauge_backend.Prelude.{
  ℕ, String, List, [], ◌∷◌, false, none, some, string_keys, nat_keys, ◌≡◌, refl, lookup, ◌==◌, ◌⊎◌,
  inl, inr, Bool-cases, Option-cases,
}
use tidegauge_backend.Types.{Uuid, UnixMs, Error, StationInfo}
use tidegauge_backend.Wire.{StationMessage, client_hello, ClientHello}
use tidegauge_backend.Text.{trim_space}
use tidegauge_backend.Exec.{Exec, Result, Result-cases, ok, err, raise, pure, ◌>>=◌, wrapping}
use tidegauge_backend.Db.{Database}
use tidegauge_backend.Db.Stations.{get_local_station_id_by_identifier}
use tidegauge_backend.Station.{Session, on_store, recv, received}
use tidegauge_backend.Station.Server.{recv_hello, check_hello, load_or_store, loaded_or_stored}
use tidegauge_backend.Station.Stream.{register, stream_station}
use tidegauge_backend.Station.DbStore.{db_store}

-- The first frame names a station of the database that no other session serves.
abbrev pub Accepted : Session Database → Type 0
Accepted s =
    (hello : ClientHello) × (rest : List StationMessage) × (id : Uuid) × ((s.inbox
        ≡ client_hello (some hello) ∷ rest)
      × ((trim_space hello.station_identifier == "") ≡ false)
      × ((get_local_station_id_by_identifier hello.station_identifier s.store).0 ≡ ok id)
      × (lookup id s.registry ≡ none))

-- An error, and nothing sent, published, written or registered.
abbrev pub Refused : Session Database → Result {0} Unit × Session Database → Type 0
Refused s r =
    ((e : Error) × (r.0 ≡ err e))
    × (r.1.outbox ≡ s.outbox)
    × (r.1.notices ≡ s.notices)
    × (r.1.store ≡ s.store)
    × (r.1.registry ≡ s.registry)

hello-cases :
    (m : StationMessage)
    → ((hello : ClientHello) × (m ≡ client_hello (some hello)))
      ⊎ ((e : Error) × ((s : Session Database) → check_hello m s ≡ (err e, s)))
unfolding check_hello raise
hello-cases (client_hello (some hello)) = inl (hello, refl)
hello-cases _ = inr (_, λ s. refl)

module _ (sync : Uuid → StationInfo → Exec Database Unit) (conn : ℕ) (now later : UnixMs)
    (addr : String) where
  -- After the hello.
  named :
      (hello : ClientHello) (rest : List StationMessage) (s : Session Database)
      → s.inbox ≡ client_hello (some hello) ∷ rest
      → (trim_space hello.station_identifier == "") ≡ false
      → Accepted s ⊎ Refused s (stream_station (db_store sync) conn now later addr s)
  unfolding stream_station recv_hello check_hello ◌>>=◌ recv received on_store wrapping pure raise
      register load_or_store loaded_or_stored get_local_station_id_by_identifier
  named hello rest s h full =
      elim (Result-cases (get_local_station_id_by_identifier hello.station_identifier s.store).0) [
        | inl (x, e) ↦ inr (rw (h, full, e) ((_, refl), refl, refl, refl, refl))
        | inr (id, e) ↦ elim (Option-cases (lookup id s.registry)) [
          | inl free ↦ inl (hello, rest, id, (h, full, e, free))
          | inr (other, taken) ↦ inr (rw (h, full, e, taken) ((_, refl), refl, refl, refl, refl))
        ]
      ]

  greeted :
      (m : StationMessage) (rest : List StationMessage) (s : Session Database)
      → s.inbox ≡ m ∷ rest
      → Accepted s ⊎ Refused s (stream_station (db_store sync) conn now later addr s)
  unfolding stream_station recv_hello ◌>>=◌ recv received
  greeted m rest s h = elim (hello-cases m) [
    | inr (x, e) ↦ inr (rw (h, e) ((_, refl), refl, refl, refl, refl))
    | inl (hello, e) ↦ elim (Bool-cases (trim_space hello.station_identifier == "")) [
      | inr full ↦ named hello rest s (rw e at h) full
      | inl blank ↦ inr (unfold check_hello in rw (h, e, blank) ((_, refl), refl, refl, refl, refl))
    ]
  ]

  silent :
      (s : Session Database)
      → s.inbox ≡ []
      → Refused s (stream_station (db_store sync) conn now later addr s)
  unfolding stream_station recv_hello ◌>>=◌ recv received
  silent s h = rw h ((_, refl), refl, refl, refl, refl)

  -- A session whose first frame is not a hello with the identifier,
  -- which is not blank, of a station of the database that
  -- no other session serves ends with an error: nothing is sent and nothing is published, and the
  -- database and the registry are as before.
  pub stream_station-refused :
      (s : Session Database)
      → Accepted s ⊎ Refused s (stream_station (db_store sync) conn now later addr s)
  stream_station-refused s = go s.inbox refl
    where
      go :
          (l : List StationMessage)
          → s.inbox ≡ l
          → Accepted s ⊎ Refused s (stream_station (db_store sync) conn now later addr s)
      go [] h = inr (silent s h)
      go (m ∷ rest) h = greeted m rest s h
