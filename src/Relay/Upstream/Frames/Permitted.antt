-- ===== src/Relay/Upstream/Frames/Permitted.antt =====
-- A downstream is told of no item outside its permissions.
use tidegauge_backend.Prelude.{
  String, List, [], ◌∷◌, true, Option, none, some, ◌≡◌, refl, contains, lookup, insert, ◌==◌,
  string_keys, All, All-append, Bool-cases, inl, inr, lookup-insert,
}
use mathlib.Core.Path.{subst}
use tidegauge_backend.Types.{StationItem, station_item_keys}
use tidegauge_backend.Relay.{Codec}
use tidegauge_backend.Relay.Upstream.Frames.{append_name, stations_map}

-- The named item of the station with that text is among the topics.
abbrev pub IsTopic : Codec → List StationItem → String → String → Type 0
IsTopic codec topics key name =
    (si : StationItem) × ((contains si topics ≡ true)
      × (codec.show_uuid si.station_id ≡ key)
      × (si.item_name ≡ name))

abbrev pub AllTopics : Codec → List StationItem → String → Option (List String) → Type 0
AllTopics codec topics key none = Unit
AllTopics codec topics key (some names) = All (IsTopic codec topics key) names

module _ (codec : Codec) (topics : List StationItem) where
  abbrev Good : List (String × List String) → Type 0
  Good m = (key : String) → AllTopics codec topics key (lookup key m)

  append-Good :
      (key name : String) (o : Option (List String))
      → AllTopics codec topics key o
      → IsTopic codec topics key name
      → All (IsTopic codec topics key) (append_name o name)
  append-Good key name none h t = (t, tt)
  append-Good key name (some names) h t =
      All-append (IsTopic codec topics key) names (name ∷ []) h (t, tt)

  insert-Good :
      (key name : String) (m : List (String × List String))
      → Good m
      → IsTopic codec topics key name
      → Good (insert key (append_name (lookup key m) name) m)
  insert-Good key name m h t k =
      rw (lookup-insert key k (append_name (lookup key m) name) m) (elim (Bool-cases (key == k)) [
        | inl e ↦ rw e (
            subst (λ j. All (IsTopic codec topics j) (append_name (lookup key m) name))
              ((string_keys.beq_iff key k).0 e) (append-Good key name (lookup key m) (h key) t))
        | inr e ↦ rw e (h k)
      ])

  stations_map-Good :
      (sis : List StationItem) (m : List (String × List String))
      → Good m
      → Good (stations_map codec (some topics) m sis)
  unfolding stations_map
  stations_map-Good [] m h = h
  stations_map-Good (si ∷ rest) m h = elim (Bool-cases (contains si topics)) [
    | inl e ↦ rw e (
        stations_map-Good rest _
          (insert-Good (codec.show_uuid si.station_id) si.item_name m h (si, (e, refl, refl))))
    | inr e ↦ rw e (stations_map-Good rest m h)
  ]

  -- Whatever items are available, each one that the upstream announces to a user with these topics is
  -- one of the topics, under the text of its station's UUID.
  pub stations_map-AllTopics :
      (sis : List StationItem) (key : String)
      → AllTopics codec topics key (lookup key (stations_map codec (some topics) [] sis))
  stations_map-AllTopics sis key = stations_map-Good sis [] (λ k. tt) key
