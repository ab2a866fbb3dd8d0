-- ===== src/Hub/Availability/Listed.antt =====
-- Which items the hub of tide_server/controller/sync_hub.go lists for a user.
use tidegauge_backend.Prelude.{
  String, ◌≡◌, refl, ◌∙◌, ap, sym, inl, inr, Bool, true, false, ◌&&◌, Option, none, some, List, [],
  ◌∷◌, ◌++◌, append-nil, append_assoc, ◌==◌, nat_keys, lookup, insert, lookup-insert, if◌then◌else◌,
  Bool-cases,
}
use tidegauge_backend.Types.{Uuid, UuidStringsMap, StationItem, station_item_keys}
use tidegauge_backend.PubSub.{Topics}
use tidegauge_backend.Relay.Upstream.Frames.{append_name, is_permitted}
use tidegauge_backend.Hub.Availability.{filter_items}

abbrev pub or_no_names : Option (List String) → List String
or_no_names none = []
or_no_names (some names) = names

-- The names that are listed under a station.
abbrev pub names_at : Uuid → UuidStringsMap → List String
names_at id m = or_no_names (lookup id m)

-- The names of the permitted items of a station, in the order of the items.
abbrev pub permitted_at : Uuid → Topics StationItem → List StationItem → List String
permitted_at id allowed [] = []
permitted_at id allowed (si ∷ rest) =
    let more = permitted_at id allowed rest in
    if is_permitted allowed si && si.station_id == id then si.item_name ∷ more else more

append_name_lem :
    (o : Option (List String)) (name : String) → append_name o name ≡ or_no_names o ++ name ∷ []
append_name_lem none name = refl
append_name_lem (some names) name = refl

or_no_names-if :
    (b : Bool) (names : List String) (o : Option (List String))
    → or_no_names (if b then some names else o) ≡ (if b then names else or_no_names o)
or_no_names-if true names o = refl
or_no_names-if false names o = refl

names_at-insert :
    (id j : Uuid) (name : String) (m : UuidStringsMap)
    → names_at j (insert id (append_name (lookup id m) name) m)
      ≡ (if id == j then names_at id m ++ name ∷ [] else names_at j m)
names_at-insert id j name m =
    ap or_no_names (lookup-insert id j (append_name (lookup id m) name) m)
    ∙ or_no_names-if (id == j) (append_name (lookup id m) name) (lookup j m)
    ∙ rw append_name_lem refl

names_at-filter_items :
    (id : Uuid) (allowed : Topics StationItem) (sis : List StationItem) (m : UuidStringsMap)
    → names_at id (filter_items allowed m sis) ≡ names_at id m ++ permitted_at id allowed sis
unfolding filter_items
names_at-filter_items id allowed [] m = sym (append-nil (names_at id m))
names_at-filter_items id allowed (si ∷ rest) m = elim (Bool-cases (is_permitted allowed si)) [
  | inr out ↦ rw out (names_at-filter_items id allowed rest m)
  | inl permitted ↦
      let m' : UuidStringsMap =
        insert si.station_id (append_name (lookup si.station_id m) si.item_name) m in
      let ih : names_at id (filter_items allowed m' rest)
          ≡ names_at id m' ++ permitted_at id allowed rest =
        names_at-filter_items id allowed rest m' in
      rw permitted (elim (Bool-cases (si.station_id == id)) [
        | inr other ↦
            let e : names_at id m' ≡ names_at id m =
              names_at-insert si.station_id id si.item_name m ∙ rw other refl in
            rw other (ih ∙ rw e refl)
        | inl same ↦
            let i : si.station_id ≡ id = (nat_keys.beq_iff si.station_id id).0 same in
            let e : names_at id m' ≡ names_at si.station_id m ++ si.item_name ∷ [] =
              names_at-insert si.station_id id si.item_name m ∙ rw same refl in
            let e' : names_at id m' ≡ names_at id m ++ si.item_name ∷ [] = e ∙ rw i refl in
            rw same (
              ih
              ∙ ap (λ (l : List String). l ++ permitted_at id allowed rest) e'
              ∙ append_assoc (names_at id m) (si.item_name ∷ []) (permitted_at id allowed rest))
      ])
]

-- Under each station the hub lists exactly the available items of this station that the user is
-- permitted, each as often as it is available and in that order.
pub filter_items-permitted :
    (id : Uuid) (allowed : Topics StationItem) (sis : List StationItem)
    → names_at id (filter_items allowed [] sis) ≡ permitted_at id allowed sis
filter_items-permitted id allowed sis = names_at-filter_items id allowed sis []
