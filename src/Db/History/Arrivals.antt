-- ===== src/Db/History/Arrivals.antt =====
-- Points that arrive for the tables of item data one after another, as `SaveDataHistory` of
-- tide_server/db/history.go takes them: what is stored of them, and which of them are new.
use tidegauge_backend.Prelude.{
  ℕ, String, List, [], ◌∷◌, ◌++◌, append-nil, append_assoc, Bool, true, false, not, ◌||◌, Option,
  none, some, string_keys, nat_keys, if◌then◌else◌, ◌≡◌, refl, arith, map, Bool-cases, inl, inr,
  ◌∙◌, ltb, sym,
}
use tidegauge_backend.Prelude.Int.{int_keys}
use tidegauge_backend.Types.{Uuid, UnixMs, Float64}
use tidegauge_backend.Wire.{DataPoint}
use tidegauge_backend.Exec.{ok}
use tidegauge_backend.Db.{Database, row_keys}
use tidegauge_backend.Db.History.{save_data_history}
use tidegauge_backend.Db.History.Saved.{
  stored, key_of, same_place, first_of, missing, save_data_history-stored,
}

-- A point for a station.
abbrev pub Arrival : Type 0
Arrival = Uuid × DataPoint

abbrev pub under : Uuid → List DataPoint → List Arrival
under id ps = map (λ p. (id, p)) ps

abbrev pub at_place : Arrival → Uuid → String → UnixMs → Bool
at_place (id, p) station item at =
    same_place p.item_name (key_of id p.unix_ms) item (key_of station at)

-- The value that the points bring for a place: that of the first one there.
abbrev pub brought : List Arrival → Uuid → String → UnixMs → Option Float64
brought [] station item at = none
brought (a ∷ ps) station item at =
    if at_place a station item at then some a.1.value else brought ps station item at

-- A stored value is kept.
abbrev pub kept_or : Option Float64 → Option Float64 → Option Float64
kept_or (some v) o = some v
kept_or none o = o

abbrev pub is_there : Option Float64 → Bool
is_there none = false
is_there (some v) = true

abbrev pub among : List Arrival → Uuid → String → UnixMs → Bool
among [] station item at = false
among (a ∷ ps) station item at = at_place a station item at || among ps station item at

-- The points that are neither stored in `db` nor among the earlier ones.
abbrev pub fresh : Database → List Arrival → List Arrival → List Arrival
fresh db earlier [] = []
fresh db earlier ((id, p) ∷ ps) =
    let rest = fresh db ((id, p) ∷ earlier) ps in
    if among earlier id p.item_name p.unix_ms || is_there (stored db id p.item_name p.unix_ms)
    then rest
    else (id, p) ∷ rest

-- What the save of one point does, and whether it was new.
pub record Round (a : Arrival) (db db' : Database) (new : Bool) : Type 0 where
  pub holds :
      (station : Uuid) (item : String) (at : UnixMs)
      → stored db' station item at
        ≡ kept_or
            (stored db station item at)
            (if at_place a station item at then some a.1.value else none)
  pub news : new ≡ not (is_there (stored db a.0 a.1.item_name a.1.unix_ms))

same_place-stored :
    (a : Arrival) (station : Uuid) (item : String) (at : UnixMs) (db : Database)
    → at_place a station item at ≡ true
    → stored db a.0 a.1.item_name a.1.unix_ms ≡ stored db station item at
unfolding stored
same_place-stored (id, p) station item at db same =
    let i : p.item_name ≡ item = (string_keys.beq_iff p.item_name item).0 (ground arith) in
    let k : key_of id p.unix_ms ≡ key_of station at =
      (row_keys.beq_iff (key_of id p.unix_ms) (key_of station at)).0 (ground arith) in
    rw (i, k) refl

pub save_data_history-Round :
    (id : Uuid) (p : DataPoint) (db : Database) (n : ℕ)
    → (save_data_history id p.item_name p.value p.unix_ms db).0 ≡ ok n
    → Round (id, p) db (save_data_history id p.item_name p.value p.unix_ms db).1 (ltb 0 n)
save_data_history-Round id p db n e =
    let (places, count) = save_data_history-stored id p.item_name p.value p.unix_ms db n e in
    record {
      holds = λ station item at. elim (Bool-cases (at_place (id, p) station item at)) [
        | inr other ↦ places station item at ∙ rw other (unchanged (stored db station item at))
        | inl same ↦
            places station item at
            ∙ rw (same, same_place-stored (id, p) station item at db same)
                (kept (stored db station item at))
      ];
      news = rw count (counted (stored db id p.item_name p.unix_ms));
    }
  where
    unchanged : (o : Option Float64) → o ≡ kept_or o none
    unchanged none = refl
    unchanged (some v) = refl

    kept : (o : Option Float64) → some (first_of o p.value) ≡ kept_or o (some p.value)
    kept none = refl
    kept (some v) = refl

    counted : (o : Option Float64) → ltb 0 (missing o) ≡ not (is_there o)
    counted none = refl
    counted (some v) = refl

-- What saving the points does, seen from a state in which `earlier` was saved since `start`: each
-- place has the value it had, or else the first that is brought for it, and the new points are told
-- of, in order.
pub record Delivered {N : Type 0} (note : Arrival → N) (start : Database)
    (earlier ps : List Arrival) (db : Database) (ns : List N) (db' : Database) (ns' : List N)
    : Type 0 where
  pub holds :
      (station : Uuid) (item : String) (at : UnixMs)
      → stored db' station item at
        ≡ kept_or (stored db station item at) (brought ps station item at)
  pub told : ns' ≡ ns ++ map note (fresh start earlier ps)

-- Which places are taken, where `earlier` was saved since `start`.
abbrev pub Since : Database → List Arrival → Database → Type 0
Since start earlier db =
    (station : Uuid) (item : String) (at : UnixMs)
    → is_there (stored db station item at)
      ≡ (among earlier station item at || is_there (stored start station item at))

module _ {N : Type 0} (note : Arrival → N) (start : Database) where
  pub nothing-Delivered :
      (earlier : List Arrival) (db : Database) (ns : List N)
      → Delivered note start earlier [] db ns db ns
  nothing-Delivered earlier db ns = record {
    holds = λ station item at. same (stored db station item at);
    told = sym (append-nil ns);
  }
    where
      same : (o : Option Float64) → o ≡ kept_or o none
      same none = refl
      same (some v) = refl

  told_more :
      (b : Bool) (old mid new : List N) (a : Arrival) (rest : List Arrival)
      → mid ≡ (if not b then old ++ note a ∷ [] else old)
      → new ≡ mid ++ map note rest
      → new ≡ old ++ map note (if b then rest else a ∷ rest)
  told_more true old mid new a rest h k = rw (k, h)
  told_more false old mid new a rest h k =
      rw (k, h) (append_assoc old (note a ∷ []) (map note rest))

  pub Round-Since :
      (a : Arrival) (earlier : List Arrival) (db db' : Database) (new : Bool)
      → Since start earlier db
      → Round a db db' new
      → Since start (a ∷ earlier) db'
  Round-Since a earlier db db' new since r station item at =
      rw (r.holds station item at)
        (both (stored db station item at) (at_place a station item at) _ _ (since station item at))
    where
      both :
          (o : Option Float64) (b x y : Bool)
          → is_there o ≡ (x || y)
          → is_there (kept_or o (if b then some a.1.value else none)) ≡ ((b || x) || y)
      both none true x y e = refl
      both none false x y e = e
      both (some v) true x y e = refl
      both (some v) false x y e = e

  pub more-Delivered :
      (a : Arrival) (earlier ps : List Arrival) (db db1 db2 : Database) (new : Bool)
      (ns ns1 ns2 : List N)
      → Since start earlier db
      → Round a db db1 new
      → ns1 ≡ (if new then ns ++ note a ∷ [] else ns)
      → Delivered note start (a ∷ earlier) ps db1 ns1 db2 ns2
      → Delivered note start earlier (a ∷ ps) db ns db2 ns2
  more-Delivered (id, p) earlier ps db db1 db2 new ns ns1 ns2 since r first rest = record {
    holds = λ station item at.
        rest.holds station item at
        ∙ rw (r.holds station item at) (
            both (stored db station item at) (at_place (id, p) station item at)
              (brought ps station item at));
    told =
        told_more
          (among earlier id p.item_name p.unix_ms
            || is_there (stored start id p.item_name p.unix_ms))
          ns ns1 ns2 (id, p) (fresh start ((id, p) ∷ earlier) ps)
          (first ∙ rw (r.news, since id p.item_name p.unix_ms) refl) rest.told;
  }
    where
      both :
          (o : Option Float64) (b : Bool) (more : Option Float64)
          → kept_or (kept_or o (if b then some p.value else none)) more
            ≡ kept_or o (if b then some p.value else more)
      both none true more = refl
      both none false more = refl
      both (some v) b more = refl
