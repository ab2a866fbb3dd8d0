-- ===== src/Examples/Gauges.antt =====
-- The theorems on the station's devices and its local database at concrete inputs.
use tidegauge_backend.Prelude.{
  ℕ, ◌*◌, ◌^◌, ◌<◌, ◌≤◌, length, if◌then◌else◌, String, List, [], ◌∷◌, Bool, true, false, none,
  some, ◌≡◌, refl, ◌⊎◌, arith, lookup, string_keys,
}
use tidegauge_backend.Prelude.Int.{pos}
use tidegauge_backend.Types.{StatusChange, UnixMs, eof, timeout}
use tidegauge_backend.Exec.{ok, err, ◌>>=◌}
use tidegauge_backend.Device.Bytes.{Byte}
use tidegauge_backend.Device.Counter.{I2cDev, get_count, set_count, job, location_counter}
use tidegauge_backend.Device.Counter.Rainfall.{
  IsRegisterFile, stored, loaded, get_count-set_count, exact_count, job-exact,
}
use tidegauge_backend.Device.Sdi12.{Line, Bus, mode_native, get_data}
use tidegauge_backend.Device.Sdi12.Finished.{IsOver, IsFinite, get_data-IsOver}
use tidegauge_backend.Gauge.Disk.{FileInfo, DirInfo, Entries, no_more, a_file, a_dir, clean_dir}
use tidegauge_backend.Gauge.Disk.Cleaned.{files_of, survivors, clean_dir-survivors}
use tidegauge_backend.Gauge.Receive.{ItemData, Ingest, receive_data, load_statuses}
use tidegauge_backend.Gauge.Recorded.{IsRecorded, receive_data-IsRecorded}
use tidegauge_backend.Gauge.Restart.{load_statuses-receive_data}

abbrev stores : List Byte → (ℕ → Byte) → ℕ → Byte
stores [] r = r
stores (at ∷ bs) r = stored at bs r

abbrev loads : List Byte → ℕ → (ℕ → Byte) → List Byte
loads [] n r = []
loads (at ∷ _) n r = loaded at n r

-- A chip that is its registers.
abbrev chip : I2cDev (ℕ → Byte)
chip = record { tx = λ bs n r. (ok (loads bs n r), r); write = λ bs r. (ok tt, stores bs r) }

chip-IsRegisterFile : IsRegisterFile chip (λ r. r)
chip-IsRegisterFile = record {
  tx_reads = λ at n r. refl;
  tx_keeps = λ at n r. refl;
  write_accepts = λ at bs r. refl;
  write_stores = λ at bs r. refl;
}

get_count-set_count_example :
    (set_count chip 123456 >>= (λ _. get_count chip)) (λ j. 0)
    ≡ (ok 123456, (chip.tx (location_counter ∷ []) 3 (set_count chip 123456 (λ j. 0)).1).1)
get_count-set_count_example =
    get_count-set_count chip (λ r. r) chip-IsRegisterFile 123456 (λ j. 0) (omega arith)

job-exact_example :
    ((job chip true (λ j. 0x99)).0 ≡ ok none)
    ⊎ ((bytes : List Byte) × ((chip.tx (location_counter ∷ []) 3 (λ j. 0x99)).0 ≡ ok bytes)
        × ((job chip true (λ j. 0x99)).0 ≡ ok (some (exact_count bytes * 2)))
        × (exact_count bytes * 2 < 2 ^ 31))
job-exact_example = job-exact chip true (λ j. 0x99)

-- A sensor that answers each command with one value: whether the value still waits.
abbrev one_value : Line Bool
one_value = record {
  reset_input_buffer = λ d. (ok tt, d);
  write = λ text bytes d. (ok tt, true);
  discard = λ n d. (ok tt, d);
  peek = λ d. (ok (if d then 43 else 13), d);
  scan_float = λ d. (if d then ok 7 else err timeout, false);
  scan_output = λ output d. (ok tt, d);
}

abbrev values_left : Bool → ℕ
values_left d = if d then 1 else 0

one_value-IsFinite : IsFinite one_value values_left
one_value-IsFinite = record { peek_lem = λ d. omega arith; scan_lem = scanned }
  where
    scanned :
        (d : Bool) (f : ℕ)
        → (one_value.scan_float d).0 ≡ ok f
        → values_left (one_value.scan_float d).1 < values_left d
    scanned true f h = omega arith
    scanned false f h = absurd (cc h)

values_left-bounded : (d : Bool) → values_left d ≤ 1
values_left-bounded true = omega arith
values_left-bounded false = omega arith

abbrev free_bus : Bus Bool
free_bus = record { line = false; locked = false; slept = 0 }

get_data-IsOver_example :
    IsOver (λ vs. length vs ≡ 2) (get_data one_value mode_native 500 2 "0" 0 2 free_bus).0
    × ((get_data one_value mode_native 500 2 "0" 0 2 free_bus).1.locked ≡ false)
get_data-IsOver_example =
    get_data-IsOver one_value values_left one_value-IsFinite mode_native 500 1 values_left-bounded 2
      "0" 0 2 free_bus (omega arith)

-- Nothing is measured yet.
abbrev empty_ingest : Ingest
empty_ingest = record {
  db = record { tables = ("level", []) ∷ []; status_log = []; faults = [] };
  items_status = [];
  published = [];
}

abbrev faulty_ingest : Ingest
faulty_ingest = record empty_ingest {
  db = record { tables = ("level", []) ∷ []; status_log = []; faults = none ∷ some eof ∷ [] };
}

abbrev two_measured : List (ItemData × UnixMs)
two_measured =
    (record { at = pos 5; typ = 0; item_name = "level"; value = some 100 }, pos 6)
    ∷ (record { at = pos 0; typ = 0; item_name = "level"; value = none }, pos 8)
    ∷ []

receive_data-IsRecorded_example :
    ((receive_data two_measured faulty_ingest).0 ≡ ok tt)
    × IsRecorded faulty_ingest (receive_data two_measured faulty_ingest).1
receive_data-IsRecorded_example = receive_data-IsRecorded two_measured faulty_ingest

load_statuses-receive_data_example :
    (m : List (String × StatusChange)) × ((load_statuses
        (receive_data two_measured empty_ingest).1.db).0
      ≡ ok m)
    × ((name : String)
        → lookup name m ≡ lookup name (receive_data two_measured empty_ingest).1.items_status)
load_statuses-receive_data_example =
    load_statuses-receive_data two_measured empty_ingest
      (record { works = refl; agrees = λ name. refl })

abbrev old_file : FileInfo
old_file = record { mod_time = pos 5; readable = true; removable = true }

abbrev new_file : FileInfo
new_file = record { mod_time = pos 50; readable = true; removable = true }

abbrev open_dir : DirInfo
open_dir = record { listable = true; removable = true }

-- Two days under a camera: the first has only an old file and goes with it.
abbrev pictures : Entries
pictures =
    a_dir "cam" open_dir
      (a_dir "monday" open_dir (a_file "a.jpg" old_file no_more) (
        a_dir "tuesday" open_dir (a_file "b.jpg" new_file (a_file "c.jpg" old_file no_more))
          no_more))
      no_more

clean_dir-survivors_example :
    (e' : Entries) × (clean_dir 1 (pos 10) 0 open_dir pictures ≡ some e')
    × (files_of true [] e' ≡ survivors (pos 10) (files_of true [] pictures))
clean_dir-survivors_example =
    clean_dir-survivors 1 (pos 10) 0 open_dir [] pictures (omega arith) refl
