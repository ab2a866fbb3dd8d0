-- ===== src/Gauge/Disk/Cleaned.antt =====
-- Which files `cleanDir` of tide_client/controller/disk_clean.go removes.
use tidegauge_backend.Prelude.{
  ℕ, suc, ◌≤◌, String, ◌≡◌, refl, ◌∙◌, sym, ap, inl, inr, Bool, true, false, ◌&&◌, Option, none,
  some, List, [], ◌∷◌, ◌++◌, arith, ltb, if◌then◌else◌, Bool-cases,
}
use tidegauge_backend.Types.{UnixMs}
use tidegauge_backend.Gauge.Disk.{
  FileInfo, DirInfo, Entries, no_more, a_file, a_dir, is_dir_empty, goes, after_loop, keep_dir,
  clean_entries, clean_dir,
}

-- A file: its path from the bottom up, and whether every directory on it can be read.
pub record FileAt : Type 0 where
  pub path : List String
  pub reached : Bool
  pub info : FileInfo

abbrev pub files_of : Bool → List String → Entries → List FileAt
files_of reached path no_more = []
files_of reached path (a_file name info rest) =
    record { path = name ∷ path; reached = reached; info = info } ∷ files_of reached path rest
files_of reached path (a_dir name info inner rest) =
    files_of (reached && info.listable) (name ∷ path) inner ++ files_of reached path rest

-- The files that stay: those that cannot be reached or removed, and the new ones.
abbrev pub survivors : UnixMs → List FileAt → List FileAt
survivors cutoff [] = []
survivors cutoff (f ∷ fs) =
    let rest = survivors cutoff fs in if f.reached && goes cutoff f.info then rest else f ∷ rest

survivors-append :
    (cutoff : UnixMs) (xs ys : List FileAt)
    → survivors cutoff (xs ++ ys) ≡ survivors cutoff xs ++ survivors cutoff ys
survivors-append cutoff [] ys = refl
survivors-append cutoff (f ∷ xs) ys = elim (Bool-cases (f.reached && goes cutoff f.info)) [
  | inl gone ↦ rw gone (survivors-append cutoff xs ys)
  | inr kept ↦ rw kept (ap (λ (l : List FileAt). f ∷ l) (survivors-append cutoff xs ys))
]

survivors-unreached :
    (cutoff : UnixMs) (path : List String) (e : Entries)
    → survivors cutoff (files_of false path e) ≡ files_of false path e
survivors-unreached cutoff path no_more = refl
survivors-unreached cutoff path (a_file name info rest) =
    ap (λ (l : List FileAt). record { path = name ∷ path; reached = false; info = info } ∷ l)
      (survivors-unreached cutoff path rest)
survivors-unreached cutoff path (a_dir name info inner rest) =
    survivors-append cutoff (files_of false (name ∷ path) inner) (files_of false path rest)
    ∙ rw (survivors-unreached cutoff (name ∷ path) inner, survivors-unreached cutoff path rest) refl

empty_dir : (e : Entries) → is_dir_empty e ≡ true → e ≡ no_more
empty_dir no_more h = refl
empty_dir (a_file _ _ _) h = absurd (cc h)
empty_dir (a_dir _ _ _ _) h = absurd (cc h)

-- What is left of a directory shows the files of the list.
abbrev Shows : Bool → List String → List FileAt → Option Entries → Type 0
Shows reached path files none = files ≡ []
Shows reached path files (some e) = files_of reached path e ≡ files

keep_dir-files :
    (path : List String) (name : String) (info : DirInfo) (files : List FileAt) (o : Option Entries)
    (rest : Entries)
    → Shows info.listable (name ∷ path) files o
    → files_of true path (keep_dir name info o rest) ≡ files ++ files_of true path rest
unfolding keep_dir
keep_dir-files path name info files none rest h = rw h refl
keep_dir-files path name info files (some e) rest h =
    ap (λ (l : List FileAt). l ++ files_of true path rest) h

after_loop-Shows :
    (max_depth depth : ℕ) (info : DirInfo) (path : List String) (files : List FileAt)
    (before after : Entries)
    → (info.listable ≡ true → files_of true path after ≡ files)
    → (info.listable ≡ false → files_of false path before ≡ files)
    → Shows info.listable path files (after_loop max_depth depth info before after)
unfolding after_loop
after_loop-Shows max_depth depth info path files before after h shut =
    elim (Bool-cases info.listable) [
      | inr locked ↦ rw locked (shut locked)
      | inl listed ↦
          elim (Bool-cases (ltb max_depth depth && is_dir_empty after && info.removable)) [
            | inl gone ↦
                let e : after ≡ no_more = empty_dir after (ground arith) in
                rw (listed, gone) (sym (rw e at (h listed)))
            | inr kept ↦ rw (listed, kept) (h listed)
          ]
    ]

module _ (max_depth : ℕ) (cutoff : UnixMs) where
  clean_entries-files :
      (depth : ℕ) (path : List String) (e : Entries)
      → files_of true path (clean_entries max_depth cutoff depth e)
        ≡ survivors cutoff (files_of true path e)
  unfolding clean_entries
  clean_entries-files depth path no_more = refl
  clean_entries-files depth path (a_file name info rest) = elim (Bool-cases (goes cutoff info)) [
    | inl gone ↦ rw gone (clean_entries-files depth path rest)
    | inr kept ↦ rw kept (
        ap (λ (l : List FileAt). record { path = name ∷ path; reached = true; info = info } ∷ l)
          (clean_entries-files depth path rest))
  ]
  clean_entries-files depth path (a_dir name info inner rest) =
      let below : List FileAt = files_of info.listable (name ∷ path) inner in
      let inner' : Entries = clean_entries max_depth cutoff (suc depth) inner in
      let rest' : Entries = clean_entries max_depth cutoff depth rest in
      keep_dir-files path name info (survivors cutoff below)
        (after_loop max_depth (suc depth) info inner inner') rest'
        (after_loop-Shows max_depth (suc depth) info (name ∷ path) (survivors cutoff below) inner
          inner' (λ listed. rw listed (clean_entries-files (suc depth) (name ∷ path) inner))
          (λ locked. rw locked (sym (survivors-unreached cutoff (name ∷ path) inner))))
      ∙ ap (λ (l : List FileAt). survivors cutoff below ++ l) (clean_entries-files depth path rest)
      ∙ sym (survivors-append cutoff below (files_of true path rest))

  -- A directory that is at most as deep as the limit and can be read is never removed itself, and the
  -- files left below it are exactly, each at its place, those that are not older than the cutoff, that
  -- the file system does not let be removed, or that lie in a directory that cannot be read.
  pub clean_dir-survivors :
      (depth : ℕ) (info : DirInfo) (path : List String) (e : Entries)
      → depth ≤ max_depth
      → info.listable ≡ true
      → (e' : Entries) × (clean_dir max_depth cutoff depth info e ≡ some e')
        × (files_of true path e' ≡ survivors cutoff (files_of true path e))
  unfolding clean_dir after_loop
  clean_dir-survivors depth info path e shallow listed =
      let here : ltb max_depth depth ≡ false = ground arith in
      (
        clean_entries max_depth cutoff depth e,
        rw (listed, here) refl,
        clean_entries-files depth path e,
      )
