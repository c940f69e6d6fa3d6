-- ===== src/Tts/Cache.antt =====
-- internal/tts/cache.go: synthesized audio on disk, found again by what was spoken, and evicted by age
-- and by size.
pub mod Bounded
pub mod Listing
pub mod Evict
pub mod Lookup
pub mod Merges
pub mod Oversized
pub mod Tests
use tgpager.Base.{
  ℕ, zero, suc, ◌+◌, ◌-◌, ◌==◌, Bool, true, false, not, ◌&&◌, ◌||◌, List, [], ◌∷◌, ◌++◌, Option,
  none, some, Bytes, codes, str_eq, has_prefix, length, ℤ, pos, negsuc, ltb, leb, Result, ok, err,
  if◌then◌else◌,
}

-- A file of the cache directory, by its name there; times are nanoseconds.
pub record File : Type 0 where
  pub name : Bytes
  pub is_dir : Bool
  pub size : ℕ
  pub audio : Bytes
  pub used : ℕ

pub record Cache : Type 0 where
  pub dir : Bytes
  pub ttl : ℕ
  pub max_bytes : ℕ

pub data CacheError : Type 0 where
  dir_required : CacheError
  negative_ttl negative_max_bytes : ℤ → CacheError
  not_created : Bytes → CacheError

-- `NewCacheWith`; `made` says whether `os.MkdirAll` succeeds.
unfoldable pub new_cache_with : Bool → Bytes → ℤ → ℤ → Result CacheError Cache
new_cache_with made dir (negsuc t) b =
    if str_eq dir [] then err dir_required else err (negative_ttl (negsuc t))
new_cache_with made dir (pos t) (negsuc b) =
    if str_eq dir [] then err dir_required else err (negative_max_bytes (negsuc b))
new_cache_with made dir (pos t) (pos b) =
    if str_eq dir []
    then err dir_required
    else if made
    then ok (record { dir = dir; ttl = t; max_bytes = b })
    else err (not_created dir)

-- The name of the file; `hash` is the SHA-256 of a text in hexadecimal digits.
unfoldable pub file_name : (Bytes → Bytes) → Bytes → Bytes → Bytes → Bytes
file_name hash fingerprint text format = hash (fingerprint ++ 0 ∷ text) ++ b'.' ∷ format

unfoldable pub find_file : Bytes → List File → Option File
find_file name [] = none
find_file name (f ∷ fs) = if str_eq f.name name then some f else find_file name fs

unfoldable pub without : Bytes → List File → List File
without name [] = []
without name (f ∷ fs) = let rest = without name fs in if str_eq f.name name then rest else f ∷ rest

unfoldable pub touch : Bytes → ℕ → List File → List File
touch name now [] = []
touch name now (f ∷ fs) =
    let rest = touch name now fs in
    if str_eq f.name name then record f { used = now } ∷ rest else f ∷ rest

-- Whether the calls of `os` succeed: listing the directory, and describing, removing and touching a
-- file.
pub record Disk : Type 0 where
  pub lists : Bool
  pub describes : Bytes → Bool
  pub removes : Bytes → Bool
  pub touches : Bytes → Bool

-- How the steps of `Store` end: nil, or the step that fails.
pub data Writing : Type 0 where
  written no_temp no_write no_close no_commit : Writing

abbrev pub total_size : List File → ℕ
total_size [] = 0
total_size (f ∷ fs) = f.size + total_size fs

abbrev pub without_all : List File → List File → List File
without_all [] fs = fs
without_all (f ∷ gone) fs = without_all gone (without f.name fs)

-- The file that the rename puts in place.
abbrev pub put : Bytes → Bytes → ℕ → List File → List File
put name audio now fs =
    record { name = name; is_dir = false; size = length audio; audio = audio; used = now }
    ∷ without name fs

module _ (disk : Disk) where
  unfoldable pub remove : Bytes → List File → List File
  remove name fs = if disk.removes name then without name fs else fs

  module _ (c : Cache) where
    -- `now.Sub(info.ModTime()) > c.ttl`, if there is a limit.
    abbrev pub expired : ℕ → File → Bool
    expired now f = ltb 0 c.ttl && ltb (f.used + c.ttl) now

    -- `Lookup`: the directory after it, and whether it hits.
    unfoldable pub lookup : Bytes → ℕ → List File → List File × Bool
    lookup name now fs = elim (if disk.describes name then find_file name fs else none) [
      | none ↦ (fs, false)
      | some f ↦
          if f.size == 0
          then (fs, false)
          else if expired now f
          then (remove name fs, false)
          else (if disk.touches name then touch name now fs else fs, true)
    ]

    abbrev pub is_temp : Bytes → Bool
    is_temp name = has_prefix name (codes ".tmp-")

    abbrev pub counts : File → Bool
    counts f = not f.is_dir && not (is_temp f.name) && disk.describes f.name

    -- `entries`: the first argument is what the listing shows, the last the directory.
    unfoldable pub entries : ℕ → List File → List File → List File × List File
    entries now [] fs = (fs, [])
    entries now (f ∷ dir) fs =
        let (fs', items) =
          entries now dir (if counts f && expired now f then remove f.name fs else fs) in
        (fs', if counts f && not (expired now f) then f ∷ items else items)

    -- The loop of `evict` over the items, the least recently used first, with the bytes that are
    -- counted: the items that are kept, and those that are removed.
    unfoldable pub drop_oldest : ℕ → List File → List File × List File
    drop_oldest total [] = ([], [])
    drop_oldest total (f ∷ fs) =
        let r = disk.removes f.name in
        let (kept, removed) = drop_oldest (if r then total - f.size else total) fs in
        if leb total c.max_bytes
        then (f ∷ fs, [])
        else if r
        then (kept, f ∷ removed)
        else (f ∷ kept, removed)

  module _ (sort : List File → List File) (c : Cache) where
    -- `evict`; `sort` is `slices.SortFunc` by the time of use.
    unfoldable pub evict : ℕ → List File → List File
    evict now fs =
        if c.ttl == 0 && c.max_bytes == 0 || not disk.lists
        then fs
        else let (fs', items) = entries c now fs fs in
          let total = total_size items in
          if c.max_bytes == 0 || leb total c.max_bytes
          then fs'
          else without_all (drop_oldest c total (sort items)).1 fs'

    -- `Store`: the directory after it. On an error the temporary file is removed (its removal is taken
    -- to succeed), and nothing else has changed.
    unfoldable pub store : Writing → Bytes → Bytes → ℕ → List File → List File × Option Writing
    store written name audio now fs = (evict now (put name audio now fs), none)
    store no_temp name audio now fs = (fs, some no_temp)
    store no_write name audio now fs = (fs, some no_write)
    store no_close name audio now fs = (fs, some no_close)
    store no_commit name audio now fs = (fs, some no_commit)
