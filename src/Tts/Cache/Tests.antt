-- ===== src/Tts/Cache/Tests.antt =====
-- The cache on a sample directory.
use tgpager.Base.{
  ℕ, ◌≤◌, ◌<◌, ◌≡◌, inr, refl, true, false, List, [], ◌∷◌, none, Bytes, codes, str_eq, has_prefix,
  leb, arith, All, ap, sym, ◌∙◌, ◌≢◌, ◌+◌, Bool-cases, inl, inr, not, false, ◌⊎◌, if◌then◌else◌,
}
use tgpager.Tts.Cache.{
  File, Cache, Disk, written, entries, evict, drop_oldest, store, find_file, without, without_all,
  put, total_size,
}
use tgpager.Tts.Cache.Evict.{Drops, Yields, evict_lem}
use tgpager.Tts.Cache.Merges.{IsByUse, AreOlder}
use tgpager.Tts.Cache.Listing.{IsDistinct, Sorts, held}
use tgpager.Tts.Cache.Bounded.{store-fits}

abbrev works : Disk
works = record { lists = true; describes = λ n. true; removes = λ n. true; touches = λ n. true }

abbrev small : Cache
small = record { dir = codes "/var/cache/tgpager"; ttl = 100; max_bytes = 5 }

abbrev file : Bytes → Bytes → ℕ → File
file name audio used = record { name = name; is_dir = false; size = 3; audio = audio; used = used }

abbrev old : File
old = file (codes "aa.mp3") (codes "abc") 10

abbrev recent : File
recent = file (codes "bb.mp3") (codes "def") 50

abbrev insert : File → List File → List File
insert f [] = f ∷ []
insert f (g ∷ gs) = if leb f.used g.used then f ∷ g ∷ gs else g ∷ insert f gs

abbrev by_use : List File → List File
by_use [] = []
by_use (f ∷ fs) = insert f (by_use fs)

evicts_old : evict works by_use small 60 (recent ∷ old ∷ []) ≡ recent ∷ []
unfolding evict entries drop_oldest without str_eq has_prefix
evicts_old = refl

items : (entries works small 60 (recent ∷ old ∷ []) (recent ∷ old ∷ [])).1 ≡ recent ∷ old ∷ []
unfolding entries has_prefix str_eq
items = refl

stores_new :
    (store works by_use small written (codes "bb.mp3") (codes "def") 50 (old ∷ [])).1 ≡ none
unfolding store
stores_new = refl

-- Audio over the cap is written, and evicted at once: the path that `Store` returns has no file.
stores_oversized :
    find_file
      (codes "bb.mp3")
      (store works by_use small written (codes "bb.mp3") (codes "abcdef") 50 []).0
    ≡ none
unfolding store evict entries drop_oldest without str_eq has_prefix find_file
stores_oversized = refl

abbrev shelf : List File
shelf = recent ∷ old ∷ []

over_cap : 5 < total_size (entries works small 60 shelf shelf).1
unfolding entries has_prefix str_eq
over_cap = omega arith

same_total :
    total_size (by_use (entries works small 60 shelf shelf).1)
    ≡ total_size (entries works small 60 shelf shelf).1
unfolding entries has_prefix str_eq
same_total = refl

sorted : IsByUse (by_use (entries works small 60 shelf shelf).1)
unfolding entries has_prefix str_eq
sorted = ((omega arith, tt), (tt, tt))

-- A disk that does not let the older of the two files go.
abbrev holds : Disk
holds = record works { removes = λ n. not (str_eq n (codes "aa.mp3")) }

evicts_recent : evict holds by_use small 60 shelf ≡ old ∷ []
unfolding evict entries drop_oldest without str_eq has_prefix
evicts_recent = refl

evict_lem_example :
    (kept : List File) × (removed : List File) × (d : Drops holds small 0
      (by_use (entries holds small 60 shelf shelf).1)
      kept
      removed)
    × (evict holds by_use small 60 shelf
        ≡ without_all removed (entries holds small 60 shelf shelf).0)
    × ((total_size kept ≤ 5) ⊎ Yields holds small false kept)
    × AreOlder removed d.rest
unfolding entries has_prefix str_eq
evict_lem_example =
    evict_lem holds small by_use 60 shelf refl (omega arith) over_cap same_total sorted

room :
    (leb
      (total_size
        (entries works small 50
          (put (codes "bb.mp3") (codes "def") 50 [])
          (put (codes "bb.mp3") (codes "def") 50 [])).1)
      5)
    ≡ true
unfolding entries without has_prefix str_eq
room = refl

insert_sums : (f : File) (gs : List File) → total_size (insert f gs) ≡ f.size + total_size gs
insert_sums f [] = refl
insert_sums f (g ∷ gs) = ground (arith, insert_sums f gs)

insert-All : (P : File → Type 0) (f : File) (gs : List File) → P f → All P gs → All P (insert f gs)
insert-All P f [] p h = (p, tt)
insert-All P f (g ∷ gs) p (q, h) = elim (Bool-cases (leb f.used g.used)) [
  | inl before ↦ rw before (p, (q, h))
  | inr behind ↦ rw behind (q, insert-All P f gs p h)
]

insert-IsDistinct :
    (f : File) (gs : List File)
    → All (λ g. f.name ≢ g.name) gs
    → IsDistinct gs
    → IsDistinct (insert f gs)
insert-IsDistinct f [] a d = (tt, tt)
insert-IsDistinct f (g ∷ gs) (a, h) (b, d) = elim (Bool-cases (leb f.used g.used)) [
  | inl before ↦ rw before ((a, h), (b, d))
  | inr behind ↦
      rw behind
        (insert-All (λ x. g.name ≢ x.name) f gs (λ e. a (sym e)) b, insert-IsDistinct f gs h d)
]

by_use_sums : (fs : List File) → total_size (by_use fs) ≡ total_size fs
by_use_sums [] = refl
by_use_sums (f ∷ fs) = insert_sums f (by_use fs) ∙ ap (λ n. f.size + n) (by_use_sums fs)

by_use-All : (P : File → Type 0) (fs : List File) → All P fs → All P (by_use fs)
by_use-All P [] h = tt
by_use-All P (f ∷ fs) (p, h) = insert-All P f (by_use fs) p (by_use-All P fs h)

by_use-IsDistinct : (fs : List File) → IsDistinct fs → IsDistinct (by_use fs)
by_use-IsDistinct [] d = tt
by_use-IsDistinct (f ∷ fs) (a, d) =
    insert-IsDistinct f (by_use fs) (by_use-All (λ g. f.name ≢ g.name) fs a)
      (by_use-IsDistinct fs d)

by_use-Sorts : Sorts by_use
by_use-Sorts = record { sums = by_use_sums; keeps = by_use-All; parts = by_use-IsDistinct }

store-fits_example :
    ((store works by_use small written (codes "cc.mp3") (codes "ghi") 60 shelf).1 ≡ none)
    × (held works small (store works by_use small written (codes "cc.mp3") (codes "ghi") 60 shelf).0
        ≤ 5)
store-fits_example =
    store-fits works small by_use by_use-Sorts (λ n. refl) (codes "cc.mp3") (codes "ghi") 60 shelf
      refl (omega arith) (((λ e. ground arith), tt), (tt, tt))
