-- ===== src/Tts/Cache/Oversized.antt =====
-- Audio that is larger than the cap of the cache, internal/tts/cache.go.
use tgpager.Base.{
  ℕ, ◌≤◌, ◌<◌, ◌≡◌, ◌≢◌, inl, inr, refl, ap, sym, ◌∙◌, Bool, true, false, not, ◌&&◌, ◌||◌, ◌==◌,
  List, [], ◌∷◌, All, Bytes, none, some, leb, arith, Bool-cases, Option-cases, length, str_eq,
  str_eq_iff, if◌then◌else◌,
}
use mathlib.Core.Path.{subst}
use tgpager.Tts.Cache.{
  File, Cache, Disk, counts, expired, entries, remove, without, without_all, total_size,
  drop_oldest, evict, put, store, written, find_file, is_temp,
}
use tgpager.Tts.Cache.Listing.{Has, IsDistinct, All-Has, All-without, without_apart, Sorts, held}
use tgpager.Tts.Cache.Bounded.{store-fits}

found_there :
    (name : Bytes) (fs : List File) (f : File)
    → find_file name fs ≡ some f
    → Has fs f × (f.name ≡ name)
unfolding find_file
found_there name [] f h = absurd (ground arith)
found_there name (g ∷ gs) f h = elim (Bool-cases (str_eq g.name name)) [
  | inl same ↦
      let e : g ≡ f = ground (arith, same, h) in
      (inl (sym e), ap (λ x. x.name) (sym e) ∙ (str_eq_iff g.name name).0 same)
  | inr other ↦ let (m, e) = found_there name gs f (ground (arith, other, h)) in (inr m, e)
]

without_all-All : (P : File → Type 0) (rs fs : List File) → All P fs → All P (without_all rs fs)
without_all-All P [] fs h = h
without_all-All P (r ∷ rs) fs h =
    without_all-All P rs (without r.name fs) (All-without P r.name fs h)

module _ (disk : Disk) (c : Cache) where
  size-le-held :
      (fs : List File) (f : File) → counts disk c f ≡ true → Has fs f → f.size ≤ held disk c fs
  size-le-held [] f k m = absurd m
  size-le-held (g ∷ gs) f k (inl e) =
      let k' : counts disk c g ≡ true = subst (λ x. counts disk c x ≡ true) e k in
      rw k' (omega (arith, ap (λ x. x.size) e))
  size-le-held (g ∷ gs) f k (inr m) = omega (arith, size-le-held gs f k m)

  removed-All :
      (P : File → Type 0) (b : Bool) (name : Bytes) (cur : List File)
      → All P cur
      → All P (if b then remove disk name cur else cur)
  unfolding remove
  removed-All P false name cur h = h
  removed-All P true name cur h = elim (Bool-cases (disk.removes name)) [
    | inl r ↦ rw r (All-without P name cur h)
    | inr r ↦ rw r h
  ]

  -- What holds of all files before holds of all that are left.
  left-All :
      (P : File → Type 0) (now : ℕ) (dir cur : List File)
      → All P cur
      → All P (entries disk c now dir cur).0
  unfolding entries
  left-All P now [] cur h = h
  left-All P now (f ∷ dir) cur h =
      let old = counts disk c f && expired disk c now f in
      left-All P now dir (if old then remove disk f.name cur else cur)
        (removed-All P old f.name cur h)

  evict-All :
      (P : File → Type 0) (sort : List File → List File) (now : ℕ) (fs : List File)
      → All P fs
      → All P (evict disk sort c now fs)
  unfolding evict
  evict-All P sort now fs h =
      let (out, items) = entries disk c now fs fs in
      let kept = left-All P now fs fs h in
      elim (Bool-cases (c.ttl == 0 && c.max_bytes == 0 || not disk.lists)) [
        | inl off ↦ rw off h
        | inr on ↦ elim (Bool-cases (c.max_bytes == 0 || leb (total_size items) c.max_bytes)) [
          | inl fits ↦ rw on (rw fits kept)
          | inr over ↦ rw on (
              rw over
                (without_all-All P (drop_oldest disk c (total_size items) (sort items)).1 out kept))
        ]
      ]

  module _ (name audio : Bytes) where
    -- The file with the name is the one that was stored.
    abbrev IsStored : File → Type 0
    IsStored f = f.name ≡ name → (f.is_dir ≡ false) × (f.size ≡ length audio)

    others-IsStored : (fs : List File) → All (λ g. name ≢ g.name) fs → All IsStored fs
    others-IsStored [] h = tt
    others-IsStored (f ∷ fs) (p, h) = ((λ e. absurd (p (sym e))), others-IsStored fs h)

    -- It is not found where less than its size is held.
    not_found :
        (out : List File)
        → All IsStored out
        → disk.describes name ≡ true
        → is_temp disk c name ≡ false
        → held disk c out < length audio
        → find_file name out ≡ none
    not_found out all described named small = elim (Option-cases (find_file name out)) [
      | inl e ↦ e
      | inr (f, e) ↦
          let (m, same) = found_there name out f e in
          let (plain, size) = All-Has IsStored out f all m same in
          let k : counts disk c f ≡ true =
            ground (
              arith,
              plain,
              ap disk.describes same ∙ described,
              ap (is_temp disk c) same ∙ named,
            ) in
          absurd (omega (arith, size-le-held out f k m, size))
    ]

  -- Audio larger than the cap is stored without an error, and its file is gone when `Store` returns, if
  -- the directory can be listed and has no name twice, every file can be removed, and the new one is
  -- counted. The sorting keeps the files with their sizes.
  pub store_loses_oversized :
      (sort : List File → List File)
      → Sorts sort
      → ((n : Bytes) → disk.removes n ≡ true)
      → (name audio : Bytes) (now : ℕ) (fs : List File) → disk.lists ≡ true
      → 0 < c.max_bytes
      → IsDistinct fs
      → disk.describes name ≡ true
      → is_temp disk c name ≡ false
      → c.max_bytes < length audio
      → ((store disk sort c written name audio now fs).1 ≡ none)
        × (find_file name (store disk sort c written name audio now fs).0 ≡ none)
  unfolding store
  store_loses_oversized sort sorting yields name audio now fs listed some_cap apart described named
        over =
      let (stored, fits) =
        store-fits disk c sort sorting yields name audio now fs listed some_cap apart in
      (
        refl,
        not_found name audio (evict disk sort c now (put name audio now fs))
            (evict-All (IsStored name audio) sort now (put name audio now fs) (
              (λ e. (refl, refl)),
              others-IsStored name audio (without name fs) (without_apart name fs),
            ))
            described named (omega (arith, fits, over)),
      )
