-- ===== src/Tts/Cache/Bounded.antt =====
-- How much the cache of internal/tts/cache.go holds.
use tgpager.Base.{
  ℕ, ◌≤◌, ◌<◌, ◌≡◌, inl, inr, refl, ap, true, false, List, [], ◌∷◌, All, Bytes, none, leb, arith,
  Bool-cases,
}
use mathlib.Core.Path.{subst}
use tgpager.Tts.Cache.{
  File, Cache, Disk, counts, entries, without_all, total_size, drop_oldest, evict, put, store,
  written,
}
use tgpager.Tts.Cache.Merges.{All-left, All-before, total_size-append, Merges-total_size}
use tgpager.Tts.Cache.Evict.{Yields, drop_oldest-Drops, kept_or_refused}
use tgpager.Tts.Cache.Listing.{
  Has, IsDistinct, IsDistinct-before, IsDistinct-left, Sorts, held, entries-held, entries-Lists,
  entries-IsDistinct, removed_held, without_apart, without-IsDistinct,
}

nothing_refused :
    (disk : Disk) (c : Cache) (fs : List File)
    → ((name : Bytes) → disk.removes name ≡ true)
    → Yields disk c false fs
    → total_size fs ≡ 0
nothing_refused disk c [] yields r = refl
nothing_refused disk c (f ∷ fs) yields (r, h) = absurd (ground (arith, yields f.name, r))

module _ (disk : Disk) (c : Cache) (sort : List File → List File) (sorting : Sorts sort)
    (yields : (name : Bytes) → disk.removes name ≡ true) where
  -- The loop brings the listed files under the cap.
  dropped_held :
      (items out : List File)
      → IsDistinct items
      → All (λ f. (counts disk c f ≡ true) × Has out f) items
      → held disk c out ≤ total_size items
      → held disk c (without_all (drop_oldest disk c (total_size items) (sort items)).1 out)
        ≤ c.max_bytes
  dropped_held items out apart listed bound =
      let same = sorting.sums items in
      let (kept, removed) = drop_oldest disk c (total_size items) (sort items) in
      let d = drop_oldest-Drops disk c (sort items) (total_size items) 0 (omega (arith, same)) in
      let fits : total_size kept ≤ c.max_bytes = elim (kept_or_refused disk c d) [
        | inl le ↦ le
        | inr refused ↦ omega (arith, nothing_refused disk c kept yields refused)
      ] in
      let P = λ (f : File). (counts disk c f ≡ true) × Has out f in
      let all : All P removed =
        All-left P d.parted (
          All-before P d.front d.rest (subst (All P) d.looked_at (sorting.keeps P items listed))) in
      let distinct : IsDistinct removed = IsDistinct-left d.parted (
        IsDistinct-before d.front d.rest
          (subst IsDistinct d.looked_at (sorting.parts items apart))) in
      omega (
        arith,
        removed_held disk c removed out distinct all,
        ap total_size d.looked_at,
        total_size-append d.front d.rest,
        Merges-total_size d.parted,
        ap total_size d.stays,
        total_size-append d.stuck d.rest,
        same,
        fits,
        bound,
      )

  -- Behind an eviction with a cap, the files that the cache counts fit it, if the directory can be listed
  -- and has no name twice, and every file can be removed.
  pub evict-fits :
      (now : ℕ) (fs : List File)
      → disk.lists ≡ true
      → 0 < c.max_bytes
      → IsDistinct fs
      → held disk c (evict disk sort c now fs) ≤ c.max_bytes
  unfolding evict
  evict-fits now fs listed some_cap apart =
      let (out, items) = entries disk c now fs fs in
      let bound = entries-held disk c now yields fs fs apart (λ g m. m) in
      let small : held disk c out ≤ total_size items = omega (arith, bound) in
      let dropped =
        dropped_held items out (entries-IsDistinct disk c now yields fs fs apart)
          (entries-Lists disk c now yields fs fs apart (λ g m. m)) small in
      elim (Bool-cases (leb (total_size items) c.max_bytes)) [
        | inl fits ↦ ground (arith, listed, small)
        | inr over ↦ ground (arith, listed, dropped)
      ]

  -- Audio that is stored in a cache with a cap leaves the files that the cache counts within it, if the
  -- directory can be listed and has no name twice, and every file can be removed.
  pub store-fits :
      (name audio : Bytes) (now : ℕ) (fs : List File)
      → disk.lists ≡ true
      → 0 < c.max_bytes
      → IsDistinct fs
      → ((store disk sort c written name audio now fs).1 ≡ none)
        × (held disk c (store disk sort c written name audio now fs).0 ≤ c.max_bytes)
  unfolding store
  store-fits name audio now fs listed some_cap apart = (
    refl,
    evict-fits now (put name audio now fs) listed some_cap
        (without_apart name fs, without-IsDistinct name fs apart),
  )
