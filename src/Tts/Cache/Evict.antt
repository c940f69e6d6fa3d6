-- ===== src/Tts/Cache/Evict.antt =====
-- Which files `evict` removes.
use tgpager.Base.{
  ℕ, ◌+◌, ◌-◌, ◌≤◌, ◌<◌, ◌≡◌, inl, inr, refl, ap, sym, Bool, true, false, ◌⊎◌, List, [], ◌∷◌, ◌++◌,
  All, leb, arith, Bool-cases, ◌∙◌, append-nil,
}
use mathlib.Core.Path.{subst}
use native.Mathlib.Nat.{add_assoc}
use tgpager.Tts.Cache.{File, Cache, Disk, drop_oldest, total_size, entries, evict, without_all}
use tgpager.Tts.Cache.Merges.{
  IsByUse, AreOlder, AreOlder-split, Merges, nothing, left, right, All-left, total_size-append,
  Merges-total_size,
}

module _ (disk : Disk) (c : Cache) where
  -- Whether each file can be removed.
  abbrev pub Yields : Bool → List File → Type 0
  Yields b = All λ f. disk.removes f.name ≡ b

  -- When each file of the first list was removed, it, those removed later and those that are kept were
  -- too much.
  abbrev pub AreNeeded : ℕ → List File → Type 0
  AreNeeded kept [] = Unit {0}
  AreNeeded kept (f ∷ fs) = (c.max_bytes < f.size + (total_size fs + kept)) × AreNeeded kept fs

  -- What the loop makes of the items, with so many bytes of earlier items that stay.
  pub record Drops (extra : ℕ) (items kept removed : List File) : Type 0 where
    pub front : List File
    pub stuck : List File
    pub rest : List File
    pub looked_at : items ≡ front ++ rest
    pub parted : Merges removed stuck front
    pub stays : kept ≡ stuck ++ rest
    pub yields : Yields true removed
    pub resists : Yields false stuck
    pub enough : (extra + total_size kept ≤ c.max_bytes) ⊎ (rest ≡ [])
    pub needed : AreNeeded (extra + total_size kept) removed

  removed_in_need :
      (f : File) (fs : List File) (total extra : ℕ) {kept removed : List File}
      → leb total c.max_bytes ≡ false
      → total ≡ extra + total_size (f ∷ fs)
      → Drops extra fs kept removed
      → c.max_bytes < f.size + (total_size removed + (extra + total_size kept))
  removed_in_need f fs total extra over e d =
      let more : c.max_bytes < total = ground arith in
      omega (
        arith,
        ap total_size d.looked_at,
        total_size-append d.front d.rest,
        Merges-total_size d.parted,
        ap total_size d.stays,
        total_size-append d.stuck d.rest,
      )

  -- A file that the disk keeps.
  stays_put :
      (f : File) (fs : List File) (extra : ℕ) {kept removed : List File}
      → disk.removes f.name ≡ false
      → Drops (extra + f.size) fs kept removed
      → Drops extra (f ∷ fs) (f ∷ kept) removed
  stays_put f fs extra {kept} {removed} r d =
      let same = add_assoc extra f.size (total_size kept) in
      record {
        front = f ∷ d.front;
        stuck = f ∷ d.stuck;
        rest = d.rest;
        looked_at = ap (λ gs. f ∷ gs) d.looked_at;
        parted = right f d.parted;
        stays = ap (λ gs. f ∷ gs) d.stays;
        yields = d.yields;
        resists = (r, d.resists);
        enough = subst (λ n. (n ≤ c.max_bytes) ⊎ (d.rest ≡ [])) same d.enough;
        needed = subst (λ n. AreNeeded n removed) same d.needed;
      }

  pub drop_oldest-Drops :
      (fs : List File) (total extra : ℕ)
      → total ≡ extra + total_size fs
      → let (kept, removed) = drop_oldest disk c total fs in Drops extra fs kept removed
  unfolding drop_oldest
  drop_oldest-Drops [] total extra e = record {
    front = [];
    stuck = [];
    rest = [];
    looked_at = refl;
    parted = nothing;
    stays = refl;
    yields = tt;
    resists = tt;
    enough = inr refl;
    needed = tt;
  }
  drop_oldest-Drops (f ∷ fs) total extra e = elim (Bool-cases (leb total c.max_bytes)) [
    | inl fits ↦ rw fits (record {
      front = [];
      stuck = [];
      rest = f ∷ fs;
      looked_at = refl;
      parted = nothing;
      stays = refl;
      yields = tt;
      resists = tt;
      enough = inl (ground arith);
      needed = tt;
    })
    | inr over ↦ elim (Bool-cases (disk.removes f.name)) [
      | inl r ↦
          let d = drop_oldest-Drops fs (total - f.size) extra (omega arith) in
          rw (over, drop_oldest)
            (rw r (record {
              front = f ∷ d.front;
              stuck = d.stuck;
              rest = d.rest;
              looked_at = ap (λ gs. f ∷ gs) d.looked_at;
              parted = left f d.parted;
              stays = d.stays;
              yields = (r, d.yields);
              resists = d.resists;
              enough = d.enough;
              needed = (removed_in_need f fs total extra over e d, d.needed);
            }))
      | inr r ↦
          rw (over, drop_oldest)
            (rw r
              (stays_put f fs extra r (drop_oldest-Drops fs total (extra + f.size) (omega arith))))
    ]
  ]

  pub kept_or_refused :
      {items kept removed : List File}
      → Drops 0 items kept removed
      → (total_size kept ≤ c.max_bytes) ⊎ Yields false kept
  kept_or_refused d = elim d.enough [
    | inl fits ↦ inl (omega arith)
    | inr over ↦ inr (
        subst (Yields false) (sym (d.stays ∙ ap (λ r. d.stuck ++ r) over ∙ append-nil d.stuck))
          d.resists)
  ]

  -- If the unexpired files are more than the cap, `evict` goes through them from the one that was used
  -- least recently: those it looks at it removes, as far as the disk lets it, and the rest it keeps. What
  -- is kept then fits the cap, or `evict` has looked at every file, so that the disk has refused to remove
  -- each one that is kept. What is removed was used no later than the rest, and each file was removed
  -- only while it, those removed after it and those that are kept did not fit. The sorting is one by the
  -- time of use that keeps the sum of the sizes.
  pub evict_lem :
      (sort : List File → List File) (now : ℕ) (fs : List File)
      → disk.lists ≡ true
      → 0 < c.max_bytes
      → c.max_bytes < total_size (entries disk c now fs fs).1
      → total_size (sort (entries disk c now fs fs).1) ≡ total_size (entries disk c now fs fs).1
      → IsByUse (sort (entries disk c now fs fs).1)
      → (kept : List File) × (removed : List File) × (d : Drops 0
          (sort (entries disk c now fs fs).1)
          kept
          removed)
        × (evict disk sort c now fs ≡ without_all removed (entries disk c now fs fs).0)
        × ((total_size kept ≤ c.max_bytes) ⊎ Yields false kept)
        × AreOlder removed d.rest
  unfolding evict
  evict_lem sort now fs listed some_cap over same sorted =
      let items = (entries disk c now fs fs).1 in
      let (kept, removed) = drop_oldest disk c (total_size items) (sort items) in
      let d = drop_oldest-Drops (sort items) (total_size items) 0 (omega (arith, same)) in
      (
        kept,
        removed,
        d,
        ground (arith, listed, over, some_cap),
        kept_or_refused d,
        All-left (λ f. All (λ g. f.used ≤ g.used) d.rest) d.parted
            (AreOlder-split d.front d.rest (subst IsByUse d.looked_at sorted)),
      )
