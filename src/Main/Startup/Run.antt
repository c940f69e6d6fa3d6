-- ===== src/Main/Startup/Run.antt =====
-- `run` of cmd/tgpager/main.go from the opening of the peer cache to its deferred closing.
use tgpager.Base.{
  ◌≡◌, refl, ◌⊎◌, inl, inr, List, [], ◌∷◌, ◌++◌, Option, none, some, Bytes, Result, ok, err,
  Option-cases, Result-cases,
}
use tgpager.Config.Load.{Config}
use tgpager.Tts.Build.{Site}
use tgpager.Main.Startup.{Running, Tools, RunError, peer_cache_error, run_up}

-- What `run` does with the peer cache, and the goroutines it starts; a failed closing is logged.
pub data RunDeed : Type 0 where
  opened served : RunDeed
  closed : Option Bytes → RunDeed

pub data RunEnding (E : Type 0) : Type 0 where
  not_started : RunError → RunEnding E
  waited : Option E → RunEnding E

-- The deferred closing, which every return behind the opening runs.
abbrev pub closing_with {ℓ} : {A : Type ℓ} → Option Bytes → A × List RunDeed → A × List RunDeed
closing_with failure (a, ds) = (a, opened ∷ (ds ++ closed failure ∷ []))

module _ {E : Type 0} where
  abbrev pub behind_start :
      (Running → Option E) → Result RunError Running → RunEnding E × List RunDeed
  behind_start serve (err e) = (not_started e, [])
  behind_start serve (ok r) = (waited (serve r), served ∷ [])

  -- `run`, for the outcomes of opening and closing the peer cache; `serve` is what the goroutines end
  -- with.
  unfoldable pub run :
      Site
      → Tools
      → (Bytes → Option Bytes)
      → Option Bytes
      → (Running → Option E)
      → Config
      → RunEnding E × List RunDeed
  run site tools open_cache close_cache serve cfg = elim (open_cache cfg.peer_cache) [
    | some e ↦ behind_start serve (run_up site tools open_cache cfg)
    | none ↦ closing_with close_cache (behind_start serve (run_up site tools open_cache cfg))
  ]

  -- `run` ends before it opens the peer cache, or closes it last, after it has opened it first; it has
  -- served in between exactly if it ends with what the goroutines end with. Nothing else it ends with
  -- depends on whether the closing fails.
  pub run-Closes :
      (site : Site) (tools : Tools) (open_cache : Bytes → Option Bytes) (c d : Option Bytes)
      (serve : Running → Option E) (cfg : Config)
      → ((run site tools open_cache c serve cfg).0 ≡ (run site tools open_cache d serve cfg).0)
        × ((((e : Bytes) × (run site tools open_cache c serve cfg
                  ≡ (not_started (peer_cache_error e), [])))
              ⊎ ((e : RunError) × (run site tools open_cache c serve cfg
                    ≡ (not_started e, opened ∷ closed c ∷ []))))
            ⊎ ((r : Running) × (run_up site tools open_cache cfg ≡ ok r)
                × (run site tools open_cache c serve cfg
                    ≡ (waited (serve r), opened ∷ served ∷ closed c ∷ []))))
  unfolding run run_up
  run-Closes site tools open_cache c d serve cfg = elim (Option-cases (open_cache cfg.peer_cache)) [
    | inr (e, o) ↦ (simp (o, run) refl, inl (inl (e, simp (o, run, run_up) refl)))
    | inl o ↦ elim (Result-cases (run_up site tools open_cache cfg)) [
      | inr (e, u) ↦ (simp (o, u, run) refl, inl (inr (e, simp (o, u, run) refl)))
      | inl (r, u) ↦ (simp (o, u, run) refl, inr (r, u, simp (o, u, run) refl))
    ]
  ]
