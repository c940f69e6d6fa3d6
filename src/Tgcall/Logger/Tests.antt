-- ===== src/Tgcall/Logger/Tests.antt =====
-- The adapter with the levels -4, 0 and 4.
use tgpager.Base.{◌≡◌, refl, [], ◌∷◌, codes, pos, negsuc}
use tgpager.Tgcall.Logger.{GotdLevels, gotd_level_to_zap, zap_warn, kind_error, kind_string, Attr}
use tgpager.Base.{Bytes, List}

abbrev levels : GotdLevels
levels = record { level_debug = negsuc 3; level_info = pos 0; level_warn = pos 4 }

level_sample : gotd_level_to_zap levels (pos 2) ≡ zap_warn
unfolding gotd_level_to_zap
level_sample = refl

abbrev attrs : List (Attr Bytes)
attrs =
    record { key = codes "addr"; kind = kind_string; value = codes "dc2" }
    ∷ record { key = codes "cause"; kind = kind_error; value = codes "timeout" }
    ∷ []
