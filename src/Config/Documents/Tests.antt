-- ===== src/Config/Documents/Tests.antt =====
-- Documentation on a full disk.
use tgpager.Base.{◌≡◌, refl, [], ◌∷◌, Option, none, some, Bytes, codes, ok, str_eq, if◌then◌else◌}
use tgpager.Config.Documents.{generate}

-- The disk takes the page and not the schema.
abbrev takes_page : Bytes → Bytes → Option Bytes
takes_page path text =
    if str_eq path (codes "CONFIG.md") then none else some (codes "no space left on device")

page_only :
    generate
      (ok (codes "# Configuration"))
      (ok (codes "{}"))
      takes_page
      (codes "CONFIG.md")
      (codes "config.schema.json")
    ≡ record {
      files = (codes "CONFIG.md", codes "# Configuration") ∷ [];
      failure = some (codes "no space left on device");
    }
unfolding generate str_eq
page_only = refl
