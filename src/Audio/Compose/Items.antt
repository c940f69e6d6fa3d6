-- ===== src/Audio/Compose/Items.antt =====
-- The arguments of internal/audio/ffmpeg.go and render.go, read back as flags, options and outputs.
use tgpager.Base.{
  ◌≡◌, refl, Bool, false, ◌||◌, List, [], ◌∷◌, ◌++◌, Bytes, codes, str_eq, has_prefix,
  if◌then◌else◌, ap,
}
use tgpager.Audio.Compose.{input_args}

pub data Item : Type 0 where
  flag output : Bytes → Item
  option : Bytes → Bytes → Item

-- The options of the two commands that stand without a value.
unfoldable pub is_flag : Bytes → Bool
is_flag a =
    str_eq a (codes "-re")
    || str_eq a (codes "-hide_banner")
    || str_eq a (codes "-y")
    || str_eq a (codes "-vn")

-- A value may begin with a dash, as a file may.
unfoldable pub items : List Bytes → List Item
items [] = []
items (a ∷ []) = (if is_flag a then flag a else output a) ∷ []
items (a ∷ b ∷ more) =
    let alone = items (b ∷ more) in
    let behind = items more in
    if is_flag a
    then flag a ∷ alone
    else if has_prefix a (codes "-")
    then option a b ∷ behind
    else output a ∷ alone

-- The values of an option, in order.
unfoldable pub values : Bytes → List Item → List Bytes
values name [] = []
values name (option n v ∷ more) =
    let rest = values name more in if str_eq n name then v ∷ rest else rest
values name (flag f ∷ more) = values name more
values name (output f ∷ more) = values name more

-- The files that are written.
unfoldable pub outputs : List Item → List Bytes
outputs [] = []
outputs (output f ∷ more) = f ∷ outputs more
outputs (flag f ∷ more) = outputs more
outputs (option n v ∷ more) = outputs more

-- The items of the inputs.
abbrev pub input_items : List Bytes → List Item → List Item
input_items [] more = more
input_items (seg ∷ segs) more = option (codes "-i") seg ∷ input_items segs more

pub items-input_args :
    (segs args : List Bytes) → items (input_args segs ++ args) ≡ input_items segs (items args)
unfolding items input_args is_flag str_eq has_prefix
items-input_args [] args = refl
items-input_args (seg ∷ segs) args =
    ap (λ is. option (codes "-i") seg ∷ is) (items-input_args segs args)

pub values-input_items :
    (segs : List Bytes) (more : List Item)
    → values (codes "-i") (input_items segs more) ≡ segs ++ values (codes "-i") more
unfolding values str_eq
values-input_items [] more = refl
values-input_items (seg ∷ segs) more = ap (λ vs. seg ∷ vs) (values-input_items segs more)

pub values-input_items_other :
    (name : Bytes) (segs : List Bytes) (more : List Item)
    → str_eq (codes "-i") name ≡ false
    → values name (input_items segs more) ≡ values name more
unfolding values
values-input_items_other name [] more h = refl
values-input_items_other name (seg ∷ segs) more h = rw h (values-input_items_other name segs more h)

pub outputs-input_items :
    (segs : List Bytes) (more : List Item) → outputs (input_items segs more) ≡ outputs more
unfolding outputs
outputs-input_items [] more = refl
outputs-input_items (seg ∷ segs) more = outputs-input_items segs more
