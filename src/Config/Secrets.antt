-- ===== src/Config/Secrets.antt =====
-- internal/config/secret.go: a credential and its three spellings.
use tgpager.Base.{
  ℕ, ◌+◌, ◌≡◌, ◌≢◌, inl, inr, refl, ap, sym, ◌∙◌, str_eq_refl, str_eq-false, Bool, true, false, not,
  ◌&&◌, ◌||◌, [], ◌∷◌, ◌++◌, Option, none, some, Bytes, codes, str_eq, str_eq_iff, has_prefix, All,
  Result, ok, err, ltb, ◌==◌, if◌then◌else◌, arith, Bool-cases,
}

pub record Secret : Type 0 where
  pub value : Bytes
  pub env : Bytes
  pub file : Bytes

pub data SecretError : Type 0 where
  several_spellings : SecretError
  unreadable : Bytes → SecretError

-- `os.Getenv` and `os.ReadFile`, and `filepath.Join` and `filepath.Clean`.
pub record Os : Type 0 where
  pub getenv : Bytes → Bytes
  pub read_file : Bytes → Option Bytes
  pub join : Bytes → Bytes → Bytes
  pub clean : Bytes → Bytes

abbrev pub is_newline : ℕ → Bool
is_newline c = c == b'\r' || c == b'\n'

-- `strings.TrimRight(s, "\r\n")`.
unfoldable pub trim_newlines : Bytes → Bytes
trim_newlines [] = []
trim_newlines (c ∷ s) =
    let rest = trim_newlines s in if is_newline c && str_eq rest [] then [] else c ∷ rest

abbrev pub is_set : Bytes → ℕ
is_set s = if str_eq s [] then 0 else 1

module _ (os : Os) (base_dir : Bytes) where
  -- The path that is read: relative to the configuration file, unless it is absolute.
  abbrev pub secret_path : Bytes → Bytes
  secret_path file = os.clean (if has_prefix file (codes "/") then file else os.join base_dir file)

  abbrev pub plain : Bytes → Secret
  plain value = record { value = value; env = []; file = [] }

  -- `Secret.resolve`.
  unfoldable pub resolve : Secret → Result SecretError Secret
  resolve s =
      let spellings = is_set s.value + is_set s.env + is_set s.file in
      if spellings == 0
      then ok s
      else if ltb 1 spellings
      then err several_spellings
      else if not (str_eq s.env [])
      then ok (plain (os.getenv s.env))
      else if not (str_eq s.file [])
      then elim (os.read_file (secret_path s.file)) [
        | none ↦ err (unreadable s.file)
        | some text ↦ ok (plain (trim_newlines text))
      ]
      else ok (plain s.value)

  resolve-plain : (v : Bytes) → resolve (plain v) ≡ ok (plain v)
  unfolding resolve str_eq
  resolve-plain v = ground arith

  resolved_fields : (s t : Secret) → resolve s ≡ ok t → (t.env ≡ []) × (t.file ≡ [])
  unfolding resolve
  resolved_fields s t h = ground (arith, str_eq_iff s.env [], str_eq_iff s.file [])

  plain_fields : (t : Secret) → t.env ≡ [] → t.file ≡ [] → t ≡ plain t.value
  plain_fields t e f = ground arith

  -- A resolved secret is a literal value, and resolving it again changes nothing.
  pub resolve_idem :
      (s t : Secret) → resolve s ≡ ok t → (t.env ≡ []) × (t.file ≡ []) × (resolve t ≡ ok t)
  resolve_idem s t h =
      let (e, f) = resolved_fields s t h in
      let same : t ≡ plain t.value = plain_fields t e f in
      (e, f, ap resolve same ∙ resolve-plain t.value ∙ ap ok (sym same))

  -- A literal stands for itself, a variable for its value and a file that can be read for its text less
  -- the line ends behind it (all spelled with texts that are not empty); a secret with two of the three, or with all, is refused.
  pub resolve_spellings :
      (v w x text : Bytes)
      → v ≢ []
      → w ≢ []
      → x ≢ []
      → os.read_file (secret_path x) ≡ some text
      → (resolve (plain v) ≡ ok (plain v))
        × (resolve (record { value = []; env = w; file = [] }) ≡ ok (plain (os.getenv w)))
        × (resolve (record { value = []; env = []; file = x }) ≡ ok (plain (trim_newlines text)))
        × (resolve (record { value = v; env = w; file = [] }) ≡ err several_spellings)
        × (resolve (record { value = v; env = []; file = x }) ≡ err several_spellings)
        × (resolve (record { value = []; env = w; file = x }) ≡ err several_spellings)
        × (resolve (record { value = v; env = w; file = x }) ≡ err several_spellings)
  unfolding resolve
  resolve_spellings v w x text hv hw hx read =
      let z = str_eq_refl [] in
      let nv = str_eq-false v [] hv in
      let nw = str_eq-false w [] hw in
      let nx = str_eq-false x [] hx in
      (
        resolve-plain v,
        ground (arith, z, nw),
        ground (arith, z, nx, read),
        ground (arith, z, nv, nw),
        ground (arith, z, nv, nx),
        ground (arith, z, nw, nx),
        ground (arith, nv, nw, nx),
      )

-- No line end stands at the end.
abbrev pub IsTrimmed : Bytes → Type 0
IsTrimmed [] = Unit {0}
IsTrimmed (c ∷ []) = is_newline c ≡ false
IsTrimmed (c ∷ d ∷ s) = IsTrimmed (d ∷ s)

IsTrimmed-cons :
    (c : ℕ) (s : Bytes) → (is_newline c && str_eq s []) ≡ false → IsTrimmed s → IsTrimmed (c ∷ s)
unfolding str_eq
IsTrimmed-cons c [] h t = ground arith
IsTrimmed-cons c (d ∷ s) h t = t

all_cut : (s t u : Bytes) → str_eq s [] ≡ true → s ++ t ≡ u → t ≡ u
unfolding str_eq
all_cut [] t u h e = e
all_cut (c ∷ s) t u h e = ground arith

-- Trimming takes line ends off the end and nothing else, and leaves none there.
pub trim_newlines_lem :
    (s : Bytes)
    → (t : Bytes) × IsTrimmed (trim_newlines s)
      × (trim_newlines s ++ t ≡ s)
      × All (λ c. is_newline c ≡ true) t
unfolding trim_newlines
trim_newlines_lem [] = ([], tt, refl, tt)
trim_newlines_lem (c ∷ s) =
    let (t, trimmed, whole, ends) = trim_newlines_lem s in
    elim (Bool-cases (is_newline c && str_eq (trim_newlines s) [])) [
      | inl cut ↦ rw cut (
        c ∷ t,
        tt,
        ap (λ u. c ∷ u) (all_cut (trim_newlines s) t s (ground arith) whole),
        (ground arith, ends),
      )
      | inr kept ↦
          rw kept (t, IsTrimmed-cons c (trim_newlines s) kept trimmed, ap (λ u. c ∷ u) whole, ends)
    ]
