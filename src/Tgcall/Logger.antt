-- ===== src/Tgcall/Logger.antt =====
-- internal/tgcall/logger.go: the adapter from the logger of gotd to zap.
pub mod Kept
pub mod Tests
use tgpager.Base.{ℕ, Bool, List, [], ◌∷◌, Bytes, codes, ℤ, leb_ℤ, leb, if◌then◌else◌}

-- The levels of zap that are used.
pub data ZapLevel : Type 0 where
  zap_debug zap_info zap_warn zap_error : ZapLevel

-- The levels that gotd's package names.
pub record GotdLevels : Type 0 where
  pub level_debug : ℤ
  pub level_info : ℤ
  pub level_warn : ℤ

-- `gotdLevelToZap`.
unfoldable pub gotd_level_to_zap : GotdLevels → ℤ → ZapLevel
gotd_level_to_zap l level =
    if leb_ℤ level l.level_debug
    then zap_debug
    else if leb_ℤ level l.level_info
    then zap_info
    else if leb_ℤ level l.level_warn
    then zap_warn
    else zap_error

-- The kinds of values of gotd; the last stands for those without a case.
pub data Kind : Type 0 where
  kind_any kind_bool kind_duration kind_error kind_float64 kind_int64 kind_string kind_time
        kind_uint64 kind_other :
      Kind

pub record Attr (V : Type 0) : Type 0 where
  pub key : Bytes
  pub kind : Kind
  pub value : V

-- The constructors of zap for a field; the one for an error takes no key.
pub data Field (V : Type 0) : Type 0 where
  field_any field_bool field_duration field_float64 field_int64 field_string field_time
        field_uint64 :
      Bytes → V → Field V
  field_error : V → Field V

-- What is logged.
pub record Entry (V : Type 0) : Type 0 where
  pub level : ZapLevel
  pub message : Bytes
  pub fields : List (Field V)

module _ {V : Type 0} where
  -- `gotdAttrToZap`.
  unfoldable pub gotd_attr_to_zap : Attr V → Field V
  gotd_attr_to_zap a = elim a.kind [
    | kind_any ↦ field_any a.key a.value
    | kind_bool ↦ field_bool a.key a.value
    | kind_duration ↦ field_duration a.key a.value
    | kind_error ↦ field_error a.value
    | kind_float64 ↦ field_float64 a.key a.value
    | kind_int64 ↦ field_int64 a.key a.value
    | kind_string ↦ field_string a.key a.value
    | kind_time ↦ field_time a.key a.value
    | kind_uint64 ↦ field_uint64 a.key a.value
    | kind_other ↦ field_any a.key a.value
  ]

  -- The loop of `Log`.
  unfoldable pub fields_of : List (Attr V) → List (Field V)
  unfolding gotd_attr_to_zap
  fields_of [] = []
  fields_of (a ∷ rest) = gotd_attr_to_zap a ∷ fields_of rest

  -- `Log`.
  abbrev pub log : GotdLevels → ℤ → Bytes → List (Attr V) → Entry V
  log l level msg attrs = record {
    level = gotd_level_to_zap l level;
    message = msg;
    fields = fields_of attrs;
  }
