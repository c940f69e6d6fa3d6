-- ===== src/Tgcall/Logger/Kept.antt =====
-- What the adapter of internal/tgcall/logger.go keeps.
use tgpager.Base.{ℕ, ◌≤◌, ◌≡◌, refl, List, [], ◌∷◌, Bytes, codes, map, ℤ, ◌≤ℤ◌, arith}
use tgpager.Tgcall.Logger.{
  ZapLevel, zap_debug, zap_info, zap_warn, zap_error, GotdLevels, gotd_level_to_zap, Kind, kind_any,
  kind_bool, kind_duration, kind_error, kind_float64, kind_int64, kind_string, kind_time,
  kind_uint64, kind_other, Attr, Field, field_any, field_bool, field_duration, field_float64,
  field_int64, field_string, field_time, field_uint64, field_error, gotd_attr_to_zap, fields_of,
}

abbrev pub severity : ZapLevel → ℕ
severity zap_debug = 0
severity zap_info = 1
severity zap_warn = 2
severity zap_error = 3

-- A more severe message is not logged at a less severe level, whatever the levels of gotd are, as long
-- as they ascend.
pub severity-gotd_level_to_zap :
    (l : GotdLevels) (a b : ℤ)
    → l.level_debug ≤ℤ l.level_info
    → l.level_info ≤ℤ l.level_warn
    → a ≤ℤ b
    → severity (gotd_level_to_zap l a) ≤ severity (gotd_level_to_zap l b)
unfolding gotd_level_to_zap
severity-gotd_level_to_zap l a b h k le = ground arith

-- The key that is written for an attribute.
abbrev pub key_of : Kind → Bytes → Bytes
key_of kind_error key = codes "error"
key_of kind_any key = key
key_of kind_bool key = key
key_of kind_duration key = key
key_of kind_float64 key = key
key_of kind_int64 key = key
key_of kind_string key = key
key_of kind_time key = key
key_of kind_uint64 key = key
key_of kind_other key = key

module _ {V : Type 0} where
  -- The key and the value that zap writes for a field: an error has the key "error".
  abbrev pub written : Field V → Bytes × V
  written (field_any k v) = (k, v)
  written (field_bool k v) = (k, v)
  written (field_duration k v) = (k, v)
  written (field_float64 k v) = (k, v)
  written (field_int64 k v) = (k, v)
  written (field_string k v) = (k, v)
  written (field_time k v) = (k, v)
  written (field_uint64 k v) = (k, v)
  written (field_error v) = (codes "error", v)

  written_at :
      (k : Kind) (key : Bytes) (v : V)
      → written (gotd_attr_to_zap (record { key = key; kind = k; value = v })) ≡ (key_of k key, v)
  unfolding gotd_attr_to_zap
  written_at kind_any key v = refl
  written_at kind_bool key v = refl
  written_at kind_duration key v = refl
  written_at kind_error key v = refl
  written_at kind_float64 key v = refl
  written_at kind_int64 key v = refl
  written_at kind_string key v = refl
  written_at kind_time key v = refl
  written_at kind_uint64 key v = refl
  written_at kind_other key v = refl

  -- Every attribute becomes one field, in order, with its value and its key, but an error gets the key
  -- "error" in place of its own.
  pub written-fields_of :
      (attrs : List (Attr V))
      → map written (fields_of attrs) ≡ map (λ a. (key_of a.kind a.key, a.value)) attrs
  unfolding fields_of
  written-fields_of [] = refl
  written-fields_of (a ∷ attrs) =
      let first : written (gotd_attr_to_zap a) ≡ (key_of a.kind a.key, a.value) =
        written_at a.kind a.key a.value in
      let rest = written-fields_of attrs in cc
