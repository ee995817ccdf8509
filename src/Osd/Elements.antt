-- ===== src/Osd/Elements.antt =====
-- The elements of the OSD in src/sitl_osd.c, `sitl_local_set_osd_element` and its companions, and the
-- hook at the boot, `sitlOsdEnableFeature`. The firmware's macros for a position and its functions on
-- features are the fields of records; the log is left out.
pub mod Places
pub mod Boot
mod Examples
use betaflight_sitl_udp.Base.{
  ℕ, zero, suc, ◌+◌, ◌-◌, ◌%◌, ◌^◌, ◌==◌, Bool, true, false, ◌&&◌, not, List, [], ◌∷◌, Option, none,
  some, ltb, leb, if◌then◌else◌, get_elem?, set, map, bit_or, ℤ, pos, negsuc,
}

-- OSD_POS, OSD_PROFILE_FLAG, OSD_PROFILE_COUNT, OSD_ITEM_COUNT, OSD_X, OSD_Y and VISIBLE.
pub record Packing : Type 0 where
  pub place : ℕ → ℕ → ℕ
  pub flag : ℕ → ℕ
  pub profile_count : ℕ
  pub item_count : ℕ
  pub x_of : ℕ → ℕ
  pub y_of : ℕ → ℕ
  pub is_visible : ℕ → Bool

-- `gActive`, `gCols`, `gRows`, `item_pos` of the firmware's configuration, and how often
-- `osdAnalyzeActiveElements` was called.
pub record Elements : Type 0 where
  pub active : Bool
  pub cols : ℕ
  pub rows : ℕ
  pub item_pos : List ℕ
  pub analyses : ℕ

-- A coordinate on a canvas of that many columns or rows, as a byte.
pub clamp : ℤ → ℕ → ℕ
clamp (negsuc n) limit = 0
clamp (pos n) limit = (if leb limit n then (if ltb 0 limit then limit - 1 else 0) else n) % 256

-- The loop over the profiles.
pub mark_profiles : (ℕ → ℕ) → ℕ → ℕ → ℕ
mark_profiles flag zero value = value
mark_profiles flag (suc n) value = bit_or (mark_profiles flag n value) (flag (suc n))

-- The test of an item's number.
pub item_of : Packing → Elements → ℤ → Option ℕ
item_of p e (negsuc n) = none
item_of p e (pos i) = if e.active && ltb i p.item_count then some i else none

-- `value`
pub element_value : Packing → Elements → ℤ → ℤ → Bool → ℕ
unfolding clamp mark_profiles
element_value p e col row visible =
    let value = p.place (clamp col e.cols) (clamp row e.rows) in
    (if visible then mark_profiles p.flag p.profile_count value else value) % 2 ^ 16

-- `sitl_local_set_osd_element`: whether it returns 0, and the elements.
pub set_osd_element : Packing → ℤ → ℤ → ℤ → Bool → Elements → Bool × Elements
set_osd_element p item col row visible e = elim (item_of p e item) [
  | none ↦ (false, e)
  | some i ↦ (
    true,
    record e {
      item_pos = set e.item_pos i (element_value p e col row visible);
      analyses = e.analyses + 1;
    },
  )
]

-- `sitl_local_get_osd_element`: the column, the row and whether the element is shown, or `none` for -1.
pub get_osd_element : Packing → ℤ → Elements → Option (ℕ × (ℕ × Bool))
get_osd_element p item e = elim (item_of p e item) [
  | none ↦ none
  | some i ↦ elim (get_elem? e.item_pos i) [
    | none ↦ none
    | some value ↦ some (p.x_of value, (p.y_of value, p.is_visible value))
  ]
]

-- `sitl_local_osd_refresh`
pub osd_refresh : Elements → Elements
osd_refresh e = if e.active then record e { analyses = e.analyses + 1 } else e

-- `featureIsEnabled` and `featureEnableImmediate` for FEATURE_OSD, THROTTLE_LIMIT_TYPE_COUNT and
-- THROTTLE_LIMIT_TYPE_OFF.
pub record Features : Type 0 where
  pub is_enabled : ℕ → Bool
  pub enable : ℕ → ℕ
  pub type_count : ℕ
  pub type_off : ℕ

-- The mask of the features, `throttle_limit_type` of the rate profiles, `gStoredFeatureMaskBeforeHook`
-- and `gHookEnabledOsd`.
pub record Stored : Type 0 where
  pub mask : ℕ
  pub types : List ℕ
  pub mask_before_hook : ℕ
  pub hook_enabled : Bool

-- `sitlOsdSanitizeThrottleLimitType`
pub sanitize_types : Features → List ℕ → List ℕ
sanitize_types f [] = []
sanitize_types f (type ∷ types) =
    (if leb f.type_count type then f.type_off else type) ∷ sanitize_types f types

abbrev pub is_off : Option (List ℕ) → Bool
is_off none = false
is_off (some []) = false
is_off (some (c ∷ env)) = c == b'0'

-- `sitlOsdEnableFeature`, with the value of BF_SITL_OSD.
pub enable_feature : Features → Option (List ℕ) → Stored → Stored
unfolding sanitize_types
enable_feature f env s =
    let clean = record s { types = sanitize_types f s.types; mask_before_hook = s.mask } in
    if is_off env
    then clean
    else (if f.is_enabled s.mask
        then clean
        else record clean { mask = f.enable s.mask; hook_enabled = true })
