-- ===== src/Osd/Elements/Boot.antt =====
-- What the hook at the boot leaves.
use betaflight_sitl_udp.Base.{
  ℕ, ◌<◌, ◌≡◌, refl, true, not, ◌||◌, List, [], ◌∷◌, Option, arith, if_both,
}
use betaflight_sitl_udp.Osd.Elements.{Features, Stored, is_off, sanitize_types, enable_feature}

-- All types are in the firmware's table.
abbrev pub AllKnown : Features → List ℕ → Type 0
AllKnown f [] = Unit
AllKnown f (type ∷ types) = (type < f.type_count) × AllKnown f types

sanitize_types-AllKnown :
    (f : Features) (types : List ℕ)
    → f.type_off < f.type_count
    → AllKnown f (sanitize_types f types)
unfolding sanitize_types
sanitize_types-AllKnown f [] off = tt
sanitize_types-AllKnown f (type ∷ types) off = (ground arith, sanitize_types-AllKnown f types off)

sanitize_types-same :
    (f : Features) (types : List ℕ) → AllKnown f types → sanitize_types f types ≡ types
unfolding sanitize_types
sanitize_types-same f [] h = refl
sanitize_types-same f (type ∷ types) (known, h) = ground (arith, sanitize_types-same f types h)

-- The types are sanitized in each case.
if_same_types :
    (f : Features) (env : Option (List ℕ)) (s : Stored) (P : List ℕ → Type 0)
    → P (sanitize_types f s.types)
    → P (enable_feature f env s).types
unfolding enable_feature
if_same_types f env s P h =
    if_both (λ (t : Stored). P t.types) (is_off env) h
      (if_both (λ (t : Stored). P t.types) (f.is_enabled s.mask) h h)

-- After the hook no rate profile has a type outside the firmware's table, those of a configuration where
-- none had are as they were, and the OSD is enabled, but where BF_SITL_OSD starts with 0 and it was not.
pub enable_feature_lem :
    (f : Features) (env : Option (List ℕ)) (s : Stored)
    → f.type_off < f.type_count
    → ((mask : ℕ) → f.is_enabled (f.enable mask) ≡ true)
    → let after = enable_feature f env s in
      AllKnown f after.types
      × (AllKnown f s.types → after.types ≡ s.types)
      × (f.is_enabled after.mask ≡ (f.is_enabled s.mask || not (is_off env)))
      × (after.mask_before_hook ≡ s.mask)
unfolding enable_feature
enable_feature_lem f env s off enables = (
  if_same_types f env s (AllKnown f) (sanitize_types-AllKnown f s.types off),
  (λ h. if_same_types f env s (λ t. t ≡ s.types) (sanitize_types-same f s.types h)),
  ground (arith, enables s.mask),
  ground arith,
)
