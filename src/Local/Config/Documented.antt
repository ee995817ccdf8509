-- ===== src/Local/Config/Documented.antt =====
-- What the link relies on in the firmware's virtual EEPROM (sitl.c and the config streamer of
-- Betaflight), and what a flush leaves.
use betaflight_sitl_udp.Base.{
  refl, Option-cases, ℕ, ◌≡◌, ◌≢◌, sym, ◌∙◌, ap, ◌⊎◌, inl, inr, List, Option, none, some, length,
  replicate, if◌then◌else◌, subst,
}
use betaflight_sitl_udp.Local.Config.{Chip, Firmware, eeprom_file, is_open, flush_eeprom}

abbrev pub file_of : List ℕ → Option (List ℕ) → List ℕ
file_of env none = eeprom_file env
file_of env (some file) = file

-- The file a write goes to: the open handle's, or else that of BF_SITL_EEPROM.
abbrev pub target : {Config : Type 0} → Chip Config → List ℕ
target c = file_of c.env c.opened

-- `d` is `c` after the configuration `config` was written as `image`.
pub record IsWritten {Config : Type 0} (c : Chip Config) (config : Config) (image : List ℕ)
    (d : Chip Config) : Type 0 where
  pub config_is : d.config ≡ config
  pub env_same : d.env ≡ c.env
  pub mirror_is : d.mirror ≡ image
  pub file_is : d.disk (target c) ≡ some image
  pub others_same : (q : List ℕ) → q ≢ target c → d.disk q ≡ c.disk q
  pub handle : (d.opened ≡ none) ⊎ (d.opened ≡ some (target c))

-- The file is open, as after the boot or a reload, or it holds what the mirror holds.
abbrev pub IsInStep : {Config : Type 0} → Chip Config → Type 0
IsInStep c = ((file : List ℕ) × (c.opened ≡ some file)) ⊎ (c.disk (target c) ≡ some c.mirror)

-- The documented behaviour of the calls. An image has as many bytes as the flash.
pub record IsDocumented {Config : Type 0} (firmware : Firmware Config) : Type 0 where
  pub encode : Config → List ℕ
  pub decode : List ℕ → Config
  pub factory : Config
  pub size : ℕ
  pub decode-encode : (config : Config) → decode (encode config) ≡ config
  pub length-encode : (config : Config) → length (encode config) ≡ size
  -- The configuration is written only where the streamer sees a change.
  pub write_eeprom_lem :
      (c : Chip Config)
      → IsWritten c c.config (encode c.config) (firmware.write_eeprom c)
        ⊎ ((c.mirror ≡ encode c.config) × (firmware.write_eeprom c ≡ c))
  -- The mirror goes to the open file, which is closed.
  pub config_lock_lem :
      (c : Chip Config) (file : List ℕ)
      → c.opened ≡ some file
      → IsWritten c c.config c.mirror (firmware.config_lock c)
        × ((firmware.config_lock c).opened ≡ none)
  -- An existing file is read into the mirror.
  pub config_unlock_lem :
      (c : Chip Config) (image : List ℕ)
      → c.opened ≡ none
      → c.disk (eeprom_file c.env) ≡ some image
      → length image ≡ size
      → IsWritten c c.config image (firmware.config_unlock c)
        × ((firmware.config_unlock c).opened ≡ some (eeprom_file c.env))
  -- A file that does not exist is created from the mirror.
  pub config_unlock-create :
      (c : Chip Config)
      → c.opened ≡ none
      → c.disk (eeprom_file c.env) ≡ none
      → IsWritten c c.config c.mirror (firmware.config_unlock c)
        × ((firmware.config_unlock c).opened ≡ some (eeprom_file c.env))
  pub load_eeprom_lem :
      (c : Chip Config) → firmware.load_eeprom c ≡ record c { config = decode c.mirror }
  -- Erased flash gets the defaults.
  pub ensure_structure_lem :
      (c : Chip Config)
      → c.mirror ≡ replicate size 0
      → IsWritten c factory (encode factory) (firmware.ensure_structure c)

module _ {Config : Type 0} where
  -- Two writes to the same file count as the second.
  pub IsWritten-again :
      {config later : Config} {image next : List ℕ} (c d e : Chip Config)
      → IsWritten c config image d
      → target d ≡ target c
      → IsWritten d later next e
      → IsWritten c later next e
  IsWritten-again c d e first same second = record {
    config_is = second.config_is;
    env_same = second.env_same ∙ first.env_same;
    mirror_is = second.mirror_is;
    file_is = ap e.disk (sym same) ∙ second.file_is;
    others_same =
        λ q other. second.others_same q (λ eq. other (eq ∙ same)) ∙ first.others_same q other;
    handle = subst (λ file. (e.opened ≡ none) ⊎ (e.opened ≡ some file)) same second.handle;
  }

module _ {Config : Type 0} (firmware : Firmware Config) (laws : IsDocumented firmware) where
  -- The end of a flush, after a write or where none was needed.
  flush-IsWritten :
      (c d : Chip Config)
      → IsWritten c c.config (laws.encode c.config) d
      → let e = if is_open d.opened then firmware.config_lock d else d in
        IsWritten c c.config (laws.encode c.config) e × (e.opened ≡ none)
  flush-IsWritten c d written =
      let P : Chip Config → Type 0 =
        λ e. IsWritten c c.config (laws.encode c.config) e × (e.opened ≡ none) in
      elim written.handle [
        | inl closed ↦
            subst (λ b. P (if b then firmware.config_lock d else d)) (sym (ap is_open closed))
              (written, closed)
        | inr still ↦
            let (locked, closed) = laws.config_lock_lem d (target c) still in
            let whole : IsWritten d c.config (laws.encode c.config) (firmware.config_lock d) =
              subst (λ image. IsWritten d c.config image (firmware.config_lock d)) written.mirror_is
                (subst (λ config. IsWritten d config d.mirror (firmware.config_lock d))
                  written.config_is locked) in
            subst (λ b. P (if b then firmware.config_lock d else d)) (sym (ap is_open still))
              (
                IsWritten-again c d (firmware.config_lock d) written (ap (file_of d.env) still)
                    whole,
                closed,
              )
      ]

  flush_unchanged :
      (c : Chip Config)
      → IsInStep c
      → c.mirror ≡ laws.encode c.config
      → let e = if is_open c.opened then firmware.config_lock c else c in
        IsWritten c c.config (laws.encode c.config) e × (e.opened ≡ none)
  flush_unchanged c in_step same =
      let P : Chip Config → Type 0 =
        λ e. IsWritten c c.config (laws.encode c.config) e × (e.opened ≡ none) in
      elim (Option-cases c.opened) [
        | inl closed ↦
            let synced : c.disk (target c) ≡ some c.mirror = elim in_step [
              | inl (file, open_file) ↦ absurd (let clash = sym open_file ∙ closed in cc)
              | inr synced ↦ synced
            ] in
            subst (λ b. P (if b then firmware.config_lock c else c)) (sym (ap is_open closed))
              (
                record {
                  config_is = refl;
                  env_same = refl;
                  mirror_is = same;
                  file_is = synced ∙ ap some same;
                  others_same = λ q other. refl;
                  handle = inl closed;
                },
                closed,
              )
        | inr (file, open_file) ↦
            let (locked, closed) = laws.config_lock_lem c file open_file in
            subst (λ b. P (if b then firmware.config_lock c else c)) (sym (ap is_open open_file))
              (
                subst (λ image. IsWritten c c.config image (firmware.config_lock c)) same locked,
                closed,
              )
      ]

  -- A flush leaves the running configuration in the file, and closes it.
  pub flush_eeprom_lem :
      (c : Chip Config)
      → IsInStep c
      → IsWritten c c.config (laws.encode c.config) (flush_eeprom firmware c)
        × ((flush_eeprom firmware c).opened ≡ none)
  unfolding flush_eeprom
  flush_eeprom_lem c in_step = elim (laws.write_eeprom_lem c) [
    | inl written ↦ flush-IsWritten c (firmware.write_eeprom c) written
    | inr (same, unchanged) ↦
        subst
          (λ d.
            let e = if is_open d.opened then firmware.config_lock d else d in
            IsWritten c c.config (laws.encode c.config) e × (e.opened ≡ none))
          (sym unchanged) (flush_unchanged c in_step same)
  ]
