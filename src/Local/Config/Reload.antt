-- ===== src/Local/Config/Reload.antt =====
-- A reload and a reboot at the selected file.
use betaflight_sitl_udp.Base.{
  ℕ, ◌≡◌, refl, sym, ◌∙◌, ap, Bool, true, false, ◌⊎◌, inl, inr, List, [], ◌∷◌, none, some, length,
  if◌then◌else◌, ◌==◌, ==_refl, subst, if_split, ◌++◌, ◌||◌,
}
use betaflight_sitl_udp.Local.Config.{
  Chip, Firmware, Requests, Call, eeprom_file, eeprom_hash, flush_eeprom, open_selected, run_reload,
  run_reboot, run_requests, blackbox_init, reset_osd_runtime, start_gyro_calibration,
}
use betaflight_sitl_udp.Local.Config.Documented.{
  IsInStep, IsDocumented, target, file_of, flush_eeprom_lem,
}

-- No other file than the selected one is open.
abbrev pub IsOnFile : {Config : Type 0} → Chip Config → Type 0
IsOnFile c = (c.opened ≡ none) ⊎ (c.opened ≡ some (eeprom_file c.env))

pub IsOnFile-target :
    {Config : Type 0} (c : Chip Config) → IsOnFile c → target c ≡ eeprom_file c.env
IsOnFile-target c (inl closed) = ap (file_of c.env) closed
IsOnFile-target c (inr open_file) = ap (file_of c.env) open_file

module _ {Config : Type 0} (firmware : Firmware Config) where
  pub run_requests-reload :
      (armed : Bool) (r : Requests) (c : Chip Config)
      → r.reboot ≡ false
      → (r.reload || r.path) ≡ true
      → run_requests firmware armed r c ≡ run_reload firmware true r c
  unfolding run_requests
  run_requests-reload armed r c no_reboot asked =
      let none_left : Requests × Chip Config × List Call = (r, c, []) in
      let reloaded = run_reload firmware true r c in
      ap
        (λ b.
          if b
          then (if armed then none_left else run_reboot firmware r c)
          else (if r.reload || r.path then reloaded else none_left))
        no_reboot
      ∙ ap (λ b. if b then reloaded else none_left) asked

  pub run_requests-reboot :
      (r : Requests) (c : Chip Config)
      → r.reboot ≡ true
      → run_requests firmware false r c ≡ run_reboot firmware r c
  unfolding run_requests
  run_requests-reboot r c asked =
      let none_left : Requests × Chip Config × List Call = (r, c, []) in
      ap
        (λ b.
          if b
          then run_reboot firmware r c
          else (if r.reload || r.path then run_reload firmware true r c else none_left))
        asked

-- The configuration is the one before, and the selected file holds it.
abbrev pub IsKept : {Config : Type 0} → (Config → List ℕ) → Chip Config → Chip Config → Type 0
IsKept encode c d = (d.config ≡ c.config) × (d.disk (eeprom_file c.env) ≡ some (encode c.config))

module _ {Config : Type 0} (firmware : Firmware Config) (laws : IsDocumented firmware) where
  -- Where the file holds what the mirror holds, the configuration counts as identical.
  open_selected_same :
      (load : Bool) (r : Requests) (c : Chip Config)
      → c.opened ≡ none
      → c.disk (eeprom_file c.env) ≡ some c.mirror
      → length c.mirror ≡ laws.size
      → open_selected firmware load false r c ≡ (r, firmware.config_unlock c, [])
  unfolding open_selected
  open_selected_same load r c closed holds sized =
      let (unlocked, _) = laws.config_unlock_lem c c.mirror closed holds sized in
      let same : (eeprom_hash (firmware.config_unlock c).mirror == eeprom_hash c.mirror) ≡ true =
        ap (λ m. eeprom_hash m == eeprom_hash c.mirror) unlocked.mirror_is
        ∙ ==_refl (eeprom_hash c.mirror) in
      if_split {A = Requests × Chip Config × List Call} (λ t. t ≡ (r, firmware.config_unlock c, []))
        (eeprom_hash (firmware.config_unlock c).mirror == eeprom_hash c.mirror) (λ e. refl)
        (λ e. absurd (cc))

  -- Without a switch of the path.
  run_reload_same :
      (reread : Bool) (r : Requests) (c : Chip Config)
      → IsOnFile c
      → IsInStep c
      → r.path ≡ false
      → let (left, d, calls) = run_reload firmware reread r c in
        (calls ≡ []) × IsKept laws.encode c d
  unfolding run_reload
  run_reload_same reread r c on in_step no_switch =
      let f = flush_eeprom firmware c in
      let (flushed, closed) = flush_eeprom_lem firmware laws c in_step in
      let taken = record r { reload = false; path = false; eeprom_write = false } in
      let holds : f.disk (eeprom_file f.env) ≡ some f.mirror =
        ap f.disk (ap eeprom_file flushed.env_same ∙ sym (IsOnFile-target c on))
        ∙ flushed.file_is
        ∙ ap some (sym flushed.mirror_is) in
      let sized : length f.mirror ≡ laws.size =
        ap length flushed.mirror_is ∙ laws.length-encode c.config in
      let (unlocked, _) = laws.config_unlock_lem f f.mirror closed holds sized in
      let selected = open_selected_same reread taken f closed holds sized in
      let file : eeprom_file c.env ≡ target f =
        ap eeprom_file (sym flushed.env_same) ∙ ap (file_of f.env) (sym closed) in
      if_split {A = Requests × Chip Config × List Call} (λ t. (t.2 ≡ []) × IsKept laws.encode c t.1)
        r.path (λ e. absurd (cc))
        (λ e. (
          ap (λ t. t.2) selected,
          (
            ap (λ t. t.1.config) selected ∙ unlocked.config_is ∙ flushed.config_is,
            ap (λ t. t.1.disk (eeprom_file c.env)) selected
                ∙ ap (firmware.config_unlock f).disk file
                ∙ unlocked.file_is
                ∙ ap some flushed.mirror_is,
          ),
        ))

  -- Where the selected file is still open, as after the boot and after each reload, a requested reload
  -- with no switch of the path does not take up what the file holds: whatever that is, the running
  -- configuration is first written over it, nothing is applied again, and the configuration stays the
  -- running one.
  pub reload_ignores_file :
      (armed : Bool) (r : Requests) (c : Chip Config)
      → c.opened ≡ some (eeprom_file c.env)
      → r.path ≡ false
      → r.reboot ≡ false
      → r.reload ≡ true
      → let (left, d, calls) = run_requests firmware armed r c in
        (calls ≡ []) × IsKept laws.encode c d
  reload_ignores_file armed r c held no_switch no_reboot asked =
      let same = run_reload_same true r c (inr held) (inl (eeprom_file c.env, held)) no_switch in
      subst {A = Requests × Chip Config × List Call} (λ t. (t.2 ≡ []) × IsKept laws.encode c t.1)
        (sym (run_requests-reload firmware armed r c no_reboot (ap (λ b. b || r.path) asked))) same

  -- A reboot, with no switch of the path, from a file that is open or in step with the flash, applies
  -- nothing again: of the calls that make the
  -- configuration effective none is made, only the ones that follow.
  pub reboot_applies_nothing :
      (r : Requests) (c : Chip Config)
      → IsOnFile c
      → IsInStep c
      → r.path ≡ false
      → r.reboot ≡ true
      → let (left, d, calls) = run_requests firmware false r c in
        (calls ≡ blackbox_init ∷ reset_osd_runtime ∷ start_gyro_calibration ∷ [])
        × IsKept laws.encode c d
  unfolding run_reboot
  reboot_applies_nothing r c on in_step no_switch asked =
      let (none_called, kept) =
        run_reload_same false (record r { reboot = false }) c on in_step no_switch in
      let later = blackbox_init ∷ reset_osd_runtime ∷ start_gyro_calibration ∷ [] in
      subst {A = Requests × Chip Config × List Call} (λ t. (t.2 ≡ later) × IsKept laws.encode c t.1)
        (sym (run_requests-reboot firmware r c asked))
        (ap (λ calls. calls ++ later) none_called, kept)
