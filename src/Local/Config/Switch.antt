-- ===== src/Local/Config/Switch.antt =====
-- A switch of the path, to the file of another aircraft and to a new one.
use betaflight_sitl_udp.Base.{
  ℕ, ◌≡◌, ◌≢◌, refl, sym, ◌∙◌, ap, ap₂, Bool, true, false, inl, inr, List, [], ◌∷◌, none, some,
  length, if◌then◌else◌, ◌==◌, ◌&&◌, not, subst, arith, if_split, ◌||◌, replicate, ==_iff,
}
use betaflight_sitl_udp.Local.Config.{
  Chip, Firmware, Requests, Call, eeprom_file, eeprom_hash, flush_eeprom, open_selected, run_reload,
  run_requests, load_values, select_profiles, reapply, switch_path, is_fresh, is_open,
}
use betaflight_sitl_udp.Local.Config.Documented.{
  IsInStep, IsWritten, IsDocumented, target, file_of, flush_eeprom_lem, IsWritten-again,
}
use betaflight_sitl_udp.Local.Config.Reload.{run_requests-reload}

abbrev pub Outcome : Type 0 → Type 0
Outcome Config = Requests × Chip Config × List Call

-- What a switch of the path leaves, from the chip `c` to the file `path` and to the loaded
-- configuration `config`, which stands in the file as `image`; `full` is whether a full
-- initialisation was asked for.
pub record IsSwitched {Config : Type 0} (firmware : Firmware Config) (encode : Config → List ℕ)
    (c : Chip Config) (path image : List ℕ) (config : Config) (full : Bool) (calls : List Call)
    (d : Chip Config) : Type 0 where
  pub config_is : d.config ≡ select_profiles firmware config
  pub env_is : d.env ≡ path
  pub mirror_is : d.mirror ≡ image
  pub left_saved : d.disk (target c) ≡ some (encode c.config)
  pub selected_is : d.disk (eeprom_file path) ≡ some image
  pub others_same : (q : List ℕ) → q ≢ target c → q ≢ eeprom_file path → d.disk q ≡ c.disk q
  pub applied : calls ≡ reapply firmware full c.config d.config
  pub on_file : target d ≡ eeprom_file path

module _ {Config : Type 0} (firmware : Firmware Config) where
  is_fresh_existing :
      (path : List ℕ) (c : Chip Config) {image : List ℕ}
      → c.disk (eeprom_file path) ≡ some image
      → is_fresh firmware path c ≡ false
  unfolding is_fresh eeprom_file
  is_fresh_existing [] c there = refl
  is_fresh_existing (x ∷ rest) c there =
      ap (λ file. not (length (x ∷ rest) == 0) && not (is_open file)) there ∙ ground arith

  is_fresh_missing :
      (path : List ℕ) (c : Chip Config)
      → path ≢ []
      → c.disk (eeprom_file path) ≡ none
      → is_fresh firmware path c ≡ true
  unfolding is_fresh eeprom_file
  is_fresh_missing [] c some_path missing = absurd (some_path refl)
  is_fresh_missing (x ∷ rest) c some_path missing =
      ap (λ file. not (length (x ∷ rest) == 0) && not (is_open file)) missing ∙ ground arith

  load_values_lem :
      (laws : IsDocumented firmware) (c : Chip Config)
      → load_values firmware c
        ≡ record c { config = select_profiles firmware (laws.decode c.mirror) }
  unfolding load_values
  load_values_lem laws c =
      ap (λ (d : Chip Config). record d { config = select_profiles firmware d.config })
        (laws.load_eeprom_lem c)

  -- What the end of a switch has done, from the chip `s` on that has the new path.
  finish :
      (laws : IsDocumented firmware) (c f s d : Chip Config) (path image : List ℕ)
      {between : Config} (full : Bool)
      → IsWritten c c.config (laws.encode c.config) f
      → s.opened ≡ none
      → s.env ≡ path
      → s.disk ≡ f.disk
      → eeprom_file path ≢ target c
      → IsWritten s between image d
      → IsSwitched firmware laws.encode c path image
          (laws.decode image)
          full
          (reapply firmware full c.config (load_values firmware d).config)
          (load_values firmware d)
  finish laws c f s d path image full flushed closed at_path same_disk other written =
      let file : target s ≡ eeprom_file path = ap₂ file_of at_path closed in
      let loaded = record d { config = select_profiles firmware (laws.decode d.mirror) } in
      let kept : target c ≢ target s = λ e. other (sym file ∙ sym e) in
      let on_file : target d ≡ eeprom_file path = elim written.handle [
        | inl shut ↦ ap₂ file_of (written.env_same ∙ at_path) shut
        | inr still ↦ ap (file_of d.env) still ∙ file
      ] in
      subst {A = Chip Config}
        (λ e.
          IsSwitched firmware laws.encode c path image (laws.decode image) full
            (reapply firmware full c.config e.config) e)
        (sym (load_values_lem laws d))
        (record {
          config_is = ap (λ m. select_profiles firmware (laws.decode m)) written.mirror_is;
          env_is = written.env_same ∙ at_path;
          mirror_is = written.mirror_is;
          left_saved =
              written.others_same (target c) kept
              ∙ ap (λ disk. disk (target c)) same_disk
              ∙ flushed.file_is;
          selected_is = ap d.disk (sym file) ∙ written.file_is;
          others_same = λ q q_left q_selected.
              written.others_same q (λ e. q_selected (e ∙ file))
              ∙ ap (λ disk. disk q) same_disk
              ∙ flushed.others_same q q_left;
          applied = refl;
          on_file = on_file;
        })

  open_selected_changed :
      (laws : IsDocumented firmware) (r : Requests) (s : Chip Config) (image : List ℕ)
      → s.opened ≡ none
      → s.disk (eeprom_file s.env) ≡ some image
      → length image ≡ laws.size
      → eeprom_hash image ≢ eeprom_hash s.mirror
      → let d = load_values firmware (firmware.config_unlock s) in
        open_selected firmware true false r s
        ≡ (record r { full_init = false }, d, reapply firmware r.full_init s.config d.config)
  unfolding open_selected
  open_selected_changed laws r s image closed there sized changed =
      let unlocked = firmware.config_unlock s in
      let d = load_values firmware unlocked in
      let (written, _) = laws.config_unlock_lem s image closed there sized in
      if_split {A = Outcome Config}
        (λ t.
          t ≡ (record r { full_init = false }, d, reapply firmware r.full_init s.config d.config))
        (eeprom_hash unlocked.mirror == eeprom_hash s.mirror)
        (λ e. absurd (
          changed (
            ap eeprom_hash (sym written.mirror_is)
            ∙ (==_iff (eeprom_hash unlocked.mirror) (eeprom_hash s.mirror)).0 e)))
        (λ e. refl)

  -- The switch to an existing file, and the flash that is erased for a new one.
  switched : (fresh : Bool) (r : Requests) (f : Chip Config) → Chip Config
  switched fresh r f =
      if fresh
      then record f { mirror = replicate (length f.mirror) 0; env = r.pending_path }
      else record f { env = r.pending_path }

  run_reload-switch :
      (reread fresh : Bool) (r : Requests) (c : Chip Config)
      → r.path ≡ true
      → is_fresh firmware r.pending_path (flush_eeprom firmware c) ≡ fresh
      → run_reload firmware reread r c
        ≡ open_selected firmware true fresh
            (record r { reload = false; path = false; eeprom_write = false })
            (switched fresh r (flush_eeprom firmware c))
  unfolding run_reload switch_path switched
  run_reload-switch reread fresh r c asked is =
      let f = flush_eeprom firmware c in
      let taken = record r { reload = false; path = false; eeprom_write = false } in
      let select : Bool → Outcome Config =
        λ b. open_selected firmware true b taken (switched b r f) in
      ap
        (λ b.
          if b
          then select (is_fresh firmware r.pending_path f)
          else open_selected firmware reread false taken f)
        asked
      ∙ ap select is

  -- Where the selected file is open or in step with the flash, no reboot is pending, and the host has
  -- asked for the file of another aircraft, and it exists and differs from the running configuration in
  -- its hash: in the next step, also while the aircraft is armed, the running configuration is saved in
  -- the file that was selected before, the new file is left as it is, no other file changes, the
  -- configuration in it becomes the running one with its profiles selected, and it is applied again,
  -- with the full initialisation exactly where one was asked for or the settings of the gyro's filters
  -- differ.
  pub switch_to_existing :
      (laws : IsDocumented firmware) (armed : Bool) (r : Requests) (c : Chip Config)
      (image : List ℕ)
      → IsInStep c
      → r.reboot ≡ false
      → r.path ≡ true
      → eeprom_file r.pending_path ≢ target c
      → c.disk (eeprom_file r.pending_path) ≡ some image
      → length image ≡ laws.size
      → eeprom_hash image ≢ eeprom_hash (laws.encode c.config)
      → let (left, d, calls) = run_requests firmware armed r c in
        IsSwitched firmware laws.encode c r.pending_path image
          (laws.decode image)
          r.full_init
          calls
          d
  unfolding switched
  switch_to_existing laws armed r c image in_step no_reboot asked other there sized changed =
      let f = flush_eeprom firmware c in
      let path = r.pending_path in
      let taken = record r { reload = false; path = false; eeprom_write = false } in
      let s = record f { env = path } in
      let (flushed, closed) = flush_eeprom_lem firmware laws c in_step in
      let there_now : f.disk (eeprom_file path) ≡ some image =
        flushed.others_same (eeprom_file path) other ∙ there in
      let differs : eeprom_hash image ≢ eeprom_hash s.mirror =
        λ e. changed (e ∙ ap eeprom_hash flushed.mirror_is) in
      let (written, _) = laws.config_unlock_lem s image closed there_now sized in
      let d = load_values firmware (firmware.config_unlock s) in
      let path_run =
        run_requests-reload firmware armed r c no_reboot
          (ap (λ b. r.reload || b) asked ∙ ground arith)
        ∙ run_reload-switch true false r c asked (is_fresh_existing path f there_now)
        ∙ open_selected_changed laws taken s image closed there_now sized differs in
      subst {A = Outcome Config}
        (λ t. IsSwitched firmware laws.encode c path image (laws.decode image) r.full_init t.2 t.1)
        (sym path_run)
        (subst
          (λ before.
            IsSwitched firmware laws.encode c path image (laws.decode image) r.full_init
              (reapply firmware r.full_init before d.config) d)
          (sym flushed.config_is)
          (finish laws c f s (firmware.config_unlock s) path image r.full_init flushed closed refl
            refl other written))

  -- Where the selected file is open or in step with the flash, no reboot is pending, and the host has
  -- asked for a path at which there is no file: in the next step, also while the aircraft is armed, the
  -- running configuration is saved in the file that was selected before, the new file is created with
  -- the defaults of the firmware, no other file changes, and the defaults become the running
  -- configuration, applied again with the full initialisation exactly where one was asked for or the
  -- settings of the gyro's filters differ.
  pub switch_to_new :
      (laws : IsDocumented firmware) (armed : Bool) (r : Requests) (c : Chip Config)
      → IsInStep c
      → r.reboot ≡ false
      → r.path ≡ true
      → r.pending_path ≢ []
      → eeprom_file r.pending_path ≢ target c
      → c.disk (eeprom_file r.pending_path) ≡ none
      → let (left, d, calls) = run_requests firmware armed r c in
        IsSwitched firmware laws.encode c r.pending_path
          (laws.encode laws.factory)
          laws.factory
          r.full_init
          calls
          d
  unfolding switched open_selected
  switch_to_new laws armed r c in_step no_reboot asked named other missing =
      let f = flush_eeprom firmware c in
      let path = r.pending_path in
      let taken = record r { reload = false; path = false; eeprom_write = false } in
      let s = record f { mirror = replicate (length f.mirror) 0; env = path } in
      let (flushed, closed) = flush_eeprom_lem firmware laws c in_step in
      let missing_now : f.disk (eeprom_file path) ≡ none =
        flushed.others_same (eeprom_file path) other ∙ missing in
      let (created, held) = laws.config_unlock-create s closed missing_now in
      let u = firmware.config_unlock s in
      let erased : u.mirror ≡ replicate laws.size 0 =
        created.mirror_is
        ∙ ap (λ n. replicate n 0) (ap length flushed.mirror_is ∙ laws.length-encode c.config) in
      let valid = firmware.ensure_structure u in
      let same : target u ≡ target s = ap (file_of u.env) held ∙ sym (ap (file_of s.env) closed) in
      let written = IsWritten-again s u valid created same (laws.ensure_structure_lem u erased) in
      let d = load_values firmware valid in
      let path_run =
        run_requests-reload firmware armed r c no_reboot
          (ap (λ b. r.reload || b) asked ∙ ground arith)
        ∙ run_reload-switch true true r c asked (is_fresh_missing path f named missing_now) in
      subst {A = Outcome Config}
        (λ t.
          IsSwitched firmware laws.encode c path (laws.encode laws.factory) laws.factory r.full_init
            t.2 t.1)
        (sym path_run)
        (subst
          (λ before.
            IsSwitched firmware laws.encode c path (laws.encode laws.factory) laws.factory
              r.full_init (reapply firmware r.full_init before d.config) d)
          (sym flushed.config_is)
          (subst
            (λ config.
              IsSwitched firmware laws.encode c path (laws.encode laws.factory) config r.full_init
                (reapply firmware r.full_init c.config d.config) d)
            (laws.decode-encode laws.factory)
            (finish laws c f s valid path (laws.encode laws.factory) r.full_init flushed closed refl
              refl other written)))

  -- Where the host switches from the selected file, which is open or in step with the flash, to another
  -- and back, armed or not, with no reboot pending, whatever is changed on the
  -- other aircraft in between: the configuration that was running at first runs again, with its
  -- profiles selected, and the other file holds the change, if the images that are compared differ in
  -- their hashes.
  pub switch_and_back :
      (laws : IsDocumented firmware) (armed : Bool) (out back : Requests) (c : Chip Config)
      (image : List ℕ) (edited : Config)
      → IsInStep c
      → out.reboot ≡ false
      → out.path ≡ true
      → back.reboot ≡ false
      → back.path ≡ true
      → eeprom_file out.pending_path ≢ target c
      → eeprom_file back.pending_path ≡ target c
      → c.disk (eeprom_file out.pending_path) ≡ some image
      → length image ≡ laws.size
      → eeprom_hash image ≢ eeprom_hash (laws.encode c.config)
      → eeprom_hash (laws.encode c.config) ≢ eeprom_hash (laws.encode edited)
      → let away = (run_requests firmware armed out c).1 in
        let home = (run_requests firmware armed back (record away { config = edited })).1 in
        (home.config ≡ select_profiles firmware c.config)
        × (home.disk (eeprom_file out.pending_path) ≡ some (laws.encode edited))
  switch_and_back laws armed out back c image edited in_step q1 asked1 q2 asked2 other home there
        sized changed1 changed2 =
      let away = (run_requests firmware armed out c).1 in
      let first =
        switch_to_existing laws armed out c image in_step q1 asked1 other there sized changed1 in
      let e = record away { config = edited } in
      let second =
        switch_to_existing laws armed back e (laws.encode c.config)
          (inr (ap away.disk first.on_file ∙ first.selected_is ∙ ap some (sym first.mirror_is))) q2
          asked2 (λ eq. other (sym first.on_file ∙ sym eq ∙ home))
          (ap away.disk home ∙ first.left_saved) (laws.length-encode c.config) changed2 in
      let back_home = (run_requests firmware armed back e).1 in
      (
        second.config_is ∙ ap (select_profiles firmware) (laws.decode-encode c.config),
        ap back_home.disk (sym first.on_file) ∙ second.left_saved,
      )
