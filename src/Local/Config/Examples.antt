-- ===== src/Local/Config/Examples.antt =====
-- A firmware whose configuration is one number and whose flash has two bytes, and its switches.
use betaflight_sitl_udp.Base.{
  ℕ, ◌%◌, not, ◌≡◌, ◌≢◌, refl, sym, ◌∙◌, ap, subst, Bool, true, false, inl, inr, List, [], ◌∷◌,
  Option, none, some, if◌then◌else◌, ◌==◌, arith, replicate, if_split, same_string, same_string_eq,
  same_string_refl,
}
use betaflight_sitl_udp.Local.Config.{
  Chip, Firmware, Requests, eeprom_file, eeprom_hash, hash_from, run_requests, set_eeprom_path,
}
use betaflight_sitl_udp.Local.Config.{select_profiles}
use betaflight_sitl_udp.Local.Config.Reload.{IsKept, reload_ignores_file}
use betaflight_sitl_udp.Local.Config.Switch.{
  IsSwitched, switch_to_existing, switch_to_new, switch_and_back,
}
use betaflight_sitl_udp.Local.Config.Documented.{IsInStep, IsWritten, IsDocumented, target, file_of}

-- The number and a mark that flash which is not erased has.
encode : ℕ → List ℕ
encode config = config ∷ 1 ∷ []

decode : List ℕ → ℕ
decode [] = 0
decode (config ∷ rest) = config

store_file : List ℕ → List ℕ → (List ℕ → Option (List ℕ)) → List ℕ → Option (List ℕ)
store_file file image disk q = if same_string file q then some image else disk q

-- To write an image to the file that is selected, and to close it.
put_image : ℕ → List ℕ → Chip ℕ → Chip ℕ
put_image config image c = record {
  mirror = image;
  config = config;
  disk = store_file (target c) image c.disk;
  opened = none;
  env = c.env;
}

put_image-IsWritten :
    (config : ℕ) (image : List ℕ) (c : Chip ℕ) → IsWritten c config image (put_image config image c)
unfolding put_image store_file
put_image-IsWritten config image c = record {
  config_is = refl;
  env_same = refl;
  mirror_is = refl;
  file_is = ap (λ b. if b then some image else c.disk (target c)) (same_string_refl (target c));
  others_same = λ q other.
      if_split (λ file. file ≡ c.disk q) (same_string (target c) q)
        (λ e. absurd (other (sym (same_string_eq (target c) q e)))) (λ e. refl);
  handle = inl refl;
}

-- To open a file, by what it holds.
open_with : Option (List ℕ) → Chip ℕ → Chip ℕ
open_with (some image) c = record c { mirror = image; opened = some (eeprom_file c.env) }
open_with none c = record c {
  disk = store_file (eeprom_file c.env) c.mirror c.disk;
  opened = some (eeprom_file c.env);
}

ensure : Bool → Chip ℕ → Chip ℕ
ensure true c = put_image 7 (encode 7) c
ensure false c = c

abbrev toy : Firmware ℕ
toy = record {
  write_eeprom = λ c. put_image c.config (encode c.config) c;
  config_lock = λ c. put_image c.config c.mirror c;
  config_unlock = λ c. open_with (c.disk (eeprom_file c.env)) c;
  load_eeprom = λ c. record c { config = decode c.mirror };
  ensure_structure = λ c. ensure (same_string c.mirror (0 ∷ 0 ∷ [])) c;
  pid_profile_index = λ config. config % 3;
  active_rate_profile = λ config. config % 4;
  change_pid_profile = λ index config. config;
  change_rate_profile = λ index config. config;
  gyro_filters_changed = λ before after. not (before == after);
}

open_with_existing :
    (c : Chip ℕ) (image : List ℕ)
    → c.opened ≡ none
    → c.disk (eeprom_file c.env) ≡ some image
    → IsWritten c c.config image (open_with (some image) c)
unfolding open_with
open_with_existing c image closed there =
    let file : target c ≡ eeprom_file c.env = ap (file_of c.env) closed in
    record {
      config_is = refl;
      env_same = refl;
      mirror_is = refl;
      file_is = ap c.disk file ∙ there;
      others_same = λ q other. refl;
      handle = inr (ap some (sym file));
    }

open_with_missing :
    (c : Chip ℕ) → c.opened ≡ none → IsWritten c c.config c.mirror (open_with none c)
unfolding open_with store_file
open_with_missing c closed =
    let file : target c ≡ eeprom_file c.env = ap (file_of c.env) closed in
    let at : List ℕ → Option (List ℕ) = store_file (eeprom_file c.env) c.mirror c.disk in
    record {
      config_is = refl;
      env_same = refl;
      mirror_is = refl;
      file_is =
          ap at file
          ∙ ap (λ b. if b then some c.mirror else c.disk (eeprom_file c.env))
              (same_string_refl (eeprom_file c.env));
      others_same = λ q other.
          if_split (λ found. found ≡ c.disk q) (same_string (eeprom_file c.env) q)
            (λ e. absurd (other (sym (same_string_eq (eeprom_file c.env) q e) ∙ sym file)))
            (λ e. refl);
      handle = inr (ap some (sym file));
    }

toy-IsDocumented : IsDocumented toy
unfolding encode decode put_image open_with ensure store_file
toy-IsDocumented = record {
  encode = encode;
  decode = decode;
  factory = 7;
  size = 2;
  decode-encode = λ config. refl;
  length-encode = λ config. refl;
  write_eeprom_lem = λ c. inl (put_image-IsWritten c.config (encode c.config) c);
  config_lock_lem = λ c file opened. (put_image-IsWritten c.config c.mirror c, refl);
  config_unlock_lem = λ c image closed there sized.
      subst
        (λ found.
          IsWritten c c.config image (open_with found c)
          × ((open_with found c).opened ≡ some (eeprom_file c.env)))
        (sym there) (open_with_existing c image closed there, refl);
  config_unlock-create = λ c closed missing.
      subst
        (λ found.
          IsWritten c c.config c.mirror (open_with found c)
          × ((open_with found c).opened ≡ some (eeprom_file c.env)))
        (sym missing) (open_with_missing c closed, refl);
  load_eeprom_lem = λ c. refl;
  ensure_structure_lem = λ c erased.
      subst (λ b. IsWritten c 7 (encode 7) (ensure b c))
        (sym (ap (λ m. same_string m (0 ∷ 0 ∷ [])) erased)) (put_image-IsWritten 7 (encode 7) c);
}

-- Two aircraft, with the files "a" and "b".
abbrev file_a : List ℕ
file_a = b'a' ∷ []

abbrev file_b : List ℕ
file_b = b'b' ∷ []

abbrev hangar : List ℕ → Option (List ℕ)
hangar q =
    if same_string q file_a
    then some (9 ∷ 1 ∷ [])
    else (if same_string q file_b then some (5 ∷ 1 ∷ []) else none)

-- Aircraft "a" runs with 3, and its file was changed to 9 from outside.
abbrev aircraft : Chip ℕ
aircraft = record {
  mirror = 3 ∷ 1 ∷ [];
  config = 3;
  disk = hangar;
  opened = some file_a;
  env = file_a;
}

abbrev idle : Requests
idle = record {
  reload = false;
  reboot = false;
  path = false;
  eeprom_write = false;
  full_init = false;
  pending_path = [];
  request_us = 0;
}

hash_of_nothing : eeprom_hash [] ≡ 2166136261
unfolding eeprom_hash hash_from
hash_of_nothing = refl

-- The hash of "a" by the reference implementation of FNV-1a.
hash_of_a : eeprom_hash (b'a' ∷ []) ≡ 0xe40c292c
unfolding eeprom_hash hash_from
hash_of_a = refl

differ : eeprom_hash (5 ∷ 1 ∷ []) ≢ eeprom_hash (3 ∷ 1 ∷ [])
unfolding eeprom_hash hash_from
differ = omega arith

differ_back : eeprom_hash (3 ∷ 1 ∷ []) ≢ eeprom_hash (6 ∷ 1 ∷ [])
unfolding eeprom_hash hash_from
differ_back = omega arith

too_long : (set_eeprom_path none (some (replicate 1024 b'a')) 5 idle).0 ≡ false
unfolding set_eeprom_path
too_long = refl

b_is_not_a : eeprom_file file_b ≢ target aircraft
unfolding eeprom_file decode
b_is_not_a = λ e. omega (arith, ap decode e)

in_step : IsInStep aircraft
in_step = inl (file_a, refl)

reload_ignores_file_example :
    let (left, d, calls) = run_requests toy true (record idle { reload = true }) aircraft in
    (calls ≡ []) × IsKept encode aircraft d
unfolding eeprom_file encode toy-IsDocumented
reload_ignores_file_example =
    reload_ignores_file toy toy-IsDocumented true (record idle { reload = true }) aircraft refl refl
      refl refl

abbrev to_b : Requests
to_b = record idle { path = true; pending_path = file_b }

abbrev to_a : Requests
to_a = record idle { path = true; pending_path = file_a }

abbrev file_c : List ℕ
file_c = b'c' ∷ []

switch_to_existing_example :
    let (left, d, calls) = run_requests toy true to_b aircraft in
    IsSwitched toy encode aircraft file_b (5 ∷ 1 ∷ []) 5 to_b.full_init calls d
unfolding eeprom_file encode toy-IsDocumented
switch_to_existing_example =
    switch_to_existing toy toy-IsDocumented true to_b aircraft (5 ∷ 1 ∷ []) in_step refl refl
      b_is_not_a refl refl differ

switch_to_new_example :
    let (left, d, calls) = run_requests toy true (record to_b { pending_path = file_c }) aircraft in
    IsSwitched toy encode aircraft file_c (encode 7) 7 to_b.full_init calls d
unfolding eeprom_file decode encode toy-IsDocumented
switch_to_new_example =
    switch_to_new toy toy-IsDocumented true (record to_b { pending_path = file_c }) aircraft in_step
      refl refl (λ e. omega (arith, ap decode e)) (λ e. omega (arith, ap decode e)) refl

switch_and_back_example :
    let away = (run_requests toy true to_b aircraft).1 in
    let home = (run_requests toy true to_a (record away { config = 6 })).1 in
    (home.config ≡ select_profiles toy 3) × (home.disk (eeprom_file file_b) ≡ some (encode 6))
unfolding eeprom_file encode toy-IsDocumented
switch_and_back_example =
    switch_and_back toy toy-IsDocumented true to_b to_a aircraft (5 ∷ 1 ∷ []) 6 in_step refl refl
      refl refl b_is_not_a refl refl refl differ differ_back
