-- ===== src/Local/Modes/CrashFlip.antt =====
-- The crash-flip latch against the history of a flight.
use betaflight_sitl_udp.Base.{
  ◌≡◌, refl, ◌∙◌, ap, Bool, true, false, ◌&&◌, List, [], ◌∷◌, if◌then◌else◌, reverse_onto, arith,
}
use betaflight_sitl_udp.Local.Modes.{Latch, update_latch, update_all}

abbrev pub disarmed : Latch
disarmed = record { latched = false; was_armed = false }

-- Whether the craft is armed, in a history that stands with the latest step first.
abbrev pub is_armed : List (Bool × Bool) → Bool
is_armed [] = false
is_armed ((armed, box) ∷ earlier) = armed

-- Whether the box was on at each step since the craft was armed last.
abbrev pub on_since_arming : List (Bool × Bool) → Bool
on_since_arming [] = true
on_since_arming ((armed, box) ∷ earlier) =
    let before = on_since_arming earlier in if armed then box && before else true

abbrev after : List (Bool × Bool) → Latch
after [] = disarmed
after ((armed, box) ∷ earlier) = update_latch armed box (after earlier)

update_all-reverse :
    (later earlier : List (Bool × Bool))
    → update_all (reverse_onto later earlier) disarmed ≡ update_all later (after earlier)
unfolding update_all
update_all-reverse later [] = refl
update_all-reverse later ((armed, box) ∷ earlier) =
    update_all-reverse ((armed, box) ∷ later) earlier

after_lem :
    (history : List (Bool × Bool))
    → ((after history).latched ≡ (is_armed history && on_since_arming history))
      × ((after history).was_armed ≡ is_armed history)
unfolding update_latch
after_lem [] = (refl, refl)
after_lem ((armed, box) ∷ earlier) = ground (arith, after_lem earlier)

-- Through any history of steps from the disarmed state on, the latch is set if and only if the craft is
-- armed and the crash-flip box was on at each step since it was armed.
pub update_all_lem :
    (history : List (Bool × Bool))
    → (update_all (reverse_onto [] history) disarmed).latched
      ≡ (is_armed history && on_since_arming history)
unfolding update_all
update_all_lem history =
    ap (λ (l : Latch). l.latched) (update_all-reverse [] history) ∙ (after_lem history).0
