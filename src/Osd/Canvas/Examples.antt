-- ===== src/Osd/Canvas/Examples.antt =====
-- The canvas theorems at an SD canvas with a string that runs over its border.
use betaflight_sitl_udp.Base.{
  ◌+◌, ◌*◌, ◌-◌, ◌≡◌, refl, false, ◌&&◌, ◌==◌, List, [], ◌∷◌, some, arith, ltb, leb, if◌then◌else◌,
  add32,
}
use betaflight_sitl_udp.Osd.Canvas.{
  Frame, Firmware, Canvas, cleared, cell_char, max_cols, init, step, run, write_string, draw_screen,
  get_osd_frame, get_osd_revision, Event, clears, draws_string, draws_sys, commits,
}
use betaflight_sitl_udp.Osd.Canvas.Drawing.{
  IsBounded, init-IsBounded, step-IsBounded, text_cell, write_string_lem,
}
use betaflight_sitl_udp.Osd.Canvas.Publication.{frame_shows_commit}

abbrev firmware : Firmware
firmware = record { sd_cols = 30; sd_rows = 16; severity_normal = 0; displayport_device_msp = 1 }

abbrev powered_up : Canvas
powered_up = record {
  cols = 0;
  rows = 0;
  live = λ y x. cleared;
  published = record {
    cols = 0;
    rows = 0;
    video_system = 0;
    displayport_device = 0;
    active = 0;
    frames = 0;
    revision = 0;
    cells = λ k. cleared;
  };
  revision = 0;
  frame_count = 0;
  clear_calls = 0;
  write_string_calls = 0;
  write_char_calls = 0;
  write_sys_calls = 0;
  accepted_puts = 0;
  max_cells_at_publish = 0;
  sample = record { x = 0; y = 0; c = 0; count = 0 };
  active = false;
}

-- 99 columns are too many.
abbrev blank : Canvas
blank = init firmware 99 13 1 powered_up

abbrev arm : List Event
arm = draws_string 28 2 0 (some (65 ∷ 82 ∷ 77 ∷ [])) ∷ commits 1 ∷ clears ∷ []

arm_cells :
    let c = run firmware blank arm in
    (c.accepted_puts ≡ 2)
    × (c.max_cells_at_publish ≡ 2)
    × (c.published.cells (2 * max_cols + 29)
        ≡ record { kind = cell_char; character = 82; attribute = 0 })
    × (get_osd_revision c ≡ 2)
unfolding run init get_osd_revision
arm_cells = (refl, refl, refl, refl)

step-IsBounded_example : IsBounded (step firmware blank (draws_sys 200 3 5))
step-IsBounded_example =
    step-IsBounded firmware (draws_sys 200 3 5)
      (init-IsBounded firmware 99 13 1 powered_up (omega arith) (omega arith))

write_string_lem_example : (write_string blank 28 2 0 (some (65 ∷ 82 ∷ 77 ∷ []))).live 2 29 ≡ (
    if 2 == 2 && ltb 2 blank.rows && leb 28 29 && ltb 29 blank.cols
    then text_cell (65 ∷ 82 ∷ 77 ∷ []) (29 - 28) 0 (blank.live 2 29)
    else blank.live 2 29)
unfolding init
write_string_lem_example =
    write_string_lem blank 28 2 0 (65 ∷ 82 ∷ 77 ∷ []) 2 29 (omega arith) (omega arith)

frame_shows_commit_example :
    (frame : Frame) × (get_osd_frame (run firmware (draw_screen 1 blank) (clears ∷ []))
      ≡ some frame)
    × (frame.cells (2 * max_cols + 29) ≡ blank.live 2 29)
    × (frame.revision ≡ add32 blank.revision 1)
    × (frame.frames ≡ blank.frame_count)
unfolding init
frame_shows_commit_example =
    frame_shows_commit firmware 1 (clears ∷ []) blank 2 29 refl (omega arith) (omega arith)
      (omega arith) tt
