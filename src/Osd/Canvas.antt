-- ===== src/Osd/Canvas.antt =====
-- The OSD canvas of src/sitl_osd.c: the grid `gLive` that the firmware draws on, the frame
-- `gPublished` that a host reads, and the functions of the wrapped displayport that change them. What
-- the real driver does with the same calls, and its answers, is not modelled. The grid is a function
-- of the row and the column, and the three arrays of the frame, which share their index, are one.
-- Counters are `uint32_t`. The lock makes each function one step.
pub mod Drawing
pub mod Publication
mod Examples
use betaflight_sitl_udp.Base.{
  ℕ, zero, suc, ◌+◌, ◌*◌, ◌==◌, Bool, true, false, ◌&&◌, ◌||◌, List, [], ◌∷◌, Option, none, some,
  ltb, leb, if◌then◌else◌, u8, add32,
}

-- `osdCell_t`.
pub record Cell : Type 0 where
  pub kind : ℕ
  pub character : ℕ
  pub attribute : ℕ

-- SITL_LOCAL_OSD_CELL_BLANK and the kinds of the cells that are not blank.
abbrev pub cell_blank : ℕ
cell_blank = 0

abbrev pub cell_char : ℕ
cell_char = 1

abbrev pub cell_sys : ℕ
cell_sys = 2

abbrev pub max_cols : ℕ
max_cols = 64

abbrev pub max_rows : ℕ
max_rows = 32

-- A cell after `memset(…, 0, …)`.
abbrev pub cleared : Cell
cleared = record { kind = 0; character = 0; attribute = 0 }

-- What the source takes from the firmware's headers: OSD_SD_COLS, OSD_SD_ROWS,
-- DISPLAYPORT_SEVERITY_NORMAL and OSD_DISPLAYPORT_DEVICE_MSP.
pub record Firmware : Type 0 where
  pub sd_cols : ℕ
  pub sd_rows : ℕ
  pub severity_normal : ℕ
  pub displayport_device_msp : ℕ

-- `sitl_local_osd_frame_t`.
pub record Frame : Type 0 where
  pub cols : ℕ
  pub rows : ℕ
  pub video_system : ℕ
  pub displayport_device : ℕ
  pub active : ℕ
  pub frames : ℕ
  pub revision : ℕ
  pub cells : ℕ → Cell

-- `gSampleX`, `gSampleY`, `gSampleC` and `gSampleCount`.
pub record Sample : Type 0 where
  pub x : ℕ
  pub y : ℕ
  pub c : ℕ
  pub count : ℕ

pub record Canvas : Type 0 where
  pub cols : ℕ
  pub rows : ℕ
  pub live : ℕ → ℕ → Cell
  pub published : Frame
  pub revision : ℕ
  pub frame_count : ℕ
  pub clear_calls : ℕ
  pub write_string_calls : ℕ
  pub write_char_calls : ℕ
  pub write_sys_calls : ℕ
  pub accepted_puts : ℕ
  pub max_cells_at_publish : ℕ
  pub sample : Sample
  pub active : Bool

-- `gLive[y][x] = cell`.
pub set_cell : (ℕ → ℕ → Cell) → ℕ → ℕ → Cell → ℕ → ℕ → Cell
set_cell live y x cell j i = if j == y && i == x then cell else live j i

-- The sample that `osdPut` takes of the first eight puts.
pub take_sample : Sample → ℕ → ℕ → ℕ → Sample
take_sample s x y character =
    if ltb s.count 8 then record { x = x; y = y; c = character; count = add32 s.count 1 } else s

-- `osdPut`.
pub put : Canvas → ℕ → ℕ → Cell → Canvas
unfolding set_cell take_sample
put c x y cell = if leb c.cols x || leb c.rows y then c else record c {
  live = set_cell c.live y x cell;
  accepted_puts = add32 c.accepted_puts 1;
  sample = take_sample c.sample x y cell.character;
}

-- `wrapClearScreen`, which calls `osdClearLive`.
pub clear_screen : Canvas → Canvas
clear_screen c = record c { clear_calls = add32 c.clear_calls 1; live = λ y x. cleared }

-- `wrapWriteSys`.
pub write_sys : Firmware → Canvas → ℕ → ℕ → ℕ → Canvas
unfolding put
write_sys firmware c x y element =
    put (record c { write_sys_calls = add32 c.write_sys_calls 1 }) x y
      (record { kind = cell_sys; character = u8 element; attribute = u8 firmware.severity_normal })

-- `wrapWriteChar`.
pub write_char : Canvas → ℕ → ℕ → ℕ → ℕ → Canvas
unfolding put
write_char c x y attr character =
    put (record c { write_char_calls = add32 c.write_char_calls 1 }) x y
      (record { kind = cell_char; character = character; attribute = attr })

-- The loop of `wrapWriteString` from the index `i` on, over the characters before the terminator.
pub write_from : ℕ → ℕ → ℕ → ℕ → List ℕ → Canvas → Canvas
unfolding put
write_from i x y attr [] c = c
write_from i x y attr (ch ∷ text) c =
    let more =
      write_from (i + 1) x y attr text
        (put c (u8 (x + i)) y (record { kind = cell_char; character = u8 ch; attribute = attr })) in
    if leb c.cols (u8 (x + i)) then c else more

-- `wrapWriteString`; a null pointer writes nothing.
pub write_string : Canvas → ℕ → ℕ → ℕ → Option (List ℕ) → Canvas
unfolding write_from
write_string c x y attr none = record c { write_string_calls = add32 c.write_string_calls 1 }
write_string c x y attr (some text) =
    write_from 0 x y attr text (record c { write_string_calls = add32 c.write_string_calls 1 })

-- `osdCountLive`: its two loops, over the columns before `x` and the rows before `y`.
pub count_row : (ℕ → ℕ → Cell) → ℕ → ℕ → ℕ
count_row live y zero = 0
count_row live y (suc x) = (if (live y x).kind == cell_blank then 0 else 1) + count_row live y x

pub count_live : (ℕ → ℕ → Cell) → ℕ → ℕ → ℕ
unfolding count_row
count_live live cols zero = 0
count_live live cols (suc y) = count_row live y cols + count_live live cols y

-- The two copying loops of `osdPublish`, over the columns before `x` and the rows before `y`.
pub copy_row : (ℕ → ℕ → Cell) → ℕ → ℕ → (ℕ → Cell) → ℕ → Cell
copy_row live y zero cells k = cells k
copy_row live y (suc x) cells k =
    let before = copy_row live y x cells k in if k == y * max_cols + x then live y x else before

pub copy_rows : (ℕ → ℕ → Cell) → ℕ → ℕ → (ℕ → Cell) → ℕ → Cell
unfolding copy_row
copy_rows live cols zero cells k = cells k
copy_rows live cols (suc y) cells k = copy_row live y cols (copy_rows live cols y cells) k

-- `osdPublish`; `video_system` is that of the firmware's profile.
pub publish : ℕ → Canvas → Canvas
unfolding copy_rows count_live
publish video_system c =
    let live_cells = count_live c.live c.cols c.rows in
    record c {
      published = record (c.published) {
        cols = c.cols;
        rows = c.rows;
        video_system = u8 video_system;
        active = 1;
        frames = c.frame_count;
        revision = add32 c.revision 1;
        cells = copy_rows c.live c.cols c.rows c.published.cells;
      };
      revision = add32 c.revision 1;
      max_cells_at_publish =
          if ltb c.max_cells_at_publish live_cells then live_cells else c.max_cells_at_publish;
    }

-- `wrapDrawScreen`.
pub draw_screen : ℕ → Canvas → Canvas
unfolding publish
draw_screen video_system c =
    let p = publish video_system c in record p { frame_count = add32 p.frame_count 1 }

-- The size that `displayPortMspInit` takes from the displayport, with OSD_SD_COLS or OSD_SD_ROWS of
-- the firmware in place of one that is zero or too large.
abbrev pub clamp_size : ℕ → ℕ → ℕ → ℕ
clamp_size size largest standard = if size == 0 || ltb largest size then u8 standard else size

-- `displayPortMspInit`, where the real driver gave a displayport of `cols` times `rows`.
pub init : Firmware → ℕ → ℕ → ℕ → Canvas → Canvas
init firmware cols rows video_system c = record c {
  cols = clamp_size cols max_cols firmware.sd_cols;
  rows = clamp_size rows max_rows firmware.sd_rows;
  live = λ y x. cleared;
  published = record {
    cols = clamp_size cols max_cols firmware.sd_cols;
    rows = clamp_size rows max_rows firmware.sd_rows;
    video_system = u8 video_system;
    displayport_device = u8 firmware.displayport_device_msp;
    active = 1;
    frames = 0;
    revision = add32 c.revision 1;
    cells = λ k. cleared;
  };
  revision = add32 c.revision 1;
  active = true;
}

-- `sitl_local_get_osd_frame`; `none` is the result -1.
pub get_osd_frame : Canvas → Option Frame
get_osd_frame c = if c.active then some (c.published) else none

-- `sitl_local_get_osd_revision`.
pub get_osd_revision : Canvas → ℕ
get_osd_revision c = if c.active then c.published.revision else 0

-- What the firmware does to the displayport.
pub data Event : Type 0 where
  clears : Event
  draws_char : ℕ → ℕ → ℕ → ℕ → Event
  draws_string : ℕ → ℕ → ℕ → Option (List ℕ) → Event
  draws_sys : ℕ → ℕ → ℕ → Event
  commits : ℕ → Event

pub step : Firmware → Canvas → Event → Canvas
unfolding clear_screen write_char write_string write_sys draw_screen
step firmware c clears = clear_screen c
step firmware c (draws_char x y attr character) = write_char c x y attr character
step firmware c (draws_string x y attr text) = write_string c x y attr text
step firmware c (draws_sys x y element) = write_sys firmware c x y element
step firmware c (commits video_system) = draw_screen video_system c

pub run : Firmware → Canvas → List Event → Canvas
unfolding step
run firmware c [] = c
run firmware c (e ∷ events) = run firmware (step firmware c e) events
