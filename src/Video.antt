-- ===== src/Video.antt =====
-- libs/text-video/video.c: the text screen at 0xB8000, 25 lines of 80 cells of two bytes. `static`
-- variables `x` and `y` and the memory are the state.
pub mod Screen
pub mod Putchar
use Prim.Native.Nat.{bit_or}
use saki_os.Base.{ℕ, ◌+◌, ◌-◌, ◌*◌, ◌/◌, ◌%◌, ◌^◌, ◌==◌, if◌then◌else◌}
use saki_os.CString.{Memory, store, memmove, memset}

abbrev pub video_address : ℕ
video_address = 0xB8000

abbrev pub char_per_line : ℕ
char_per_line = 80

abbrev pub line_per_screen : ℕ
line_per_screen = 25

pub record Video : Type 0 where
  pub x : ℕ
  pub y : ℕ
  pub memory : Memory

abbrev pub calc_offset : ℕ → ℕ → ℕ
calc_offset x y = y * 160 + x * 2

unfoldable pub line_wrap : Memory → Memory
line_wrap m =
    memset (video_address + char_per_line * (line_per_screen - 1) * 2) 0 (char_per_line * 2) (
      memmove video_address (video_address + char_per_line * 2)
        (char_per_line * (line_per_screen - 1) * 2) m)

-- `if (y == LINE_PER_SCREEN) { lineWrap(); y--; }`
unfoldable pub wrap_screen : Video → Video
wrap_screen v =
    if v.y == line_per_screen then record v { memory = line_wrap v.memory; y = v.y - 1 } else v

-- `if (x == CHAR_PER_LINE) { x = 0; y++; }`
unfoldable pub wrap_line : Video → Video
wrap_line v = if v.x == char_per_line then record v { x = 0; y = v.y + 1 } else v

-- `*(uint16_t *)p = v`, little-endian
unfoldable pub store16 : Memory → ℕ → ℕ → Memory
store16 m p v = store (store m p (v % 2 ^ 8)) (p + 1) (v / 2 ^ 8 % 2 ^ 8)

-- The returned character is the argument. `'\r'` is 13, `'\n'` 10, `'\t'` 9 and `'\f'` 12.
unfoldable pub putchar : ℕ → Video → Video
putchar character v =
    if character == 13
    then record v { x = 0 }
    else if character == 10
    then wrap_screen (record v { x = 0; y = v.y + 1 })
    else if character == 9
    then wrap_screen (wrap_line (record v { x = (v.x + 4) / 4 * 4 }))
    else if character == 12
    then record v {
      memory = memset video_address 0 (char_per_line * line_per_screen * 2) v.memory;
      x = 0;
      y = 0;
    }
    else wrap_screen (
        wrap_line (record v {
          memory =
              store16 v.memory (video_address + calc_offset v.x v.y)
                (bit_or character (0xF * 2 ^ 8) % 2 ^ 16);
          x = v.x + 1;
        }))
