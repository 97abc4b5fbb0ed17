-- ===== src/Video/Screen.antt =====
-- libs/text-video/video.c: what scrolling and clearing leave in the screen's memory.
use saki_os.Base.{ℕ, ◌+◌, ◌≡◌, ◌∙◌, Bool, if◌then◌else◌, arith}
use saki_os.CString.{Memory, memmove}
use saki_os.CString.Blocks.{in_block, memmove_lem, memset_lem}
use saki_os.Video.{line_wrap, video_address, calc_offset}

-- the byte `b` (0 or 1) of the cell in column `x` of line `y`
abbrev pub cell : Memory → ℕ → ℕ → ℕ → ℕ
cell m x y b = m (video_address + calc_offset x y + b)

abbrev pub on_screen : ℕ → Bool
on_screen a = in_block video_address 4000 a

pub line_wrap_lem :
    (m : Memory) (a : ℕ)
    → line_wrap m a ≡ (
        if in_block (video_address + 3840) 160 a
        then 0
        else if in_block video_address 3840 a
        then m (a + 160)
        else m a)
unfolding line_wrap
line_wrap_lem m a =
    memset_lem 160 (video_address + 3840) 0 (memmove video_address (video_address + 160) 3840 m) a
    ∙ (ground (arith, memmove_lem video_address (video_address + 160) 3840 m a))
