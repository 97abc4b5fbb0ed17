-- ===== src/Tests/Screens.antt =====
-- libs/text-video/video.c.
use saki_os.Base.{◌+◌, ◌≡◌, refl, ◌&&◌, ◌==◌, if◌then◌else◌, arith}
use saki_os.Video.Putchar.{
  InScreen, putchar-InScreen, putchar-memory, view, scrolled, written, putchar-view,
}
use saki_os.Video.{Video, putchar}

-- the cursor in the last cell of a screen of zeroes
abbrev last : Video
last = record { x = 79; y = 24; memory = λ a. 0 }

last-InScreen : InScreen last
last-InScreen = omega arith

putchar-InScreen_example : InScreen (putchar b'A' last)
putchar-InScreen_example = putchar-InScreen b'A' last-InScreen

putchar-memory_example : (putchar b'A' last).memory 5 ≡ 0
putchar-memory_example = putchar-memory b'A' 5 last-InScreen refl

putchar-view_example : view (putchar b'A' last).memory 23 79 ≡ (
    let f = written (view last.memory) 24 79 (b'A' + 0xF00) in
    if 24 == 24 && 79 == 79 then scrolled f 23 79 else f 23 79)
putchar-view_example =
    putchar-view b'A' last-InScreen (omega arith) (omega arith) (omega arith) (omega arith)
      (omega arith) 23 79 (omega arith) (omega arith)
