-- ===== src/Video/Putchar.antt =====
-- `putchar` of libs/text-video/video.c: the cursor stays on the screen, writes stay in its memory,
-- and the cells change as those of a terminal that scrolls.
use Prim.Native.Nat.{bit_or}
use saki_os.Base.{
  ℕ, ◌+◌, ◌*◌, ◌/◌, ◌%◌, ◌^◌, ◌<◌, ◌≡◌, ◌≢◌, ◌∙◌, ap, false, ◌&&◌, ◌==◌, if◌then◌else◌, arith, inl,
  inr, Bool-cases,
}
use saki_os.Base.Bits.{bit_or_F00}
use saki_os.CString.{Memory, store}
use saki_os.CString.Blocks.{memset_lem}
use saki_os.Video.{
  Video, line_wrap, wrap_screen, wrap_line, store16, putchar, video_address, calc_offset,
}
use saki_os.Video.Screen.{on_screen, line_wrap_lem}

pub record InScreen (v : Video) : Type 0 where
  pub column : v.x < 80
  pub line : v.y < 25

-- Every character leaves the cursor on the screen.
pub putchar-InScreen : (c : ℕ) {v : Video} → InScreen v → InScreen (putchar c v)
unfolding putchar wrap_screen wrap_line
putchar-InScreen c i = ground arith

wrap_line-memory : (v : Video) → (wrap_line v).memory ≡ v.memory
unfolding wrap_line
wrap_line-memory v = ground arith

wrap_screen_outside :
    (v : Video) (a : ℕ) → on_screen a ≡ false → (wrap_screen v).memory a ≡ v.memory a
unfolding wrap_screen
wrap_screen_outside v a out = ground (arith, line_wrap_lem v.memory a)

store16_outside :
    (m : Memory) (x y w a : ℕ)
    → x < 80
    → y < 25
    → on_screen a ≡ false
    → store16 m (video_address + calc_offset x y) w a ≡ m a
unfolding store16 store
store16_outside m x y w a hx hy out = ground arith

moved_outside :
    (w : Video) (a : ℕ) → on_screen a ≡ false → (wrap_screen (wrap_line w)).memory a ≡ w.memory a
moved_outside w a out =
    wrap_screen_outside (wrap_line w) a out ∙ ap (λ (m : Memory). m a) (wrap_line-memory w)

-- the state after the write of a printable character, before the wraps
abbrev printed : ℕ → Video → Video
printed c v = record v {
  memory = store16 v.memory (video_address + calc_offset v.x v.y) (bit_or c (0xF * 2 ^ 8) % 2 ^ 16);
  x = v.x + 1;
}

-- With the cursor on the screen no character changes memory outside the 4000 bytes of the screen.
pub putchar-memory :
    (c : ℕ) {v : Video} (a : ℕ)
    → InScreen v
    → on_screen a ≡ false
    → (putchar c v).memory a ≡ v.memory a
unfolding putchar
putchar-memory c {v} a i out = elim (Bool-cases (c == 13)) [
  | inl e ↦ rw e
  | inr e ↦ rw e (elim (Bool-cases (c == 10)) [
    | inl e ↦ rw e (wrap_screen_outside (record v { x = 0; y = v.y + 1 }) a out)
    | inr e ↦ rw e (elim (Bool-cases (c == 9)) [
      | inl e ↦ rw e (moved_outside (record v { x = (v.x + 4) / 4 * 4 }) a out)
      | inr e ↦ rw e (elim (Bool-cases (c == 12)) [
        | inl e ↦ rw e (memset_lem 4000 video_address 0 v.memory a ∙ rw out)
        | inr e ↦ rw e (
            moved_outside (printed c v) a out
            ∙ store16_outside v.memory v.x v.y (bit_or c 0xF00 % 2 ^ 16) a i.column i.line out)
      ])
    ])
  ])
]

-- the 16-bit cell in column `x` of line `y`
abbrev pub view : Memory → ℕ → ℕ → ℕ
view m y x = m (video_address + calc_offset x y) + 2 ^ 8 * m (video_address + calc_offset x y + 1)

-- Lines move up by one, and the last one is blank.
abbrev pub scrolled : (ℕ → ℕ → ℕ) → ℕ → ℕ → ℕ
scrolled f y x = if y == 24 then 0 else f (y + 1) x

abbrev pub written : (ℕ → ℕ → ℕ) → ℕ → ℕ → ℕ → ℕ → ℕ → ℕ
written f line column w y x = if y == line && x == column then w else f y x

line_wrap-scrolled :
    (m : Memory) (y x : ℕ) → y < 25 → x < 80 → view (line_wrap m) y x ≡ scrolled (view m) y x
line_wrap-scrolled m y x hy hx =
    let p = video_address + calc_offset x y in
    rw (line_wrap_lem m p, line_wrap_lem m (p + 1)) (ground arith)

store16-written :
    (m : Memory) (line column w y x : ℕ)
    → line < 25
    → column < 80
    → y < 25
    → x < 80
    → w < 2 ^ 16
    → view (store16 m (video_address + calc_offset column line) w) y x
      ≡ written (view m) line column w y x
unfolding store16 store
store16-written m line column w y x hl hc hy hx hw = ground arith

moved-memory :
    (w : Video)
    → w.y < 25
    → (wrap_screen (wrap_line w)).memory
      ≡ (if w.y == 24 && w.x == 80 then line_wrap w.memory else w.memory)
unfolding wrap_screen wrap_line
moved-memory w h = ground arith

module _ (c : ℕ) {v : Video} (i : InScreen v) where
  module _ (small : c < 256) (cr : c ≢ 13) (lf : c ≢ 10) (tab : c ≢ 9) (ff : c ≢ 12) where
    printing : putchar c v ≡ wrap_screen (wrap_line (printed c v))
    unfolding putchar
    printing = ground arith

    -- A printable character writes its cell in white on black, and the screen scrolls after the
    -- last cell.
    pub putchar-view :
        (y x : ℕ)
        → y < 25
        → x < 80
        → view (putchar c v).memory y x ≡ (
            let f = written (view v.memory) v.y v.x (c + 0xF00) in
            if v.y == 24 && v.x == 79 then scrolled f y x else f y x)
    putchar-view y x hy hx =
        let m = (printed c v).memory in
        let w : bit_or c (0xF * 2 ^ 8) % 2 ^ 16 ≡ c + 0xF00 =
          rw (bit_or_F00 c small) (omega arith) in
        rw (printing, moved-memory (printed c v) i.line)
          (ground (
            arith,
            line_wrap-scrolled m y x hy hx,
            store16-written v.memory v.y v.x (bit_or c (0xF * 2 ^ 8) % 2 ^ 16) y x i.line i.column
                hy hx (omega arith),
            store16-written v.memory v.y v.x (bit_or c (0xF * 2 ^ 8) % 2 ^ 16) (y + 1) x i.line
                i.column,
            w,
          ))

    -- The cursor moves to the next cell, and from the last cell to the start of the last line.
    putchar-cursor :
        (putchar c v).y * 80 + (putchar c v).x
        ≡ (if v.y == 24 && v.x == 79 then 24 * 80 else v.y * 80 + v.x + 1)
    putchar-cursor = rw printing (unfold wrap_screen wrap_line in ground arith)
