-- ===== src/Ppu/Drawn.antt =====
-- src/ppu.cpp: the lines of the background and the window are those of the tile maps.
use tlmboy.Base.{ℕ, ◌+◌, ◌-◌, ◌%◌, ◌<◌, ◌≡◌, ap, ◌∙◌, true, not, ◌||◌, some, leb, if◌then◌else◌}
use tlmboy.Ppu.{Ppu, draw_bg_to_line, draw_wndw_to_line, bg_tile_map, wndw_tile_map}
use tlmboy.Ppu.Lines.{
  with_buffer, painted, shows_bg, has_window, shows_window, draw_bg_to_line_lem,
  draw_wndw_to_line_lem,
}
use tlmboy.Ppu.Pixels.{shade, map_color, bg_pixel_lem, wndw_pixel_lem}

-- The colors of a line of the background.
abbrev pub bg_colors : Ppu → ℕ → ℕ → ℕ
bg_colors p line i =
    if shows_bg p
    then shade p.bgp
        (map_color p (bg_tile_map p) ((p.scroll_x + i) % 256) ((line + p.scroll_y) % 256))
    else 0

-- The colors of a line of the window.
abbrev pub wndw_colors : Ppu → ℕ → ℕ
wndw_colors p i =
    if shows_window p
    then shade p.bgp (map_color p (wndw_tile_map p) (i + 7 - p.wndw_x) p.window_line)
    else 0

-- Where the video RAM holds bytes, DrawBgToLine passes its assertions and gives each of the 160
-- columns of the line the color that the palette has for the scrolled pixel of the tile map, or
-- 0 where the background is off; every other column and line is kept.
pub draw_bg_to_line-colors :
    (line : ℕ) (p : Ppu)
    → ((a : ℕ) → p.vram a < 256)
    → draw_bg_to_line line p
      ≡ some (with_buffer (painted line (λ i. true) (bg_colors p line) 160 0 p.bg_buffer) p)
draw_bg_to_line-colors line p h =
    draw_bg_to_line_lem line p
    ∙ ap (λ f. some (with_buffer (painted line (λ i. true) f 160 0 p.bg_buffer) p))
        (λ t i. if shows_bg p then bg_pixel_lem p line i h t else 0)

-- Where the video RAM holds bytes and the window's line is below 256, DrawWndwToLine passes its
-- assertions: in a line with the window, the columns from its position on get the palette's
-- colors of the window's line of its map, or all columns 0 where the layer is off, and the
-- window's line goes up by one; in any other line nothing changes.
pub draw_wndw_to_line-colors :
    (line : ℕ) (p : Ppu)
    → ((a : ℕ) → p.vram a < 256)
    → p.window_line < 256
    → draw_wndw_to_line line p ≡ (
        if has_window line p
        then some (record p {
          bg_buffer =
              painted line
                (λ i. not (shows_window p) || leb p.wndw_x (i + 7))
                (wndw_colors p)
                160
                0
                p.bg_buffer;
          window_line = p.window_line + 1;
        })
        else some p)
draw_wndw_to_line-colors line p h k =
    draw_wndw_to_line_lem line p k
    ∙ ap
        (λ f.
          if has_window line p
          then some (record p {
            bg_buffer =
                painted line (λ i. not (shows_window p) || leb p.wndw_x (i + 7)) f 160 0
                  p.bg_buffer;
            window_line = p.window_line + 1;
          })
          else some p)
        (λ t i. if shows_window p then wndw_pixel_lem p i h t else 0)
