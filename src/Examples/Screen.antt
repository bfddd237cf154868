-- ===== src/Examples/Screen.antt =====
-- The PPU at a concrete state.
use tlmboy.Base.{
  ℕ, ◌+◌, ◌*◌, ◌%◌, ◌<◌, ◌≡◌, refl, arith, true, some, length, get_or, ltb, leb, ◌==◌,
  if◌then◌else◌,
}
use tlmboy.Ppu.Screenshot.{save_screenshot}
use tlmboy.Ppu.Screenshot.Pixels.{save_screenshot_lem}
use tlmboy.Ppu.{Ppu, draw_bg_to_line, draw_wndw_to_line}
use tlmboy.Ppu.Sprites.{sorted_oam, draw_sprite_to_line}
use tlmboy.Ppu.Lines.{with_buffer, painted}
use tlmboy.Ppu.Drawn.{bg_colors, wndw_colors, draw_bg_to_line-colors, draw_wndw_to_line-colors}
use tlmboy.Ppu.Selection.{Chosen, sorted_oam-Chosen}
use tlmboy.Ppu.Priority.{top_color, draw_sprite_to_line-top}
use tlmboy.Ppu.Pixels.{with_vram}
use tlmboy.Ppu.Inside.{behind, Agree}
use tlmboy.Ppu.Reads.{draw_line-inside}
use tlmboy.Ppu.Render.{draw_line, oam_search}
use tlmboy.Ppu.Frame.{Timed, OnlyBuffers}
use tlmboy.Ppu.Cycle.{run, Leaves, run-Timed, run-frame}

-- All layers are on; the sprites 1 and 2 overlap in the line 0.
abbrev ppu : Ppu
ppu = record {
  lcdc = 0xB3;
  stat = 2;
  scroll_y = 3;
  scroll_x = 250;
  lcdc_y = 0;
  ly_comp = 5;
  bgp = 0xE4;
  obp_0 = 0xE4;
  obp_1 = 0x1B;
  wndw_y = 0;
  wndw_x = 87;
  pending = 0;
  vram = λ a. a % 256;
  oam = λ a.
      if a == 4 then 16 else if a == 5 then 20 else if a == 8 then 16 else if a == 9 then 18 else 0;
  bg_buffer = λ y x. 0;
  sprite_buffer = λ y x. 4;
  window_line = 0;
  render_bg = true;
  render_sprites = true;
  render_wndw = true;
}

vram_bytes : (a : ℕ) → ppu.vram a < 256
vram_bytes a = omega arith

draw_bg_to_line-colors_example :
    draw_bg_to_line 7 ppu
    ≡ some (with_buffer (painted 7 (λ i. true) (bg_colors ppu 7) 160 0 ppu.bg_buffer) ppu)
draw_bg_to_line-colors_example = draw_bg_to_line-colors 7 ppu vram_bytes

draw_wndw_to_line-colors_example :
    draw_wndw_to_line 7 ppu
    ≡ some (record ppu {
      bg_buffer = painted 7 (λ i. leb 87 (i + 7)) (wndw_colors ppu) 160 0 ppu.bg_buffer;
      window_line = 1;
    })
draw_wndw_to_line-colors_example = draw_wndw_to_line-colors 7 ppu vram_bytes (omega arith)

sorted_oam-Chosen_example : Chosen ppu 0 (sorted_oam ppu 0)
sorted_oam-Chosen_example = sorted_oam-Chosen ppu 0

draw_sprite_to_line-top_example :
    (draw_sprite_to_line 0 ppu).sprite_buffer 0 13 ≡ top_color ppu 0 13 (sorted_oam ppu 0) 4
draw_sprite_to_line-top_example = draw_sprite_to_line-top 0 13 ppu (omega arith)

-- No window is open, and the CPU writes the scroll registers between the turns.
abbrev headless : Ppu → Ppu
headless p = p

headless-OnlyBuffers : OnlyBuffers headless
headless-OnlyBuffers = record {
  buffers_only = λ p. record { buffer = p.bg_buffer; sprites = p.sprite_buffer; same = refl };
}

abbrev scrolls : ℕ → Ppu → Ppu
scrolls n p = record p { scroll_x = n % 256; scroll_y = 2 * n % 256 }

scrolls-Leaves : (n : ℕ) → Leaves (scrolls n)
scrolls-Leaves n = record {
  same_ly = λ p. refl;
  same_mode = λ p. refl;
  same_window_line = λ p. refl;
}

run-Timed_example :
    (q : Ppu) × (run headless scrolls 3 0 (oam_search 0) ppu ≡ some (q, 456, oam_search 1))
    × Timed (oam_search 1) q
run-Timed_example =
    run-Timed headless headless-OnlyBuffers scrolls scrolls-Leaves 3 0 (oam_search 0) ppu
      (omega arith, refl, refl, omega arith)

run-frame_example :
    (q : Ppu) × (run headless scrolls 442 80 (oam_search 0) ppu ≡ some (q, 70304, oam_search 0))
    × Timed (oam_search 0) q
run-frame_example =
    run-frame headless headless-OnlyBuffers scrolls scrolls-Leaves 80 ppu
      (omega arith, refl, refl, omega arith)

-- The same video RAM, with another byte behind its end.
abbrev longer : ℕ → ℕ
longer a = if ltb a 0x2000 then a % 256 else 99

longer-Agree : Agree longer ppu.vram
longer-Agree a h = ground arith

oam_bytes : (a : ℕ) → ppu.oam a < 256
oam_bytes a = ground arith

draw_line-inside_example : draw_line 0 (with_vram longer ppu) ≡ behind longer (draw_line 0 ppu)
draw_line-inside_example = draw_line-inside longer 0 ppu longer-Agree oam_bytes (omega arith)

abbrev greys : ℕ → ℕ → ℕ
greys j i = if j == 0 then 0xF2 else if j == 1 then 0xAA else 0

greys_bytes : (j i : ℕ) → greys j i < 256
greys_bytes j i = ground arith

save_screenshot_example :
    (length (save_screenshot greys (some ppu)) ≡ 92282)
    × (get_or (save_screenshot greys (some ppu)) 92118 0 ≡ 0xF2)
save_screenshot_example =
    save_screenshot_lem greys (some ppu) 0 119 0 greys_bytes (omega arith) (omega arith)
      (omega arith)
