-- ===== src/Scrollbar/Tests.antt =====
-- internal/tui/widget/scrollbar.go: a bar of ten rows beside a hundred lines of which twenty are shown.
use tuicord_v.Base.{◌≡◌, refl, some, arith}
use tuicord_v.Scrollbar.{
  Scrollbar, thumb_length, max_offset, geometry, offset_at, offset_for_thumb_top, scroll_to,
  geometry-offset_for_thumb_top,
}

abbrev bar : Scrollbar
bar = record { height = 10; offset = 37; viewport = 20; content = 100 }

placed : geometry bar ≡ some (4, 2, 80)
unfolding geometry
placed = refl

dragged : offset_for_thumb_top bar 7 ≡ 70
unfolding offset_for_thumb_top offset_at geometry
dragged = refl

geometry-offset_for_thumb_top_example :
    geometry (scroll_to bar 80 (offset_for_thumb_top bar 7))
    ≡ some (7, thumb_length bar, max_offset bar)
geometry-offset_for_thumb_top_example =
    geometry-offset_for_thumb_top bar 80 7 (omega arith) (omega arith) (omega arith) (omega arith)
      (omega arith) (omega arith)
