-- ===== src/Input/Tests.antt =====
-- Reads of the parser, and the theorems at concrete reads.
use tuicord_v.Base.{◌≡◌, refl, true, List, [], ◌∷◌, none, some}
use tuicord_v.Input.Events.{
  no_mods, rune, up, left_button, press, Event, key_event, mouse_event, paste_event, pressed,
}
use tuicord_v.Input.Text.{
  has_prefix, index_text, split_from, cut_before, digits_from, atoi, rune_size, is_second,
  decode_rune, full_rune,
}
use tuicord_v.Input.Protocol.{
  control_key, csi_final_key, ss3_key, tilde_key, kitty_named_key, has_bit, mouse_button,
  mouse_mods, modifier_bits, kitty_mods, legacy_mods, numbers, split_params, suffix_from,
  longest_suffix_prefix,
}
use tuicord_v.Input.Sequences.{
  cell, parse_mouse, parse_kitty_key, parse_legacy_csi, is_sequence, csi_events,
}
use tuicord_v.Input.Parser.{
  Parser, new_parser, paste_open, set_alt, parse_paste, parse_plain, parse_csi, parse_ss3,
  parse_alt, parse_escape, parse_bytes, parse_round, parse, drain, feed, flush_within,
}
use tuicord_v.Input.Parser.Progress.{feed_total, flush_in_paste}
use tuicord_v.Input.Parser.Paste.{feeds, feeds_paste}

program : Unit {0}
unfolding has_prefix index_text split_from cut_before digits_from atoi rune_size is_second
    decode_rune full_rune control_key csi_final_key ss3_key tilde_key kitty_named_key has_bit
    mouse_button mouse_mods modifier_bits kitty_mods legacy_mods numbers split_params suffix_from
    longest_suffix_prefix set_alt parse_paste parse_plain cell parse_mouse parse_kitty_key
    parse_legacy_csi is_sequence csi_events parse_csi parse_ss3 parse_alt parse_escape parse_bytes
    parse_round parse drain feed flush_within feeds
program = tt

-- ESC [ < 0 ; 1 2 ; 5 M, a click at the column 11 and the row 4.
click :
    feed new_parser (27 ∷ b'[' ∷ b'<' ∷ b'0' ∷ b';' ∷ b'1' ∷ b'2' ∷ b';' ∷ b'5' ∷ b'M' ∷ [])
    ≡ some (
      new_parser,
      mouse_event (record { x = 11; y = 4; btn = left_button; mods = no_mods; kind = press }) ∷ [],
    )
unfolding program
click = refl

-- The two bytes of é in two reads.
two_reads :
    feeds new_parser ((0xC3 ∷ []) ∷ (0xA9 ∷ []) ∷ [])
    ≡ some (new_parser, key_event (pressed rune no_mods 0xE9) ∷ [])
unfolding program
two_reads = refl

arrow_with_alt :
    feed new_parser (27 ∷ b'[' ∷ b'1' ∷ b';' ∷ b'3' ∷ b'A' ∷ [])
    ≡ some (new_parser, key_event (pressed up (record no_mods { alt = true }) 0) ∷ [])
unfolding program
arrow_with_alt = refl

-- Alt and é in one read, and split inside é.
alt_rune :
    feeds new_parser ((27 ∷ 0xC3 ∷ 0xA9 ∷ []) ∷ [])
    ≡ some (new_parser, key_event (pressed rune (record no_mods { alt = true }) 0xE9) ∷ [])
unfolding program
alt_rune = refl

alt_rune_split : feeds new_parser ((27 ∷ 0xC3 ∷ []) ∷ (0xA9 ∷ []) ∷ []) ≡ some (new_parser, [])
unfolding program
alt_rune_split = refl

-- The text "a ESC [" and the end of the paste, in three reads.
feeds_paste_example :
    feeds new_parser (
      paste_open ∷ (b'a' ∷ 27 ∷ b'[' ∷ 27 ∷ b'[' ∷ []) ∷ [] ∷ (b'2' ∷ b'0' ∷ b'1' ∷ b'~' ∷ []) ∷ [])
    ≡ some (new_parser, paste_event (b'a' ∷ 27 ∷ b'[' ∷ []) ∷ [])
unfolding program
feeds_paste_example =
    feeds_paste (b'a' ∷ 27 ∷ b'[' ∷ [])
      ((b'a' ∷ 27 ∷ b'[' ∷ 27 ∷ b'[' ∷ []) ∷ [] ∷ (b'2' ∷ b'0' ∷ b'1' ∷ b'~' ∷ []) ∷ []) refl refl

feed_total_example : (r : Parser × List Event) × (feed new_parser (27 ∷ b'a' ∷ []) ≡ some r)
feed_total_example = feed_total new_parser (27 ∷ b'a' ∷ [])

abbrev pasting : Parser
pasting = record new_parser { pasting = true; buf = b'h' ∷ b'i' ∷ [] }

flush_in_paste_example : flush_within 1000 pasting ≡ none
unfolding program
flush_in_paste_example = flush_in_paste 1000 pasting refl refl
