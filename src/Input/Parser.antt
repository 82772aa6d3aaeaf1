-- ===== src/Input/Parser.antt =====
-- internal/tui/input/parser.go: Parser. A method returns the new parser, and whether the loop of
-- `parse` goes on; the loop runs on fuel and gives `none` when the fuel is not enough.
pub mod Progress
pub mod Markers
pub mod Paste
use mathlib.Core.Option
use tuicord_v.Base.{
  ℕ, zero, suc, ◌+◌, ◌-◌, Bool, true, false, ◌&&◌, ◌||◌, not, List, [], ◌∷◌, ◌++◌, Option, none,
  some, length, get_or, take, drop, index_of, ltb, leb, ◌==◌, if◌then◌else◌,
}
use tuicord_v.Input.Events.{
  no_mods, rune, esc, enter, tab, backspace, Event, key_event, paste_event, pressed,
}
use tuicord_v.Input.Text.{index_text, decode_rune, full_rune, rune_error}
use tuicord_v.Input.Protocol.{control_key, ss3_key, longest_suffix_prefix}
use tuicord_v.Input.Sequences.{is_sequence, csi_events}

abbrev pub esc_byte : ℕ
esc_byte = 0x1b

abbrev pub paste_end : List ℕ
paste_end = 0x1b ∷ b'[' ∷ b'2' ∷ b'0' ∷ b'1' ∷ b'~' ∷ []

abbrev pub paste_open : List ℕ
paste_open = 0x1b ∷ b'[' ∷ b'2' ∷ b'0' ∷ b'0' ∷ b'~' ∷ []

pub record Parser : Type 0 where
  pub buf : List ℕ
  pub events : List Event
  pub pasting : Bool
  pub paste : List ℕ

abbrev pub new_parser : Parser
new_parser = record { buf = []; events = []; pasting = false; paste = [] }

abbrev pub emit : Parser → Event → Parser
emit p ev = record p { events = p.events ++ ev ∷ [] }

-- The events without the last, and the last.
unfoldable pub set_alt : List Event → List Event
set_alt [] = []
set_alt (key_event k ∷ []) = key_event (record k { mods = record k.mods { alt = true } }) ∷ []
set_alt (ev ∷ []) = ev ∷ []
set_alt (ev ∷ ev' ∷ evs) = ev ∷ set_alt (ev' ∷ evs)

unfoldable pub parse_paste : Bool → Parser → Parser × Bool
parse_paste flush p =
    let keep = if flush then 0 else longest_suffix_prefix p.buf paste_end in
    let cut = length p.buf - keep in
    elim (index_text p.buf paste_end) [
      | some i ↦ (
        record {
          buf = drop (i + length paste_end) p.buf;
          events = p.events ++ paste_event (p.paste ++ take i p.buf) ∷ [];
          pasting = false;
          paste = [];
        },
        true,
      )
      | none ↦ (
        if ltb keep (length p.buf)
            then record p { paste = p.paste ++ take cut p.buf; buf = drop cut p.buf }
            else p,
        flush,
      )
    ]

-- `parsePlain` of the first byte and the rest of the buffer.
unfoldable pub parse_plain : Bool → Parser → ℕ → List ℕ → Parser × Bool
parse_plain flush p b rest =
    let next = record p { buf = rest } in
    let (r, n) = decode_rune b rest in
    let wrong = r == rune_error && n == 1 in
    if b == 0x0d || b == 0x0a
    then (emit next (key_event (pressed enter no_mods 0)), true)
    else if b == 0x09
    then (emit next (key_event (pressed tab no_mods 0)), true)
    else if b == 0x7f || b == 0x08
    then (emit next (key_event (pressed backspace no_mods 0)), true)
    else if ltb b 0x20
    then (emit next (key_event (control_key b)), true)
    else if wrong && not (full_rune b rest) && not flush
    then (record p { buf = b ∷ rest }, false)
    else if wrong
    then (next, true)
    else (emit (record p { buf = drop (n - 1) rest }) (key_event (pressed rune no_mods r)), true)

abbrev pub is_final : ℕ → Bool
is_final b = leb 0x40 b && leb b 0x7e

-- `parseCSI`, of the buffer after `ESC [`.
unfoldable pub parse_csi : Bool → Parser → List ℕ → Parser × Bool
parse_csi flush p body = elim (index_of is_final body) [
  | none ↦ (if flush then record p { buf = [] } else p, flush)
  | some end ↦
      let seq = take end body in
      let final = get_or body end 0 in
      let next = record p { buf = drop (end + 1) body } in
      if is_sequence seq final (drop 2 paste_open)
      then (record next { pasting = true }, true)
      else (record next { events = p.events ++ csi_events seq final }, true)
]

-- `parseSS3`, of the buffer after `ESC O`.
unfoldable pub parse_ss3 : Bool → Parser → List ℕ → Parser × Bool
parse_ss3 flush p [] = (if flush then record p { buf = [] } else p, flush)
parse_ss3 flush p (b ∷ rest) =
    let next = record p { buf = rest } in
    (
      elim (ss3_key b) [ none ↦ next | some key ↦ emit next (key_event (pressed key no_mods 0)) ],
      true,
    )

-- `parsePlain(true)` after an ESC, with Alt added to an event that it has emitted. It never stops
-- the loop, since it flushes.
unfoldable pub parse_alt : Parser → ℕ → List ℕ → Parser
parse_alt p b rest =
    let (next, more) = parse_plain true (record p { buf = b ∷ rest }) b rest in
    if not more
    then emit next (key_event (pressed esc no_mods 0))
    else if ltb (length p.events) (length next.events)
    then record next { events = set_alt next.events }
    else next

-- `parseEscape`, of the buffer after ESC.
unfoldable pub parse_escape : Bool → Parser → List ℕ → Parser × Bool
parse_escape flush p [] =
    if flush
    then (emit (record p { buf = [] }) (key_event (pressed esc no_mods 0)), true)
    else (p, false)
parse_escape flush p (b ∷ rest) =
    if not (b == b'[') && not (b == b'O')
    then (parse_alt p b rest, true)
    else if b == b'O'
    then parse_ss3 flush p rest
    else parse_csi flush p rest

-- A round of `parse` that is not in a paste.
unfoldable pub parse_bytes : Bool → Parser → List ℕ → Parser × Bool
parse_bytes flush p [] = (p, false)
parse_bytes flush p (b ∷ rest) =
    if b == esc_byte then parse_escape flush p rest else parse_plain flush p b rest

unfoldable pub parse_round : Bool → Parser → Parser × Bool
parse_round flush p = if p.pasting then parse_paste flush p else parse_bytes flush p p.buf

unfoldable pub parse : ℕ → Bool → Parser → Option Parser
parse zero flush p = none
parse (suc fuel) flush p =
    let (next, more) = parse_round flush p in
    let rest = parse fuel flush next in if more then rest else some next

unfoldable pub drain : Parser → Parser × List Event
drain p = (record p { events = [] }, p.events)

unfoldable pub feed : Parser → List ℕ → Option (Parser × List Event)
feed p b = Option.map drain (parse (length (p.buf ++ b) + 1) false (record p { buf = p.buf ++ b }))

-- `Flush`, with the fuel of its loop.
unfoldable pub flush_within : ℕ → Parser → Option (Parser × List Event)
flush_within fuel p = Option.map (λ (q : Parser). drain (record q { buf = [] })) (parse fuel true p)

unfoldable pub pending_escape : Parser → Bool
pending_escape p = length p.buf == 1 && get_or p.buf 0 0 == esc_byte && not p.pasting
