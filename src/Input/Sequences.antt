-- ===== src/Input/Sequences.antt =====
-- internal/tui/input/parser.go: the events of a control sequence, by its bytes and its last byte.
use tuicord_v.Base.{
  ℕ, ◌+◌, ◌-◌, ◌^◌, Bool, true, false, ◌&&◌, ◌||◌, List, [], ◌∷◌, ◌++◌, Option, none, some, length,
  get_or, ltb, leb, ◌==◌, if◌then◌else◌,
}
use tuicord_v.Base.Int.{ℤ, pos, negsuc}
use tuicord_v.Input.Events.{
  Mod, no_mods, Key, unknown, rune, tab, Event, key_event, mouse_event, focus_event, pressed,
}
use tuicord_v.Input.Text.{has_prefix, split, atoi}
use tuicord_v.Input.Protocol.{
  csi_final_key, tilde_key, kitty_named_key, mouse_button, mouse_mods, kitty_mods, legacy_mods,
  first_sub_param, split_params,
}

-- `max(x - 1, 0)` on `int`.
unfoldable pub cell : ℤ → ℕ
cell (pos n) = n - 1
cell (negsuc n) = if n + 1 == 2 ^ 63 then 2 ^ 63 - 1 else 0

-- The event of three numbers.
abbrev mouse_of : Bool → Option ℤ → Option ℤ → Option ℤ → List Event
mouse_of release (some cb) (some x) (some y) =
    let (btn, kind) = mouse_button cb release in
    mouse_event (record { x = cell x; y = cell y; btn = btn; mods = mouse_mods cb; kind = kind })
    ∷ []
mouse_of release _ _ _ = []

abbrev mouse_parts : Bool → List (List ℕ) → List Event
mouse_parts release (a ∷ b ∷ c ∷ []) = mouse_of release (atoi a) (atoi b) (atoi c)
mouse_parts release _ = []

-- The events that `parseMouse` emits.
unfoldable pub parse_mouse : List ℕ → Bool → List Event
parse_mouse [] release = []
parse_mouse (b ∷ seq) release = if b == b'<' then mouse_parts release (split seq b';') else []

abbrev is_rune_code : Key → ℤ → Bool
is_rune_code rune (pos code) = leb code 0x10FFFF
is_rune_code _ _ = false

abbrev magnitude : ℤ → ℕ
magnitude (pos n) = n
magnitude (negsuc n) = 0

-- The number of the i-th part, if there is one.
abbrev param : List (List ℕ) → ℕ → Option ℤ
param parts i = if ltb i (length parts) then atoi (first_sub_param (get_or parts i [])) else none

abbrev is_three : Option ℤ → Bool
is_three (some (pos n)) = n == 3
is_three _ = false

abbrev mods_of : (ℤ → Mod) → Option ℤ → Mod
mods_of f none = no_mods
mods_of f (some m) = f m

-- The events that `parseKittyKey` emits.
unfoldable pub parse_kitty_key : List ℕ → List Event
parse_kitty_key seq =
    let parts = split seq b';' in
    elim (param parts 0) [
      | none ↦ []
      | some code ↦
          let key = kitty_named_key code in
          key_event (record {
            key = key;
            mods = mods_of kitty_mods (param parts 1);
            code = if is_rune_code key code then magnitude code else 0;
            release = is_three (param parts 2);
          })
          ∷ []
    ]

abbrev second_mods : List ℤ → Mod
second_mods (a ∷ b ∷ rest) = legacy_mods b
second_mods _ = no_mods

abbrev tilde_event : List ℤ → Key → List Event
tilde_event parts unknown = []
tilde_event parts key = key_event (pressed key (second_mods parts) 0) ∷ []

abbrev tilde_events : List ℤ → List Event
tilde_events [] = []
tilde_events (n ∷ rest) = tilde_event (n ∷ rest) (tilde_key n)

-- The events that `parseLegacyCSI` emits.
unfoldable pub parse_legacy_csi : List ℕ → ℕ → List Event
parse_legacy_csi seq final =
    if final == b'Z'
    then key_event (pressed tab (record no_mods { shift = true }) 0) ∷ []
    else elim (csi_final_key final) [
      | some key ↦ key_event (pressed key (second_mods (split_params seq)) 0) ∷ []
      | none ↦ if final == b'~' then tilde_events (split_params seq) else []
    ]

-- Whether a sequence and its last byte are a given text after `CSI`.
unfoldable pub is_sequence : List ℕ → ℕ → List ℕ → Bool
is_sequence seq final text =
    has_prefix (seq ++ final ∷ []) text && has_prefix text (seq ++ final ∷ [])

unfoldable pub csi_events : List ℕ → ℕ → List Event
csi_events seq final =
    if is_sequence seq final (b'I' ∷ [])
    then focus_event true ∷ []
    else if is_sequence seq final (b'O' ∷ [])
    then focus_event false ∷ []
    else if final == b'M' || final == b'm'
    then parse_mouse seq (final == b'm')
    else if final == b'u'
    then parse_kitty_key seq
    else parse_legacy_csi seq final
