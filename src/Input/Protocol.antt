-- ===== src/Input/Protocol.antt =====
-- internal/tui/input/protocol.go: the keys, buttons and modifiers of the terminal's protocols.
use tuicord_v.Base.{
  ℕ, zero, suc, ◌+◌, ◌-◌, ◌/◌, ◌%◌, ◌^◌, Bool, true, List, [], ◌∷◌, Option, none, some, length,
  get_or, drop, min, leb, ◌==◌, if◌then◌else◌,
}
use tuicord_v.Base.Int.{ℤ, pos, negsuc}
use tuicord_v.Input.Events.{
  Mod, no_mods, Key, unknown, rune, esc, enter, tab, backspace, up, down, right, left, home, end,
  page_up, page_down, delete, insert, f1, f2, f3, f4, f5, f6, f7, f8, f9, f10, f11, f12, KeyEvent,
  Button, no_button, left_button, middle_button, right_button, wheel_up, wheel_down, wheel_left,
  wheel_right, MouseKind, press, released, motion, wheel, pressed,
}
use tuicord_v.Input.Text.{split, cut_before, atoi, has_prefix}

-- `b + 0x60` on bytes.
unfoldable pub control_key : ℕ → KeyEvent
control_key b =
    if b == 0x1b
    then pressed esc no_mods 0
    else pressed rune (record no_mods { ctrl = true }) (if b == 0 then b' ' else (b + 0x60) % 256)

unfoldable pub csi_final_key : ℕ → Option Key
csi_final_key final =
    if final == b'A'
    then some up
    else if final == b'B'
    then some down
    else if final == b'C'
    then some right
    else if final == b'D'
    then some left
    else if final == b'H'
    then some home
    else if final == b'F'
    then some end
    else none

unfoldable pub ss3_key : ℕ → Option Key
ss3_key final =
    if final == b'P'
    then some f1
    else if final == b'Q'
    then some f2
    else if final == b'R'
    then some f3
    else if final == b'S'
    then some f4
    else csi_final_key final

-- The keys of `CSI n ~`, from n = 0.
abbrev tilde_keys : List Key
tilde_keys =
    unknown ∷ home ∷ insert ∷ delete ∷ end ∷ page_up ∷ page_down ∷ home ∷ end ∷ unknown ∷ unknown
    ∷ f1 ∷ f2 ∷ f3 ∷ f4 ∷ f5 ∷ unknown ∷ f6 ∷ f7 ∷ f8 ∷ f9 ∷ f10 ∷ unknown ∷ f11 ∷ f12 ∷ []

unfoldable pub tilde_key : ℤ → Key
tilde_key (pos n) = get_or tilde_keys n unknown
tilde_key (negsuc n) = unknown

unfoldable pub kitty_named_key : ℤ → Key
kitty_named_key (negsuc n) = rune
kitty_named_key (pos code) =
    if code == 9
    then tab
    else if code == 13
    then enter
    else if code == 27
    then esc
    else if code == 127
    then backspace
    else rune

-- Whether `v & 2^k` is not 0, in two's complement.
unfoldable pub has_bit : ℤ → ℕ → Bool
has_bit (pos n) k = (n / 2 ^ k) % 2 == 1
has_bit (negsuc n) k = (n / 2 ^ k) % 2 == 0

unfoldable pub mouse_button : ℤ → Bool → Button × MouseKind
mouse_button cb release =
    let low = has_bit cb 0 in
    let high = has_bit cb 1 in
    let kind = if has_bit cb 5 then motion else press in
    if release
    then (no_button, released)
    else if has_bit cb 6
    then (
      if high
          then (if low then wheel_right else wheel_left)
          else if low
          then wheel_down
          else wheel_up,
      wheel,
    )
    else (
      if high
          then (if low then no_button else right_button)
          else if low
          then middle_button
          else left_button,
      kind,
    )

unfoldable pub mouse_mods : ℤ → Mod
mouse_mods cb = record no_mods { shift = has_bit cb 2; alt = has_bit cb 3; ctrl = has_bit cb 4 }

unfoldable pub modifier_bits : ℕ → Mod
modifier_bits bits = record {
  shift = has_bit (pos bits) 0;
  alt = has_bit (pos bits) 1;
  ctrl = has_bit (pos bits) 2;
  super = has_bit (pos bits) 3;
  hyper = has_bit (pos bits) 4;
  meta = has_bit (pos bits) 5;
}

unfoldable pub kitty_mods : ℤ → Mod
kitty_mods (pos v) = if leb v 1 then no_mods else modifier_bits (v - 1)
kitty_mods (negsuc v) = no_mods

unfoldable pub legacy_mods : ℤ → Mod
legacy_mods (pos v) = if leb v 1 then no_mods else modifier_bits (v - 1)
legacy_mods (negsuc v) = no_mods

abbrev pub first_sub_param : List ℕ → List ℕ
first_sub_param s = cut_before b':' s

-- The numbers of the parts, up to one that is no number.
unfoldable pub numbers : List (List ℕ) → List ℤ
numbers [] = []
numbers (part ∷ raw) =
    let rest = numbers raw in elim (atoi (first_sub_param part)) [ none ↦ [] | some n ↦ n ∷ rest ]

unfoldable pub split_params : List ℕ → List ℤ
split_params [] = []
split_params (b ∷ s) = numbers (split (b ∷ s) b';')

-- The loop of `longestSuffixPrefix`, from n down.
unfoldable pub suffix_from : List ℕ → List ℕ → ℕ → ℕ
suffix_from s prefix zero = 0
suffix_from s prefix (suc n) =
    let rest = suffix_from s prefix n in
    if has_prefix prefix (drop (length s - suc n) s) then suc n else rest

unfoldable pub longest_suffix_prefix : List ℕ → List ℕ → ℕ
longest_suffix_prefix s prefix = suffix_from s prefix (min (length s) (length prefix - 1))
