-- ===== src/Input/Parser/Progress.antt =====
-- When the loop of `parse` ends.
use tuicord_v.Base.{
  ℕ, zero, suc, ◌+◌, ◌-◌, ◌≤◌, ◌<◌, ◌≡◌, refl, Bool, true, false, List, [], ◌∷◌, ◌++◌, none, some,
  length, drop, length-drop, index_of, arith, Bool-cases, Option-cases, inl, inr,
}
use tuicord_v.Input.Events.{Event}
use tuicord_v.Input.Text.{index_text, decode_rune}
use tuicord_v.Input.Parser.{
  Parser, paste_end, parse_paste, parse_plain, parse_csi, parse_ss3, parse_alt, parse_escape,
  parse_bytes, parse_round, parse, drain, feed, flush_within, is_final,
}

parse_plain-le :
    (flush : Bool) (p : Parser) (b : ℕ) (rest : List ℕ)
    → (parse_plain flush p b rest).1 ≡ true
    → length (parse_plain flush p b rest).0.buf ≤ length rest
unfolding parse_plain
parse_plain-le flush p b rest more = ground (arith, length-drop ((decode_rune b rest).1 - 1) rest)

parse_plain-le_suc :
    (flush : Bool) (p : Parser) (b : ℕ) (rest : List ℕ)
    → length (parse_plain flush p b rest).0.buf ≤ suc (length rest)
unfolding parse_plain
parse_plain-le_suc flush p b rest = ground (arith, length-drop ((decode_rune b rest).1 - 1) rest)

parse_csi-le :
    (p : Parser) (body : List ℕ)
    → (parse_csi false p body).1 ≡ true
    → length (parse_csi false p body).0.buf ≤ length body
unfolding parse_csi
parse_csi-le p body more = elim (Option-cases (index_of is_final body)) [
  | inl absent ↦ absurd (ground (arith, absent))
  | inr (end, found) ↦ ground (arith, found, length-drop (end + 1) body)
]

parse_ss3-le :
    (p : Parser) (body : List ℕ)
    → (parse_ss3 false p body).1 ≡ true
    → length (parse_ss3 false p body).0.buf ≤ length body
unfolding parse_ss3
parse_ss3-le p [] more = ground arith
parse_ss3-le p (b ∷ body) more = ground arith

parse_alt-le :
    (p : Parser) (b : ℕ) (rest : List ℕ) → length (parse_alt p b rest).buf ≤ length (b ∷ rest)
unfolding parse_alt
parse_alt-le p b rest = ground (arith, parse_plain-le_suc true (record p { buf = b ∷ rest }) b rest)

parse_escape-le :
    (p : Parser) (rest : List ℕ)
    → (parse_escape false p rest).1 ≡ true
    → length (parse_escape false p rest).0.buf ≤ length rest
unfolding parse_escape
parse_escape-le p [] more = ground arith
parse_escape-le p (b ∷ rest) more =
    ground (arith, parse_csi-le p rest, parse_ss3-le p rest, parse_alt-le p b rest)

not_empty : (s : List ℕ) (i : ℕ) → index_text s paste_end ≡ some i → 0 < length s
unfolding index_text
not_empty [] i h = ground arith
not_empty (b ∷ s) i h = omega arith

parse_paste-lt :
    (p : Parser)
    → (parse_paste false p).1 ≡ true
    → length (parse_paste false p).0.buf < length p.buf
unfolding parse_paste
parse_paste-lt p more = elim (Option-cases (index_text p.buf paste_end)) [
  | inl absent ↦ absurd (ground (arith, absent))
  | inr (i, found) ↦
      rw (found, parse_paste) (omega (arith, length-drop (i + 6) p.buf, not_empty p.buf i found))
]

parse_bytes-lt :
    (p : Parser) (bs : List ℕ)
    → (parse_bytes false p bs).1 ≡ true
    → length (parse_bytes false p bs).0.buf < length bs
unfolding parse_bytes
parse_bytes-lt p [] more = ground arith
parse_bytes-lt p (b ∷ rest) more =
    ground (arith, parse_escape-le p rest, parse_plain-le false p b rest)

-- A round after which the loop goes on has consumed a byte.
parse_round-lt :
    (p : Parser)
    → (parse_round false p).1 ≡ true
    → length (parse_round false p).0.buf < length p.buf
unfolding parse_round
parse_round-lt p more = elim (Bool-cases p.pasting) [
  | inl on ↦ ground (arith, on, parse_paste-lt p)
  | inr off ↦ ground (arith, off, parse_bytes-lt p p.buf)
]

parse_total :
    (fuel : ℕ) (p : Parser) → length p.buf < fuel → (q : Parser) × (parse fuel false p ≡ some q)
unfolding parse
parse_total zero p h = absurd (omega arith)
parse_total (suc fuel) p h = elim (Bool-cases (parse_round false p).1) [
  | inr done ↦ ((parse_round false p).0, rw done refl)
  | inl more ↦
      let (q, e) =
        parse_total fuel (parse_round false p).0 (omega (arith, parse_round-lt p more)) in
      (q, rw more e)
]

-- The loop of Feed ends on every input, within one round more than there are bytes.
pub feed_total : (p : Parser) (b : List ℕ) → (r : Parser × List Event) × (feed p b ≡ some r)
unfolding feed
feed_total p b =
    let (q, e) =
      parse_total (length (p.buf ++ b) + 1) (record p { buf = p.buf ++ b }) (omega arith) in
    (drain q, rw e refl)

drop_all : (s : List ℕ) → drop (length s) s ≡ []
drop_all [] = refl
drop_all (b ∷ s) = drop_all s

hanging_round :
    (p : Parser)
    → p.pasting ≡ true
    → index_text p.buf paste_end ≡ none
    → ((parse_round true p).1 ≡ true)
      × ((parse_round true p).0.pasting ≡ true)
      × (index_text (parse_round true p).0.buf paste_end ≡ none)
unfolding parse_round parse_paste index_text
hanging_round p on absent = ground (arith, drop_all p.buf)

parse_in_paste :
    (fuel : ℕ) (p : Parser)
    → p.pasting ≡ true
    → index_text p.buf paste_end ≡ none
    → parse fuel true p ≡ none
unfolding parse
parse_in_paste zero p on absent = refl
parse_in_paste (suc fuel) p on absent =
    let (more, on', absent') = hanging_round p on absent in
    rw more (parse_in_paste fuel (parse_round true p).0 on' absent')

-- In a paste whose end is not in the buffer, the loop of Flush does not end: no number of rounds is
-- enough.
pub flush_in_paste :
    (fuel : ℕ) (p : Parser)
    → p.pasting ≡ true
    → index_text p.buf paste_end ≡ none
    → flush_within fuel p ≡ none
unfolding flush_within
flush_in_paste fuel p on absent = rw (parse_in_paste fuel p on absent) refl
