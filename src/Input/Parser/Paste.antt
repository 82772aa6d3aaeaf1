-- ===== src/Input/Parser/Paste.antt =====
-- A bracketed paste is one event, however its bytes are split into reads.
use mathlib.Core.Option
use mathlib.Core.List.{append-nil, append_assoc}
use tuicord_v.Base.{
  ℕ, suc, ◌+◌, ◌-◌, ◌≤◌, ◌≡◌, refl, sym, ap, ◌∙◌, true, false, List, [], ◌∷◌, ◌++◌, Option, none,
  some, length, take, drop, length-drop, length-append, length-take, take-append-drop, ltb, arith,
  Bool-cases, Option-cases, inl, inr,
}
use tuicord_v.Input.Events.{Event, paste_event}
use tuicord_v.Input.Text.{has_prefix, index_text}
use tuicord_v.Input.Protocol.{longest_suffix_prefix, suffix_from}
use tuicord_v.Input.Sequences.{is_sequence}
use tuicord_v.Input.Parser.{
  Parser, new_parser, paste_end, paste_open, parse_paste, parse_bytes, parse_round, parse_escape,
  parse_csi, parse, drain, feed,
}
use tuicord_v.Input.Parser.Markers.{
  index_text-le, index_text-append, index_text-drop, index_text-drop-none, longest_suffix_prefix-le,
}

-- Reads one after another: the parser after them and their events.
unfoldable pub feeds : Parser → List (List ℕ) → Option (Parser × List Event)
feeds p [] = some (p, [])
feeds p (b ∷ chunks) = elim (feed p b) [
  | none ↦ none
  | some (q, evs) ↦ Option.map (λ (r : Parser × List Event). (r.0, evs ++ r.1)) (feeds q chunks)
]

abbrev pub concat : List (List ℕ) → List ℕ
concat [] = []
concat (b ∷ chunks) = b ++ concat chunks

-- In a paste with `kept` read but not yet taken into the text `taken`.
abbrev pub in_paste : List ℕ → List ℕ → Parser
in_paste taken kept = record { buf = kept; events = []; pasting = true; paste = taken }

parse_stop :
    (fuel : ℕ) (p q : Parser) → parse_round false p ≡ (q, false) → parse (fuel + 1) false p ≡ some q
unfolding parse
parse_stop fuel p q h = let e : fuel + 1 ≡ suc fuel = omega arith in rw e (rw (h, parse) refl)

parse_go :
    (fuel : ℕ) (p q : Parser)
    → parse_round false p ≡ (q, true)
    → parse (fuel + 1) false p ≡ parse fuel false q
unfolding parse
parse_go fuel p q h = let e : fuel + 1 ≡ suc fuel = omega arith in rw e (rw (h, parse) refl)

-- The parser after bytes s without the end.
abbrev shifted : List ℕ → List ℕ → Parser
shifted taken s =
    let cut = length s - longest_suffix_prefix s paste_end in
    in_paste (taken ++ take cut s) (drop cut s)

round_more :
    (taken s : List ℕ)
    → index_text s paste_end ≡ none
    → parse_round false (in_paste taken s) ≡ (shifted taken s, false)
unfolding parse_round parse_paste
round_more taken s absent =
    let keep = longest_suffix_prefix s paste_end in
    elim (Bool-cases (ltb keep (length s))) [
      | inl some_go ↦ rw (absent, parse_paste, some_go) refl
      | inr none_go ↦
          let nothing : length s - keep ≡ 0 = ground arith in
          rw (absent, parse_paste, none_go, nothing, append-nil taken) refl
    ]

-- A read that has no end of a paste.
feed_more :
    (taken kept b : List ℕ)
    → index_text (kept ++ b) paste_end ≡ none
    → feed (in_paste taken kept) b ≡ some (shifted taken (kept ++ b), [])
unfolding feed drain
feed_more taken kept b absent =
    let s = kept ++ b in
    rw (parse_stop (length s) (in_paste taken s) (shifted taken s) (round_more taken s absent)) refl

round_last :
    (taken s : List ℕ) (k : ℕ)
    → index_text s paste_end ≡ some k
    → drop (k + length paste_end) s ≡ []
    → parse_round false (in_paste taken s)
      ≡ (record new_parser { events = paste_event (taken ++ take k s) ∷ [] }, true)
unfolding parse_round parse_paste
round_last taken s k found ended = rw (found, parse_paste, ended) refl

round_done :
    (ev : Event)
    → parse_round false (record new_parser { events = ev ∷ [] })
      ≡ (record new_parser { events = ev ∷ [] }, false)
unfolding parse_round parse_bytes
round_done ev = refl

round_idle : parse_round false new_parser ≡ (new_parser, false)
unfolding parse_round parse_bytes
round_idle = refl

-- A read that has the end of a paste, at its own end.
feed_last :
    (taken kept b : List ℕ) (k : ℕ)
    → index_text (kept ++ b) paste_end ≡ some k
    → drop (k + length paste_end) (kept ++ b) ≡ []
    → feed (in_paste taken kept) b
      ≡ some (new_parser, paste_event (taken ++ take k (kept ++ b)) ∷ [])
unfolding feed drain
feed_last taken kept b k found ended =
    let s = kept ++ b in
    let ev = paste_event (taken ++ take k s) in
    let q : Parser = record new_parser { events = ev ∷ [] } in
    let e = parse_go (length s) (in_paste taken s) q (round_last taken s k found ended) in
    let pos : length s ≡ (length s - 1) + 1 = omega (arith, index_text-le s paste_end k found) in
    let e' : parse (length s) false q ≡ some q =
      ap (λ (n : ℕ). parse n false q) pos ∙ parse_stop (length s - 1) q q (round_done ev) in
    rw (e, e') refl

feed_nothing : feed new_parser [] ≡ some (new_parser, [])
unfolding feed drain
feed_nothing = rw (parse_stop 0 new_parser new_parser round_idle) refl

feeds_step :
    (p q : Parser) (b : List ℕ) (chunks : List (List ℕ)) (evs : List Event)
    → feed p b ≡ some (q, evs)
    → feeds p (b ∷ chunks)
      ≡ Option.map (λ (r : Parser × List Event). (r.0, evs ++ r.1)) (feeds q chunks)
unfolding feeds
feeds_step p q b chunks evs h = rw (h, feeds) refl

-- Empty reads do nothing.
feeds_nothing :
    (chunks : List (List ℕ)) → concat chunks ≡ [] → feeds new_parser chunks ≡ some (new_parser, [])
unfolding feeds
feeds_nothing [] h = refl
feeds_nothing ([] ∷ chunks) h =
    feeds_step new_parser new_parser [] chunks [] feed_nothing
    ∙ ap (Option.map (λ (r : Parser × List Event). (r.0, [] ++ r.1))) (feeds_nothing chunks h)
feeds_nothing ((c ∷ b) ∷ chunks) h = absurd (ground arith)

drop-length-append : (xs ys : List ℕ) → drop (length xs) (xs ++ ys) ≡ ys
drop-length-append [] ys = refl
drop-length-append (x ∷ xs) ys = drop-length-append xs ys

take-length-append : (xs ys : List ℕ) (k : ℕ) → take (length xs + k) (xs ++ ys) ≡ xs ++ take k ys
take-length-append [] ys k = ap (λ (n : ℕ). take n ys) (omega arith)
take-length-append (x ∷ xs) ys k =
    let e : suc (length xs) + k ≡ suc (length xs + k) = omega arith in
    rw e (ap (◌∷◌ x) (take-length-append xs ys k))

eq_nil : (xs : List ℕ) → length xs ≡ 0 → xs ≡ []
eq_nil [] h = refl
eq_nil (x ∷ xs) h = absurd (omega arith)

module _ (text taken s rest : List ℕ)
    (first : index_text (text ++ paste_end) paste_end ≡ some (length text))
    (all : taken ++ (s ++ rest) ≡ text ++ paste_end) (le : length taken ≤ length text) where
  -- The end comes so far after what has been taken.
  ahead : index_text (s ++ rest) paste_end ≡ some (length text - length taken)
  ahead =
      ap (λ (u : List ℕ). index_text u paste_end)
        (sym (drop-length-append taken (s ++ rest)) ∙ ap (drop (length taken)) all)
      ∙ index_text-drop (length taken) (text ++ paste_end) paste_end (length text) first le

  sizes : length taken + length s + length rest ≡ length text + 6
  sizes = omega (
    arith,
    ap length all,
    length-append taken (s ++ rest),
    length-append s rest,
    length-append text paste_end,
  )

  -- Where the end is in s, it is at the end of s, nothing follows, and the text is complete.
  complete :
      (j : ℕ)
      → index_text s paste_end ≡ some j
      → (rest ≡ []) × (drop (j + 6) s ≡ []) × (taken ++ take j s ≡ text)
  complete j found =
      let place : j ≡ length text - length taken =
        ground (arith, index_text-append s rest paste_end j found, ahead) in
      let fits = index_text-le s paste_end j found in
      let over : rest ≡ [] = eq_nil rest (omega (arith, sizes)) in
      let shape : taken ++ s ≡ text ++ paste_end =
        ap (λ (u : List ℕ). taken ++ u) (sym (ap (λ (u : List ℕ). s ++ u) over ∙ append-nil s))
        ∙ all in
      let count : length taken + j ≡ length text + 0 = omega arith in
      (
        over,
        eq_nil (drop (j + 6) s) (omega (arith, length-drop (j + 6) s, sizes)),
        sym (take-length-append taken s j)
            ∙ ap (λ (n : ℕ). take n (taken ++ s)) count
            ∙ ap (take (length text + 0)) shape
            ∙ take-length-append text paste_end 0
            ∙ append-nil text,
      )

  -- Where it is not, what is taken next is still text.
  still_text :
      index_text s paste_end ≡ none
      → length (taken ++ take (length s - longest_suffix_prefix s paste_end) s) ≤ length text
  still_text absent =
      let cut = length s - longest_suffix_prefix s paste_end in
      omega (
        arith,
        longest_suffix_prefix-le s rest paste_end (length text - length taken) (omega arith) absent
            ahead,
        length-append taken (take cut s),
        length-take cut s,
      )

feeds-in_paste :
    (text taken kept : List ℕ) (chunks : List (List ℕ))
    → index_text (text ++ paste_end) paste_end ≡ some (length text)
    → taken ++ (kept ++ concat chunks) ≡ text ++ paste_end
    → length taken ≤ length text
    → index_text kept paste_end ≡ none
    → feeds (in_paste taken kept) chunks ≡ some (new_parser, paste_event text ∷ [])
unfolding feeds
feeds-in_paste text taken kept [] first all le absent =
    let found = ahead text taken kept [] first all le in
    absurd
      (ground (arith, absent, ap (λ (u : List ℕ). index_text u paste_end) (append-nil kept), found))
feeds-in_paste text taken kept (b ∷ chunks) first all le absent =
    let s = kept ++ b in
    let rest = concat chunks in
    let all' : taken ++ (s ++ rest) ≡ text ++ paste_end =
      ap (λ (u : List ℕ). taken ++ u) (append_assoc kept b rest) ∙ all in
    elim (Option-cases (index_text s paste_end)) [
      | inl missing ↦
          let cut = length s - longest_suffix_prefix s paste_end in
          let rejoin : (taken ++ take cut s) ++ (drop cut s ++ rest) ≡ text ++ paste_end =
            append_assoc taken (take cut s) (drop cut s ++ rest)
            ∙ ap (λ (u : List ℕ). taken ++ u)
                (sym (append_assoc (take cut s) (drop cut s) rest)
                  ∙ ap (λ (u : List ℕ). u ++ rest) (take-append-drop cut s))
            ∙ all' in
          feeds_step (in_paste taken kept) (shifted taken s) b chunks []
            (feed_more taken kept b missing)
          ∙ ap (Option.map (λ (r : Parser × List Event). (r.0, [] ++ r.1))) (
              feeds-in_paste text (taken ++ take cut s) (drop cut s) chunks first rejoin
                (still_text text taken s rest first all' le missing)
                (index_text-drop-none cut s paste_end missing))
      | inr (j, found) ↦
          let (over, ended, same) = complete text taken s rest first all' le j found in
          feeds_step (in_paste taken kept) new_parser b chunks
            (paste_event (taken ++ take j s) ∷ []) (feed_last taken kept b j found ended)
          ∙ ap
              (Option.map
                (λ (r : Parser × List Event). (r.0, paste_event (taken ++ take j s) ∷ r.1)))
              (feeds_nothing chunks over)
          ∙ ap (λ (u : List ℕ). some (new_parser, paste_event u ∷ [])) same
    ]

feed_open : feed new_parser paste_open ≡ some (in_paste [] [], [])
unfolding feed parse parse_round parse_bytes drain parse_escape parse_csi parse_paste is_sequence
    has_prefix index_text longest_suffix_prefix suffix_from
feed_open = refl

-- However the bytes of a text and the end of a paste are split into reads, when the end stands first
-- after the text: after the read of the start of a paste, the reads give one event, the paste of
-- exactly that text, and leave the parser as new.
pub feeds_paste :
    (text : List ℕ) (chunks : List (List ℕ))
    → concat chunks ≡ text ++ paste_end
    → index_text (text ++ paste_end) paste_end ≡ some (length text)
    → feeds new_parser (paste_open ∷ chunks) ≡ some (new_parser, paste_event text ∷ [])
unfolding index_text
feeds_paste text chunks all first =
    feeds_step new_parser (in_paste [] []) paste_open chunks [] feed_open
    ∙ ap (Option.map (λ (r : Parser × List Event). (r.0, [] ++ r.1)))
        (feeds-in_paste text [] [] chunks first all (omega arith) refl)
