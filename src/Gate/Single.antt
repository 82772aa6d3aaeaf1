-- ===== src/Gate/Single.antt =====
-- `singleLoadGate` is the gate at one key, without the paged loads.
use tuicord_v.Base.{ℕ, ◌≡◌, Bool, true, false, ◌==◌, if◌then◌else◌, arith, ◌||◌}
use tuicord_v.Gate.{
  LoadGate, SingleLoadGate, next_version, begin_version, finish_version, invalidate,
}

unfoldable pub single_begin_version : SingleLoadGate → SingleLoadGate × (ℕ × Bool)
single_begin_version g =
    if g.loaded || g.pending
    then (g, (g.version, false))
    else (record g { pending = true }, (g.version, true))

unfoldable pub single_begin : SingleLoadGate → SingleLoadGate × Bool
single_begin g = let (g', r) = single_begin_version g in (g', r.1)

unfoldable pub single_finish_version : SingleLoadGate → ℕ → Bool → SingleLoadGate × Bool
single_finish_version g version ok =
    let g' = record g { pending = false } in
    if g.version == version
    then ((if ok then record g' { loaded = true } else g'), true)
    else (g, false)

unfoldable pub single_finish : SingleLoadGate → Bool → SingleLoadGate
single_finish g ok = (single_finish_version g g.version ok).0

unfoldable pub single_invalidate : SingleLoadGate → SingleLoadGate
single_invalidate g = record { version = next_version g.version; loaded = false; pending = false }

-- The gate at one key.
abbrev pub at_key : {K : Type 0} → LoadGate K → K → SingleLoadGate
at_key g key = record { loaded = g.loaded key; pending = g.pending key; version = g.version key }

module _ {K : Type 0} (dec : Discrete K) (g : LoadGate K) (key : K) where
  -- Seen at one key, a gate of many keys begins, finishes and invalidates with the state and the
  -- results of a `singleLoadGate`.
  pub at_key-single :
      (version : ℕ) (ok : Bool)
      → (at_key (begin_version dec g key).0 key ≡ (single_begin_version (at_key g key)).0)
        × ((begin_version dec g key).1 ≡ (single_begin_version (at_key g key)).1)
        × (at_key (finish_version dec g key version ok).0 key
            ≡ (single_finish_version (at_key g key) version ok).0)
        × ((finish_version dec g key version ok).1
            ≡ (single_finish_version (at_key g key) version ok).1)
        × (at_key (invalidate dec g key) key ≡ single_invalidate (at_key g key))
  unfolding begin_version single_begin_version finish_version single_finish_version invalidate
      single_invalidate
  at_key-single version ok = ground arith

  -- A call at one key changes nothing at another.
  pub at_key_ne :
      (other : K) (version : ℕ) (ok : Bool)
      → ¬ (other ≡ key)
      → (at_key (begin_version dec g key).0 other ≡ at_key g other)
        × (at_key (finish_version dec g key version ok).0 other ≡ at_key g other)
        × (at_key (invalidate dec g key) other ≡ at_key g other)
  unfolding begin_version finish_version invalidate
  at_key_ne other version ok h = ground arith
