-- ===== src/Gate.antt =====
-- internal/app/resource_gate.go: which resources are loaded, which requests are in flight, and which
-- completions are still current. A set is a function into Bool, and the map of versions a function
-- that is 0 at a missing key, so `ensure` has nothing to make.
pub mod Single
pub mod Flight
mod Tests
use tuicord_v.Base.{ℕ, ◌+◌, ◌%◌, ◌^◌, Bool, true, false, ◌&&◌, ◌||◌, ◌==◌, if◌then◌else◌}
use mathlib.Core.Logic.{ite}

-- A `uint64` that is counted up wraps around.
abbrev pub next_version : ℕ → ℕ
next_version v = (v + 1) % 2 ^ 64

pub record LoadGate (K : Type 0) : Type 0 where
  pub loaded : K → Bool
  pub pending : K → Bool
  pub exhausted : K → Bool
  pub version : K → ℕ

pub record SingleLoadGate : Type 0 where
  pub loaded : Bool
  pub pending : Bool
  pub version : ℕ

unfoldable pub empty_gate : {K : Type 0} → LoadGate K
empty_gate = record {
  loaded = λ _. false;
  pending = λ _. false;
  exhausted = λ _. false;
  version = λ _. 0;
}

module _ {K : Type 0} (dec : Discrete K) where
  -- `m[key] = v`, and `delete(m, key)` for a value of false.
  abbrev pub update : {V : Type 0} → (K → V) → K → V → K → V
  update m key v k = ite (dec k key) v (m k)

  unfoldable pub begin_version : LoadGate K → K → LoadGate K × (ℕ × Bool)
  begin_version g key =
      if g.loaded key
      then (g, (g.version key, false))
      else if g.pending key
      then (g, (g.version key, false))
      else (record g { pending = update g.pending key true }, (g.version key, true))

  unfoldable pub begin : LoadGate K → K → LoadGate K × Bool
  begin g key = let (g', r) = begin_version g key in (g', r.1)

  unfoldable pub begin_older_version : LoadGate K → K → LoadGate K × (ℕ × Bool)
  begin_older_version g key =
      if g.pending key
      then (g, (g.version key, false))
      else if g.exhausted key
      then (g, (g.version key, false))
      else (record g { pending = update g.pending key true }, (g.version key, true))

  unfoldable pub begin_older : LoadGate K → K → LoadGate K × Bool
  begin_older g key = let (g', r) = begin_older_version g key in (g', r.1)

  unfoldable pub finish_version : LoadGate K → K → ℕ → Bool → LoadGate K × Bool
  finish_version g key version ok =
      let g' = record g { pending = update g.pending key false } in
      if g.version key == version
      then ((if ok then record g' { loaded = update g.loaded key true } else g'), true)
      else (g, false)

  unfoldable pub finish : LoadGate K → K → Bool → LoadGate K
  finish g key ok = (finish_version g key (g.version key) ok).0

  unfoldable pub finish_older_version : LoadGate K → K → ℕ → Bool → LoadGate K × Bool
  finish_older_version g key version exhausted =
      let g' = record g { pending = update g.pending key false } in
      if g.version key == version
      then ((if exhausted then record g' { exhausted = update g.exhausted key true } else g'), true)
      else (g, false)

  unfoldable pub finish_older : LoadGate K → K → Bool → LoadGate K
  finish_older g key exhausted = (finish_older_version g key (g.version key) exhausted).0

  unfoldable pub mark_loaded : LoadGate K → K → LoadGate K
  mark_loaded g key = record g {
    version = update g.version key (next_version (g.version key));
    loaded = update g.loaded key true;
    pending = update g.pending key false;
  }

  unfoldable pub mark_exhausted : LoadGate K → K → LoadGate K
  mark_exhausted g key = record g { exhausted = update g.exhausted key true }

  unfoldable pub invalidate : LoadGate K → K → LoadGate K
  invalidate g key = record {
    version = update g.version key (next_version (g.version key));
    loaded = update g.loaded key false;
    pending = update g.pending key false;
    exhausted = update g.exhausted key false;
  }
