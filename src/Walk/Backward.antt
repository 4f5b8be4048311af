-- ===== src/Walk/Backward.antt =====
-- The class `Backward` of runstate/walk.py: records read backwards in windows that grow by 4x.
pub mod Lookup
use runstate.Prelude.{
  ℕ, zero, suc, ◌-◌, ◌*◌, true, false, ◌&&◌, Option, none, some, List, [], ◌∷◌, leb, ◌==◌,
  if◌then◌else◌,
}
use runstate.Channel.{Envelope}
use runstate.Channel.Interface.{Channel}
use runstate.Channel.Windows.{window}

abbrev pub first_window : ℕ
first_window = 64

-- `records` is the dict of the records loaded; those above `lo` and up to `hi` are.
pub record Backward (F : Type 0) : Type 0 where
  pub lo : ℕ
  pub width : ℕ
  pub records : List (ℕ × Envelope F)

module _ {F : Type 0} where
  unfoldable pub start : ℕ → Backward F
  start hi = record { lo = hi; width = first_window; records = [] }

  -- `records.get(seq)`. A later entry of a seq stands in front and hides an earlier one.
  unfoldable pub find_record : ℕ → List (ℕ × Envelope F) → Option (Envelope F)
  find_record seq [] = none
  find_record seq ((k, e) ∷ rest) = if k == seq then some e else find_record seq rest

  -- `for e in …: records[e.seq] = e`.
  unfoldable pub add_records : List (Envelope F) → List (ℕ × Envelope F) → List (ℕ × Envelope F)
  add_records [] recs = recs
  add_records (e ∷ es) recs = add_records es ((e.seq, e) ∷ recs)

  -- One window more, below what is loaded.
  unfoldable pub load_window : Channel F → Backward F → Backward F
  unfolding add_records window
  load_window ch b =
      let lo = b.lo - b.width in
      record {
        lo = lo;
        width = b.width * 4;
        records = add_records (window ch lo b.lo none) b.records;
      }

  -- `while seq <= self._lo`. A window lowers `lo`, so `lo` rounds are enough.
  unfoldable pub load : Channel F → ℕ → ℕ → Backward F → Backward F
  unfolding load_window
  load ch zero seq b = b
  load ch (suc fuel) seq b = elim (leb seq b.lo) [
    | true ↦ load ch fuel seq (load_window ch b)
    | false ↦ b
  ]

  unfoldable pub get : Channel F → ℕ → ℕ → Backward F → Option (Envelope F) × Backward F
  unfolding find_record load
  get ch hi seq b =
      if leb 1 seq && leb seq hi
      then (find_record seq (load ch b.lo seq b).records, load ch b.lo seq b)
      else (none, b)
