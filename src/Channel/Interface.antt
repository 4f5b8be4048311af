-- ===== src/Channel/Interface.antt =====
-- The class `Channel` of runstate/channel/base.py, as its readers take it: the reads of a handle on
-- one run's log at one moment, with what the base class promises of them.
use runstate.Prelude.{ℕ, suc, String, ◌≡◌, Option, List, [], ◌∷◌, length}
use runstate.Prelude.Int.{ℤ}
use runstate.Channel.{Envelope, Query, read_spec, latest_spec}

module _ {F : Type 0} where
  -- Seqs run on from `n` with no gap.
  abbrev pub IsContiguous : ℕ → List (Envelope F) → Type 0
  IsContiguous n [] = Unit
  IsContiguous n (e ∷ es) = (e.seq ≡ n) × IsContiguous (suc n) es

pub record Channel (F : Type 0) : Type 0 where
  pub log : List (Envelope F)
  pub contiguous : IsContiguous 1 log
  pub read : ℤ → Query → List (Envelope F)
  pub read_lem : (after : ℤ) (q : Query) → read after q ≡ read_spec after q log
  pub latest : String → Option String → Option (Envelope F)
  pub latest_lem :
      (topic : String) (name : Option String) → latest topic name ≡ latest_spec topic name log
  pub last_seq : ℕ
  pub last_seq_lem : last_seq ≡ length log
