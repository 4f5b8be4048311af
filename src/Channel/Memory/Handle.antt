-- ===== src/Channel/Memory/Handle.antt =====
-- A `MemoryChannel` of runstate/channel/memory.py as an instance of the interface `Channel`.
use runstate.Prelude.{◌≡◌, refl, length}
use runstate.Channel.Interface.{Channel}
use runstate.Channel.Memory.{MemoryLog, read, latest, last_seq}
use runstate.Channel.Memory.Invariant.{IsLog}
use runstate.Channel.Memory.Latest.{latest-latest_spec}
use runstate.Channel.Memory.Reading.{read-read_spec}

module _ {F : Type 0} where
  pub last_seq-length : (l : MemoryLog F) → last_seq l ≡ length l.envelopes
  unfolding last_seq
  last_seq-length l = refl

  unfoldable pub memory_channel : (l : MemoryLog F) → IsLog l → Channel F
  memory_channel l h = record {
    log = l.envelopes;
    contiguous = h.contiguous;
    read = read l;
    read_lem = λ after q. read-read_spec l after q h;
    latest = latest l;
    latest_lem = λ topic name. latest-latest_spec l topic name h;
    last_seq = last_seq l;
    last_seq_lem = last_seq-length l;
  }
