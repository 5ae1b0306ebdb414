-- ===== src/Session/Ring.antt =====
-- pkg/session/session.go: `recentRing`, the last dispatched packets. A slot keeps its whole backing
-- array, and `copy` overwrites a prefix of it, as in the source.
pub mod Push
pub mod History
mod Tests
use rathena_client.Shared.{
  ℕ, zero, suc, ◌+◌, ◌-◌, ◌*◌, ◌%◌, ◌<◌, min, ◌==◌, Bool, List, [], ◌∷◌, ◌++◌, length, get_or, set,
  take, drop, replicate, ltb, if◌then◌else◌, Bytes,
}

abbrev pub recent_packet_depth : ℕ
recent_packet_depth = 3

abbrev pub recent_max_frame_bytes : ℕ
recent_max_frame_bytes = 4096

pub record DispatchedPacket : Type 0 where
  pub id : ℕ
  pub frame : Bytes
  pub frame_total : ℕ
  pub truncated : Bool

pub record RecentSlot : Type 0 where
  pub id : ℕ
  pub buf : Bytes
  pub frame_n : ℕ
  pub frame_total : ℕ

pub record RecentRing : Type 0 where
  pub slots : List RecentSlot
  pub head : ℕ
  pub count : ℕ

-- The zero value of the Go type.
unfoldable pub empty_slot : RecentSlot
empty_slot = record {
  id = 0;
  buf = replicate recent_max_frame_bytes 0;
  frame_n = 0;
  frame_total = 0;
}

unfoldable pub empty_ring : RecentRing
empty_ring = record { slots = replicate recent_packet_depth empty_slot; head = 0; count = 0 }

-- The destination after Go's `copy(dst, src)`; it returns the smaller of the two lengths.
abbrev pub copy : Bytes → Bytes → Bytes
copy dst src = take (length dst) src ++ drop (length src) dst

unfoldable pub fill_slot : RecentSlot → ℕ → Bytes → RecentSlot
fill_slot s id frame = record {
  id = id;
  buf = copy s.buf frame;
  frame_n = min (length frame) (length s.buf);
  frame_total = length frame;
}

unfoldable pub push : RecentRing → ℕ → Bytes → RecentRing
push r id frame = record {
  slots = set r.slots r.head (fill_slot (get_or r.slots r.head empty_slot) id frame);
  head = (r.head + 1) % recent_packet_depth;
  count = if ltb r.count recent_packet_depth then r.count + 1 else r.count;
}

unfoldable pub slot_packet : RecentSlot → DispatchedPacket
slot_packet s = record {
  id = s.id;
  frame = take s.frame_n s.buf;
  frame_total = s.frame_total;
  truncated = ltb s.frame_n s.frame_total;
}

-- The loop of `snapshot` at index `i`, with `left` rounds to go.
unfoldable pub snapshot_from : List RecentSlot → ℕ → ℕ → ℕ → List DispatchedPacket
snapshot_from slots start i zero = []
snapshot_from slots start i (suc left) =
    slot_packet (get_or slots ((start + i) % recent_packet_depth) empty_slot)
    ∷ snapshot_from slots start (i + 1) left

-- `r.head - r.count + 3` is a sum first here, since `-` stops at 0.
unfoldable pub snapshot : RecentRing → List DispatchedPacket
unfolding snapshot_from
snapshot r =
    if r.count == 0
    then []
    else snapshot_from r.slots ((r.head + recent_packet_depth - r.count) % recent_packet_depth) 0
        r.count
