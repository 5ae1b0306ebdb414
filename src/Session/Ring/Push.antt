-- ===== src/Session/Ring/Push.antt =====
-- One push, at every position of the ring: the slot that it fills and the snapshot after it.
use rathena_client.Shared.{
  ℕ, zero, suc, ◌≤◌, ◌<◌, min, ◌≡◌, refl, ap, arith, [], ◌∷◌, ◌++◌, length, take, drop, ltb, Bytes,
  All, length-take, length-append, length-drop, keep_last,
}
use rathena_client.Session.Ring.{
  recent_max_frame_bytes, DispatchedPacket, RecentSlot, RecentRing, fill_slot, push, slot_packet,
  snapshot, copy,
}

-- The slots are three full buffers, and the two indices are in range.
pub record IsRing (r : RecentRing) : Type 0 where
  pub depth : length r.slots ≡ 3
  pub buffers : All (λ s. length s.buf ≡ 4096) r.slots
  pub head_in : r.head < 3
  pub count_in : r.count ≤ 3

-- What a snapshot shows of a packet pushed into a slot of `room` bytes.
dispatched_in : ℕ → ℕ → Bytes → DispatchedPacket
dispatched_in room id frame = record {
  id = id;
  frame = take room frame;
  frame_total = length frame;
  truncated = ltb room (length frame);
}

pub dispatched : ℕ → Bytes → DispatchedPacket
dispatched = dispatched_in recent_max_frame_bytes

take-copy :
    (dst src : Bytes) → take (min (length src) (length dst)) (copy dst src) ≡ take (length dst) src
take-copy [] [] = refl
take-copy [] (x ∷ src) = let none_fit : min (suc (length src)) 0 ≡ 0 = omega arith in rw none_fit
take-copy (y ∷ dst) [] = let none_sent : min 0 (suc (length dst)) ≡ 0 = omega arith in rw none_sent
take-copy (y ∷ dst) (x ∷ src) =
    let one_more : min (suc (length src)) (suc (length dst)) ≡ suc (min (length src) (length dst)) =
      omega arith in
    rw one_more (ap (λ t. x ∷ t) (take-copy dst src))

length-copy : (dst src : Bytes) → length (copy dst src) ≡ length dst
length-copy dst src = omega (
  arith,
  length-append (take (length dst) src) (drop (length src) dst),
  length-take (length dst) src,
  length-drop (length src) dst,
)

slot_packet-fill_slot :
    (s : RecentSlot) (room id : ℕ) (frame : Bytes)
    → length s.buf ≡ room
    → slot_packet (fill_slot s id frame) ≡ dispatched_in room id frame
unfolding slot_packet fill_slot dispatched_in
slot_packet-fill_slot s room id frame h = rw (take-copy s.buf frame, h) (ground arith)

pub length-fill_slot :
    (s : RecentSlot) (id : ℕ) (frame : Bytes) → length (fill_slot s id frame).buf ≡ length s.buf
unfolding fill_slot
length-fill_slot s id frame = length-copy s.buf frame

abbrev pub ring_of : RecentSlot → RecentSlot → RecentSlot → ℕ → ℕ → RecentRing
ring_of s0 s1 s2 h c = record { slots = s0 ∷ s1 ∷ s2 ∷ []; head = h; count = c }

module _ (s0 s1 s2 : RecentSlot) (id : ℕ) (frame : Bytes) where
  abbrev pub Appends : ℕ → ℕ → Type 0
  Appends h c =
      snapshot (push (ring_of s0 s1 s2 h c) id frame)
      ≡ keep_last 3 (snapshot (ring_of s0 s1 s2 h c) ++ dispatched id frame ∷ [])

  module _ (full : All (λ s. length s.buf ≡ 4096) (s0 ∷ s1 ∷ s2 ∷ [])) where
    push_at_zero : (c : ℕ) → c ≤ 3 → Appends 0 c
    unfolding push snapshot dispatched
    push_at_zero zero le = rw (slot_packet-fill_slot s0 4096 id frame full.0)
    push_at_zero (suc zero) le = rw (slot_packet-fill_slot s0 4096 id frame full.0)
    push_at_zero (suc (suc zero)) le = rw (slot_packet-fill_slot s0 4096 id frame full.0)
    push_at_zero (suc (suc (suc zero))) le = rw (slot_packet-fill_slot s0 4096 id frame full.0)
    push_at_zero (suc (suc (suc (suc c)))) le = absurd (omega arith)

    push_at_one : (c : ℕ) → c ≤ 3 → Appends 1 c
    unfolding push snapshot dispatched
    push_at_one zero le = rw (slot_packet-fill_slot s1 4096 id frame full.1.0)
    push_at_one (suc zero) le = rw (slot_packet-fill_slot s1 4096 id frame full.1.0)
    push_at_one (suc (suc zero)) le = rw (slot_packet-fill_slot s1 4096 id frame full.1.0)
    push_at_one (suc (suc (suc zero))) le = rw (slot_packet-fill_slot s1 4096 id frame full.1.0)
    push_at_one (suc (suc (suc (suc c)))) le = absurd (omega arith)

    push_at_two : (c : ℕ) → c ≤ 3 → Appends 2 c
    unfolding push snapshot dispatched
    push_at_two zero le = rw (slot_packet-fill_slot s2 4096 id frame full.1.1.0)
    push_at_two (suc zero) le = rw (slot_packet-fill_slot s2 4096 id frame full.1.1.0)
    push_at_two (suc (suc zero)) le = rw (slot_packet-fill_slot s2 4096 id frame full.1.1.0)
    push_at_two (suc (suc (suc zero))) le = rw (slot_packet-fill_slot s2 4096 id frame full.1.1.0)
    push_at_two (suc (suc (suc (suc c)))) le = absurd (omega arith)

    pub push_at : (h c : ℕ) → h < 3 → c ≤ 3 → Appends h c
    push_at zero c lt le = push_at_zero c le
    push_at (suc zero) c lt le = push_at_one c le
    push_at (suc (suc zero)) c lt le = push_at_two c le
    push_at (suc (suc (suc h))) c lt le = absurd (omega arith)
