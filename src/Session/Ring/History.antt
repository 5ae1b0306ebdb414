-- ===== src/Session/Ring/History.antt =====
-- The ring against the list of all packets that were pushed: a snapshot is its last three.
use rathena_client.Shared.{
  ℕ, zero, suc, ◌+◌, ◌<◌, ◌≡◌, refl, ap, ◌∙◌, arith, List, [], ◌∷◌, ◌++◌, length, set, get_or,
  Bytes, All, replicate, length-replicate, Bool-cases, inl, inr, sym, keep_last,
  keep_last-keep_last, keep_last_all, append_assoc, ◌==◌, ==_iff,
}
use rathena_client.Session.Ring.{
  DispatchedPacket, RecentSlot, RecentRing, empty_slot, empty_ring, push, snapshot, snapshot_from,
}
use rathena_client.Session.Ring.Push.{IsRing, dispatched, length-fill_slot, push_at}

three_slots :
    (P : List RecentSlot → Type 0)
    → ((s0 s1 s2 : RecentSlot) → P (s0 ∷ s1 ∷ s2 ∷ []))
    → (slots : List RecentSlot) → length slots ≡ 3
    → P slots
three_slots P build [] e = absurd (omega arith)
three_slots P build (s0 ∷ []) e = absurd (omega arith)
three_slots P build (s0 ∷ s1 ∷ []) e = absurd (omega arith)
three_slots P build (s0 ∷ s1 ∷ s2 ∷ []) e = build s0 s1 s2
three_slots P build (s0 ∷ s1 ∷ s2 ∷ s3 ∷ rest) e = absurd (omega arith)

-- One push appends to the snapshot and keeps its last three entries.
pub snapshot-push :
    (r : RecentRing) (id : ℕ) (frame : Bytes)
    → IsRing r
    → snapshot (push r id frame) ≡ keep_last 3 (snapshot r ++ dispatched id frame ∷ [])
snapshot-push r id frame h =
    three_slots
      (λ slots.
        All (λ s. length s.buf ≡ 4096) slots
        → snapshot (push (record r { slots = slots }) id frame)
          ≡ keep_last 3 (snapshot (record r { slots = slots }) ++ dispatched id frame ∷ []))
      (λ s0 s1 s2 full. push_at s0 s1 s2 id frame full r.head r.count h.head_in h.count_in) r.slots
      h.depth h.buffers

All-set :
    (P : RecentSlot → Type 0) (slots : List RecentSlot) (i : ℕ) (s : RecentSlot)
    → All P slots
    → (i < length slots → P s)
    → All P (set slots i s)
All-set P [] i s h k = tt
All-set P (t ∷ slots) zero s h k = (k (omega arith), h.1)
All-set P (t ∷ slots) (suc i) s h k = (h.0, All-set P slots i s h.1 (λ lt. k (omega arith)))

All-get_or :
    (P : RecentSlot → Type 0) (slots : List RecentSlot) (i : ℕ) (d : RecentSlot)
    → All P slots
    → i < length slots
    → P (get_or slots i d)
All-get_or P [] i d h lt = absurd (omega arith)
All-get_or P (t ∷ slots) zero d h lt = h.0
All-get_or P (t ∷ slots) (suc i) d h lt = All-get_or P slots i d h.1 (omega arith)

length-set :
    (slots : List RecentSlot) (i : ℕ) (s : RecentSlot) → length (set slots i s) ≡ length slots
length-set [] i s = refl
length-set (t ∷ slots) zero s = refl
length-set (t ∷ slots) (suc i) s = ap suc (length-set slots i s)

pub push-IsRing : (r : RecentRing) (id : ℕ) (frame : Bytes) → IsRing r → IsRing (push r id frame)
unfolding push
push-IsRing r id frame h = record {
  depth = length-set r.slots r.head _ ∙ h.depth;
  buffers =
      All-set (λ s. length s.buf ≡ 4096) r.slots r.head _ h.buffers
        (λ lt.
          length-fill_slot _ id frame
          ∙ All-get_or (λ s. length s.buf ≡ 4096) r.slots r.head empty_slot h.buffers lt);
  head_in = omega arith;
  count_in = ground (arith, h.count_in);
}

pub IsRing-empty_ring : IsRing empty_ring
unfolding empty_ring empty_slot
IsRing-empty_ring =
    let full : length (replicate 4096 (zero)) ≡ 4096 = length-replicate 4096 (zero) in
    record {
      depth = refl;
      buffers = (full, (full, (full, tt)));
      head_in = omega arith;
      count_in = omega arith;
    }

-- All packets of a history, pushed in order.
unfoldable pub push_all : RecentRing → List (ℕ × Bytes) → RecentRing
push_all r [] = r
push_all r ((id, frame) ∷ rest) = push_all (push r id frame) rest

unfoldable pub shown : List (ℕ × Bytes) → List DispatchedPacket
shown [] = []
shown ((id, frame) ∷ rest) = dispatched id frame ∷ shown rest

length-snapshot_from :
    (slots : List RecentSlot) (start i left : ℕ) → length (snapshot_from slots start i left) ≡ left
unfolding snapshot_from
length-snapshot_from slots start i zero = refl
length-snapshot_from slots start i (suc left) =
    ap suc (length-snapshot_from slots start (i + 1) left)

length-snapshot : (r : RecentRing) → length (snapshot r) ≡ r.count
unfolding snapshot
length-snapshot r = elim (Bool-cases (r.count == 0)) [
  | inl none_yet ↦ rw none_yet (sym ((==_iff r.count 0).0 none_yet))
  | inr some_yet ↦ rw some_yet (length-snapshot_from r.slots _ 0 r.count)
]

-- The ring refines the list of everything pushed: after any history of pushes the snapshot is the
-- last three entries of what it showed before, followed by the pushed packets in order.
pub snapshot-push_all :
    (r : RecentRing) (history : List (ℕ × Bytes))
    → IsRing r
    → snapshot (push_all r history) ≡ keep_last 3 (snapshot r ++ shown history)
unfolding push_all shown
snapshot-push_all r [] h = sym (keep_last_all 3 (snapshot r) (omega (arith, length-snapshot r)))
snapshot-push_all r ((id, frame) ∷ rest) h =
    snapshot-push_all (push r id frame) rest (push-IsRing r id frame h)
    ∙ ap (λ t. keep_last 3 (t ++ shown rest)) (snapshot-push r id frame h)
    ∙ keep_last-keep_last 3 (snapshot r ++ dispatched id frame ∷ []) (shown rest)
    ∙ ap (keep_last 3) (append_assoc (snapshot r) (dispatched id frame ∷ []) (shown rest))
