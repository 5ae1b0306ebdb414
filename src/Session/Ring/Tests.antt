-- ===== src/Session/Ring/Tests.antt =====
-- Runs of the ring, and its theorem at a history of four packets.
use rathena_client.Shared.{ℕ, ◌≡◌, refl, List, [], ◌∷◌, ◌++◌, Bytes, map, keep_last}
use rathena_client.Session.Ring.{
  DispatchedPacket, empty_ring, empty_slot, fill_slot, push, snapshot, slot_packet,
}
use rathena_client.Session.Ring.History.{push_all, shown, snapshot-push_all, IsRing-empty_ring}

abbrev four_packets : List (ℕ × Bytes)
four_packets = (1, 1 ∷ 0 ∷ []) ∷ (2, 2 ∷ 0 ∷ []) ∷ (3, 3 ∷ 0 ∷ []) ∷ (4, 4 ∷ 0 ∷ []) ∷ []

last_three :
    map (λ (p : DispatchedPacket). p.id) (snapshot (push_all empty_ring four_packets))
    ≡ 2 ∷ 3 ∷ 4 ∷ []
unfolding push_all push snapshot empty_ring empty_slot fill_slot slot_packet
last_three = refl

snapshot-push_all_example :
    snapshot (push_all empty_ring four_packets)
    ≡ keep_last 3 (snapshot empty_ring ++ shown four_packets)
snapshot-push_all_example = snapshot-push_all empty_ring four_packets IsRing-empty_ring
