-- ===== src/Encode/Requests/Segments.antt =====
-- Between two bounds of its switches nothing of the packet version matters: one look at the first
-- version of each segment decides a test for all versions before the last bound.
use rathena_client.Shared.{
  ℕ, ◌<◌, ◌≤◌, ◌≡◌, refl, ◌∙◌, arith, Bool, true, false, ◌&&◌, ◌||◌, List, [], ◌∷◌, ltb, leb, all,
  Bool-cases, inl, inr, ltb→lt,
}
use rathena_client.Encode.Requests.{below}

-- No bound of the switch lies within the segment from `a` up to `b`, and one lies behind it.
abbrev pub clear : List (ℕ × ℕ) → ℕ → ℕ → Bool
clear [] a b = false
clear ((bound, id) ∷ rest) a b = leb b bound || (leb bound a && clear rest a b)

-- Then all versions of the segment have the id of its first one, whatever the default is.
pub below_steady :
    (cases : List (ℕ × ℕ)) (other other' a b packetver : ℕ)
    → clear cases a b ≡ true
    → a ≤ packetver
    → packetver < b
    → below cases other packetver ≡ below cases other' a
unfolding below
below_steady [] other other' a b packetver h lo hi = absurd cc
below_steady ((bound, id) ∷ rest) other other' a b packetver h lo hi =
    ground (arith, below_steady rest other other' a b packetver)

-- From the last bound on, the switch gives its default.
pub below_past :
    (cases : List (ℕ × ℕ)) (other last packetver : ℕ)
    → all (λ (c : ℕ × ℕ). leb (c.0) last) cases ≡ true
    → last ≤ packetver
    → below cases other packetver ≡ other
unfolding below
below_past [] other last packetver h le = refl
below_past ((bound, id) ∷ rest) other last packetver h le =
    ground (arith, below_past rest other last packetver)

-- The first version of each segment passes the test, and the segment is clear.
abbrev pub passes : (ℕ → ℕ → Bool) → (ℕ → Bool) → ℕ → List ℕ → Bool
passes is_clear test a [] = true
passes is_clear test a (b ∷ bounds) = is_clear a b && test a && passes is_clear test b bounds

abbrev pub last_of : ℕ → List ℕ → ℕ
last_of a [] = a
last_of a (b ∷ bounds) = last_of b bounds

pub by_segments :
    (is_clear : ℕ → ℕ → Bool) (test : ℕ → Bool)
    → ((a b packetver : ℕ)
        → is_clear a b ≡ true
        → a ≤ packetver
        → packetver < b
        → test packetver ≡ test a)
    → (a : ℕ) (bounds : List ℕ) (packetver : ℕ) → passes is_clear test a bounds ≡ true
    → a ≤ packetver
    → packetver < last_of a bounds
    → test packetver ≡ true
by_segments is_clear test steady a [] packetver h lo hi = absurd (omega arith)
by_segments is_clear test steady a (b ∷ bounds) packetver h lo hi =
    elim (Bool-cases (ltb packetver b)) [
      | inl inside ↦
          steady a b packetver (ground arith) lo (ltb→lt packetver b inside) ∙ ground arith
      | inr after ↦
          by_segments is_clear test steady b bounds packetver (ground arith) (ground arith) hi
    ]
