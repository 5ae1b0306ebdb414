-- ===== src/Encode/Shuffle/Injective.antt =====
-- No two requests of one packet version share an id.
use rathena_client.Shared.{
  ℕ, ◌≡◌, ◌≢◌, refl, arith, Bool, true, ◌&&◌, not, Option, none, some, List, [], ◌∷◌, ◌==◌, ltb,
  leb, if◌then◌else◌, all, Bool-cases, inl, inr, ltb→lt, ◌<◌,
}
use rathena_client.Encode.Cases.{Cases, case_in}
use rathena_client.Encode.Shuffle.Since20130515.{cases_after_20180307}
use rathena_client.Encode.Shuffle.{shuffle_versions, version_in, or_base, shuffled_cto_sid}

-- The cases that a packet version has: the fixed ones after 20180307, else those of the version.
unfoldable pub cases_of : ℕ → Cases
cases_of packetver =
    if ltb 20180307 packetver then cases_after_20180307 else version_in shuffle_versions packetver

abbrev is_free : ℕ → Cases → Bool
is_free wire [] = true
is_free wire ((b, w) ∷ rest) = not (w == wire) && is_free wire rest

abbrev unshared : Cases → Bool
unshared [] = true
unshared ((b, w) ∷ rest) = is_free w rest && unshared rest

is_free-ne :
    (cases : Cases) (base wire : ℕ) → is_free wire cases ≡ true → case_in cases base ≢ some wire
unfolding case_in
is_free-ne [] base wire h = λ q. cc
is_free-ne ((b, w) ∷ rest) base wire h = ground (arith, is_free-ne rest base wire)

unshared-injective :
    (cases : Cases) (a b wire : ℕ)
    → unshared cases ≡ true
    → case_in cases a ≡ some wire
    → case_in cases b ≡ some wire
    → a ≡ b
unfolding case_in
unshared-injective [] a b wire h p q = absurd cc
unshared-injective ((c, w) ∷ rest) a b wire h p q =
    ground (arith, unshared-injective rest a b wire, is_free-ne rest a w, is_free-ne rest b w)

-- A test that all versions pass, and the empty switch too, holds of the cases of every version.
pub version_in-all :
    (test : Cases → Bool) (versions : List (ℕ × Cases)) (packetver : ℕ)
    → test [] ≡ true
    → all (λ (v : ℕ × Cases). test (v.1)) versions ≡ true
    → test (version_in versions packetver) ≡ true
unfolding version_in
version_in-all test [] packetver e h = e
version_in-all test ((v, cases) ∷ rest) packetver e h =
    ground (arith, version_in-all test rest packetver)

versions_unshared : all (λ (v : ℕ × Cases). unshared (v.1)) shuffle_versions ≡ true
versions_unshared = refl

version_in_past :
    (versions : List (ℕ × Cases)) (last packetver : ℕ)
    → all (λ (v : ℕ × Cases). leb (v.0) last) versions ≡ true
    → last < packetver
    → version_in versions packetver ≡ []
unfolding version_in
version_in_past [] last packetver h lt = refl
version_in_past ((v, cases) ∷ rest) last packetver h lt =
    ground (arith, version_in_past rest last packetver)

versions_past : all (λ (v : ℕ × Cases). leb (v.0) 20180307) shuffle_versions ≡ true
versions_past = refl

or_base_twice : (o : Option ℕ) (base : ℕ) → or_base o (or_base none base) ≡ or_base o base
or_base_twice none base = refl
or_base_twice (some wire) base = refl

-- The two switches are one look-up in the cases of the packet version.
pub shuffled_cto_sid-case_in :
    (packetver base : ℕ)
    → shuffled_cto_sid packetver base ≡ or_base (case_in (cases_of packetver) base) base
unfolding shuffled_cto_sid cases_of
shuffled_cto_sid-case_in packetver base = elim (Bool-cases (ltb 20180307 packetver)) [
  | inl late ↦
      rw
        (
          late,
          version_in_past shuffle_versions 20180307 packetver versions_past
              (ltb→lt 20180307 packetver late),
        )
        (or_base_twice (case_in cases_after_20180307 base) base)
  | inr shuffled ↦ rw shuffled refl
]

pub cases_of-all :
    (test : Cases → Bool) (packetver : ℕ)
    → test [] ≡ true
    → all (λ (v : ℕ × Cases). test (v.1)) shuffle_versions ≡ true
    → test cases_after_20180307 ≡ true
    → test (cases_of packetver) ≡ true
unfolding cases_of
cases_of-all test packetver e h late = elim (Bool-cases (ltb 20180307 packetver)) [
  | inl after ↦ rw after late
  | inr shuffled ↦ rw shuffled (version_in-all test shuffle_versions packetver e h)
]

unshared_ids :
    (packetver a b wire_a wire_b : ℕ)
    → case_in (cases_of packetver) a ≡ some wire_a
    → case_in (cases_of packetver) b ≡ some wire_b
    → shuffled_cto_sid packetver a ≡ shuffled_cto_sid packetver b
    → a ≡ b
unshared_ids packetver a b wire_a wire_b p q same =
    let sent_a : shuffled_cto_sid packetver a ≡ wire_a =
      rw (shuffled_cto_sid-case_in packetver a, p) refl in
    let sent_b : shuffled_cto_sid packetver b ≡ wire_b =
      rw (shuffled_cto_sid-case_in packetver b, q) refl in
    let one : wire_b ≡ wire_a = cc in
    unshared-injective (cases_of packetver) a b wire_a
      (cases_of-all unshared packetver refl versions_unshared refl) p (rw (← one) q)

-- At every packet version, two different base ids that both have a case there are sent under
-- different ids.
pub shuffled_cto_sid-injective :
    (packetver a b wire_a wire_b : ℕ)
    → case_in (cases_of packetver) a ≡ some wire_a
    → case_in (cases_of packetver) b ≡ some wire_b
    → a ≢ b
    → shuffled_cto_sid packetver a ≢ shuffled_cto_sid packetver b
shuffled_cto_sid-injective packetver a b wire_a wire_b p q ne =
    λ same. ne (unshared_ids packetver a b wire_a wire_b p q same)
