-- ===== src/Session/Servers/Keys.antt =====
-- pkg/session/obfuscation_keys.go: the keys of a packet version; all zero where there are none.
use rathena_client.Shared.{
  ℕ, ◌≤◌, ◌<◌, ◌≡◌, ◌⊎◌, refl, arith, Bool, true, ◌&&◌, List, [], ◌∷◌, ◌++◌, ◌==◌, leb, ltb,
  if◌then◌else◌, all, Bool-cases, inl, inr,
}
use rathena_client.Session.Servers.Keys20110817.{keys_since_20110817}
use rathena_client.Session.Servers.Keys20150429.{keys_since_20150429}
use rathena_client.Session.Servers.Keys20161221.{keys_since_20161221}

abbrev pub Keys : Type 0
Keys = ℕ × ℕ × ℕ

-- The `switch`, case by case.
unfoldable pub keys_in : List (ℕ × ℕ × ℕ × ℕ) → ℕ → Keys
keys_in [] pv = (0, 0, 0)
keys_in ((ver, k0, k1, k2) ∷ rest) pv = if pv == ver then (k0, k1, k2) else keys_in rest pv

abbrev pub key_cases : List (ℕ × ℕ × ℕ × ℕ)
key_cases = keys_since_20110817 ++ keys_since_20150429 ++ keys_since_20161221

unfoldable pub obfuscation_keys_for : ℕ → Keys
unfolding keys_in
obfuscation_keys_for pv = keys_in key_cases pv

abbrev sound_case : ℕ × ℕ × ℕ × ℕ → Bool
sound_case (ver, k0, k1, k2) =
    leb 20110817 ver
    && leb ver 20180307
    && ltb 0 k0
    && ltb k0 0x80000000
    && ltb 0 k1
    && ltb k1 0x80000000
    && ltb 0 k2
    && ltb k2 0x80000000

-- No keys, or three keys of 31 bits that are not zero at a version of the obfuscated years.
abbrev pub IsKeys : ℕ → Keys → Type 0
IsKeys pv (k0, k1, k2) =
    ((k0 ≡ 0) × (k1 ≡ 0) × (k2 ≡ 0))
    ⊎ ((20110817 ≤ pv)
        × (pv ≤ 20180307)
        × (0 < k0)
        × (k0 < 0x80000000)
        × (0 < k1)
        × (k1 < 0x80000000)
        × (0 < k2)
        × (k2 < 0x80000000))

keys_in-IsKeys :
    (cases : List (ℕ × ℕ × ℕ × ℕ)) (pv : ℕ)
    → all sound_case cases ≡ true
    → IsKeys pv (keys_in cases pv)
unfolding keys_in
keys_in-IsKeys [] pv h = inl (refl, refl, refl)
keys_in-IsKeys ((ver, k0, k1, k2) ∷ rest) pv h = elim (Bool-cases (pv == ver)) [
  | inl found ↦ rw found (inr (ground arith))
  | inr other ↦ rw other (keys_in-IsKeys rest pv (ground arith))
]

pub obfuscation_keys_for-IsKeys : (pv : ℕ) → IsKeys pv (obfuscation_keys_for pv)
unfolding obfuscation_keys_for
obfuscation_keys_for-IsKeys pv = keys_in-IsKeys key_cases pv refl
