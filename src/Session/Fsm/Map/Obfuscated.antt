-- ===== src/Session/Fsm/Map/Obfuscated.antt =====
-- At which packet versions a map session obfuscates the packet ids: the key table of
-- pkg/session/obfuscation_keys.go beside the table of shuffled ids of pkg/encode/shuffle_map.go.
use rathena_client.Shared.{
  ℕ, ◌≡◌, refl, sym, ◌∙◌, arith, Bool, true, false, not, ◌||◌, List, [], ◌∷◌, ◌++◌, ◌==◌, map, all,
  Bool-cases, inl, inr, bit_or,
}
use rathena_client.Encode.Shuffle.{shuffle_versions}
use rathena_client.Session.Servers.{new_map_session, enable_obfuscation}
use rathena_client.Session.Servers.Keys.{
  Keys, IsKeys, keys_in, key_cases, obfuscation_keys_for, obfuscation_keys_for-IsKeys,
}
use rathena_client.Session.Fsm.Map.{MapConfig, map_session}

abbrev pub listed : ℕ → List ℕ → Bool
listed pv [] = false
listed pv (v ∷ rest) = pv == v || listed pv rest

-- The versions before ids were shuffled.
abbrev versions_before_20130515 : List ℕ
versions_before_20130515 =
    20110817 ∷ 20110824 ∷ 20110831 ∷ 20110906 ∷ 20111005 ∷ 20111012 ∷ 20111021 ∷ 20111025 ∷ 20111102
    ∷ 20111109 ∷ 20111122 ∷ 20111207 ∷ 20111214 ∷ 20111220 ∷ 20111228 ∷ 20120104 ∷ 20120111
    ∷ 20120120 ∷ 20120202 ∷ 20120207 ∷ 20120214 ∷ 20120229 ∷ 20120307 ∷ 20120314 ∷ 20120321
    ∷ 20120328 ∷ 20120404 ∷ 20120410 ∷ 20120418 ∷ 20120424 ∷ 20120509 ∷ 20120515 ∷ 20120525
    ∷ 20120605 ∷ 20120612 ∷ 20120618 ∷ 20120702 ∷ 20120716 ∷ 20130320 ∷ []

-- The versions from 20130515 on for which the encoders have no shuffled ids.
abbrev unshuffled_versions : List ℕ
unshuffled_versions =
    20130814 ∷ 20131218 ∷ 20131230 ∷ 20140115 ∷ 20140205 ∷ 20140305 ∷ 20140402 ∷ 20140416 ∷ []

abbrev pub obfuscated_versions : List ℕ
obfuscated_versions =
    versions_before_20130515 ++ map (λ v. v.0) shuffle_versions ++ unshuffled_versions

listed-subset :
    (pv : ℕ) (vs ws : List ℕ)
    → all (λ v. listed v ws) vs ≡ true
    → listed pv vs ≡ true
    → listed pv ws ≡ true
listed-subset pv [] ws h l = absurd cc
listed-subset pv (v ∷ rest) ws h l = elim (Bool-cases (pv == v)) [
  | inl same ↦
      let at : pv ≡ v = ground arith in let found : listed v ws ≡ true = ground arith in rw at found
  | inr other ↦ listed-subset pv rest ws (ground arith) (ground arith)
]

listed-same :
    (pv : ℕ) (vs ws : List ℕ)
    → all (λ v. listed v ws) vs ≡ true
    → all (λ w. listed w vs) ws ≡ true
    → listed pv vs ≡ listed pv ws
listed-same pv vs ws h k = elim (Bool-cases (listed pv vs)) [
  | inl there ↦ there ∙ sym (listed-subset pv vs ws h there)
  | inr absent ↦ elim (Bool-cases (listed pv ws)) [
    | inl found ↦ absurd (cc (listed-subset pv ws vs k found))
    | inr neither ↦ absent ∙ sym neither
  ]
]

-- The test of the caller.
abbrev some_key : Keys → Bool
some_key (k0, k1, k2) = not (bit_or (bit_or k0 k1) k2 == 0)

abbrev keyed : ℕ × ℕ × ℕ × ℕ → Bool
keyed (ver, k0, k1, k2) = some_key (k0, k1, k2)

keys_in-some_key :
    (cases : List (ℕ × ℕ × ℕ × ℕ)) (pv : ℕ)
    → all keyed cases ≡ true
    → some_key (keys_in cases pv) ≡ listed pv (map (λ c. c.0) cases)
unfolding keys_in
keys_in-some_key [] pv h = refl
keys_in-some_key ((ver, k0, k1, k2) ∷ rest) pv h = elim (Bool-cases (pv == ver)) [
  | inl found ↦ rw found (ground arith)
  | inr other ↦ rw other (keys_in-some_key rest pv (ground arith))
]

all-keyed : all keyed key_cases ≡ true
all-keyed = refl

keyed-obfuscated :
    all (λ v. listed v obfuscated_versions) (map (λ (c : ℕ × ℕ × ℕ × ℕ). c.0) key_cases) ≡ true
keyed-obfuscated = refl

obfuscated-keyed :
    all (λ v. listed v (map (λ (c : ℕ × ℕ × ℕ × ℕ). c.0) key_cases)) obfuscated_versions ≡ true
obfuscated-keyed = refl

obfuscation_keys_for-some_key :
    (pv : ℕ) → some_key (obfuscation_keys_for pv) ≡ listed pv obfuscated_versions
unfolding obfuscation_keys_for
obfuscation_keys_for-some_key pv =
    keys_in-some_key key_cases pv all-keyed
    ∙ listed-same pv (map (λ (c : ℕ × ℕ × ℕ × ℕ). c.0) key_cases) obfuscated_versions
        keyed-obfuscated obfuscated-keyed

module _ {Err W V : Type 0} where
  -- The map session of a connection obfuscates at the 39 listed versions before 20130515, at every
  -- version that the encoders' table of shuffled ids lists, and at the 8 listed versions from
  -- 20130515 on that this table lacks, and at no other version. The keys of a version are all zero, or
  -- three numbers from 1 to 2^31 - 1, these only from 20110817 to 20180307.
  pub map_session-enabled :
      (cfg : MapConfig Err W V)
      → ((map_session cfg).o_state.enabled ≡ listed cfg.packetver obfuscated_versions)
        × IsKeys cfg.packetver (obfuscation_keys_for cfg.packetver)
  unfolding map_session new_map_session enable_obfuscation
  map_session-enabled cfg =
      let pv = cfg.packetver in
      let test = obfuscation_keys_for-some_key pv in
      (
        elim (Bool-cases (some_key (obfuscation_keys_for pv))) [
          | inl on ↦ rw on (sym on ∙ test)
          | inr off ↦ rw off (sym off ∙ test)
        ],
        obfuscation_keys_for-IsKeys pv,
      )
