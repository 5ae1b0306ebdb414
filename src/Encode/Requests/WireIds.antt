-- ===== src/Encode/Requests/WireIds.antt =====
-- The ids of the nine requests beside each other, at every packet version.
use rathena_client.Shared.{
  ℕ, ◌≤◌, ◌<◌, ◌≡◌, refl, sym, ap, ap₂, ◌∙◌, arith, Bool, true, false, not, ◌&&◌, ◌||◌, List, [],
  ◌∷◌, map, ltb, leb, ◌==◌, if◌then◌else◌, all, Bool-cases, inl, inr, ltb→lt,
}
use rathena_client.Encode.Cases.{Cases, case_in}
use rathena_client.Encode.Shuffle.Since20130515.{cases_after_20180307}
use rathena_client.Encode.Shuffle.{shuffle_versions, or_base, shuffled_cto_sid}
use rathena_client.Encode.Shuffle.Injective.{cases_of, cases_of-all, shuffled_cto_sid-case_in}
use rathena_client.Encode.Requests.{
  below, look_cases, look_id, drop_item_cases, drop_item_id, actor_action_cases, actor_action_id,
  move_to_storage_cases, move_to_storage_id, pickup_item_cases, pickup_item_id,
  skill_use_location_cases, skill_use_location_id, move_from_storage_cases, move_from_storage_id,
  friends_add_cases, friends_add_id, move_to_cases, move_to_id,
}
use rathena_client.Encode.Requests.Segments.{clear, below_steady, below_past, passes, by_segments}

abbrev pub request_ids : ℕ → List ℕ
request_ids pv =
    look_id pv
    ∷ drop_item_id pv
    ∷ actor_action_id pv
    ∷ move_to_storage_id pv
    ∷ pickup_item_id pv
    ∷ skill_use_location_id pv
    ∷ move_from_storage_id pv
    ∷ friends_add_id pv
    ∷ move_to_id pv
    ∷ []

abbrev pub differ : List ℕ → Bool
differ [] = true
differ (x ∷ xs) = all (λ y. not (x == y)) xs && differ xs

-- Where `look` has the id of `move_to`, `actor_action` that of `pickup_item`, and `look` that of
-- `friends_add`.
abbrev pub shared_windows : List (ℕ × ℕ)
shared_windows = (20040726, 20040906) ∷ (20041129, 20050110) ∷ (20120418, 20120702) ∷ []

abbrev pub outside : List (ℕ × ℕ) → ℕ → Bool
outside [] pv = true
outside ((since, until) ∷ rest) pv = (ltb pv since || leb until pv) && outside rest pv

same : Bool → Bool → Bool
same a b = if a then b else not b

same-eq : (a b : Bool) → same a b ≡ true → a ≡ b
unfolding same
same-eq a b h = ground arith

abbrev windows_clear : List (ℕ × ℕ) → ℕ → ℕ → Bool
windows_clear [] a b = true
windows_clear ((since, until) ∷ rest) a b =
    (leb since a || leb b since) && (leb until a || leb b until) && windows_clear rest a b

outside_steady :
    (windows : List (ℕ × ℕ)) (a b pv : ℕ)
    → windows_clear windows a b ≡ true
    → a ≤ pv
    → pv < b
    → outside windows pv ≡ outside windows a
outside_steady [] a b pv h lo hi = refl
outside_steady ((since, until) ∷ rest) a b pv h lo hi = ground (arith, outside_steady rest a b pv)

and_true : (a b : Bool) → (a && b) ≡ true → (a ≡ true) × (b ≡ true)
and_true a b h = ground arith

-- Each request's switch, and its base id in the shuffle table.
abbrev requests : List (List (ℕ × ℕ) × ℕ)
requests =
    (look_cases, 0x009B)
    ∷ (drop_item_cases, 0x00A2)
    ∷ (actor_action_cases, 0x0089)
    ∷ (move_to_storage_cases, 0x00F3)
    ∷ (pickup_item_cases, 0x009F)
    ∷ (skill_use_location_cases, 0x0116)
    ∷ (move_from_storage_cases, 0x00F5)
    ∷ (friends_add_cases, 0x0202)
    ∷ (move_to_cases, 0x0085)
    ∷ []

abbrev id_of : ℕ → List (ℕ × ℕ) × ℕ → ℕ
id_of pv (cases, base) = below cases (shuffled_cto_sid pv base) pv

request_ids-map : (pv : ℕ) → request_ids pv ≡ map (id_of pv) requests
unfolding look_id drop_item_id actor_action_id move_to_storage_id pickup_item_id
    skill_use_location_id move_from_storage_id friends_add_id move_to_id
request_ids-map pv = refl

map-id_of_steady :
    (rs : List (List (ℕ × ℕ) × ℕ)) (a b pv : ℕ)
    → all (λ (r : List (ℕ × ℕ) × ℕ). clear (r.0) a b) rs ≡ true
    → a ≤ pv
    → pv < b
    → map (id_of pv) rs ≡ map (id_of a) rs
map-id_of_steady [] a b pv h lo hi = refl
map-id_of_steady ((cases, base) ∷ rs) a b pv h lo hi =
    let (first, others) = and_true (clear cases a b) _ h in
    ap₂ (λ x xs. x ∷ xs)
      (below_steady cases (shuffled_cto_sid pv base) (shuffled_cto_sid a base) a b pv first lo hi)
      (map-id_of_steady rs a b pv others lo hi)

-- The versions from which on a switch changes.
abbrev bounds : List ℕ
bounds =
    20040726 ∷ 20040906 ∷ 20041129 ∷ 20050110 ∷ 20080910 ∷ 20101124 ∷ 20111005 ∷ 20111102 ∷ 20120307
    ∷ 20120410 ∷ 20120418 ∷ 20120702 ∷ 20130320 ∷ 20130515 ∷ []

-- The ids of a version from its cases in the shuffle table.
abbrev shuffled_ids : Cases → List (List (ℕ × ℕ) × ℕ) → List ℕ
shuffled_ids cases rs = map (λ (r : List (ℕ × ℕ) × ℕ). or_base (case_in cases (r.1)) (r.1)) rs

map-id_of_past :
    (rs : List (List (ℕ × ℕ) × ℕ)) (last pv : ℕ)
    → all (λ (r : List (ℕ × ℕ) × ℕ). all (λ (c : ℕ × ℕ). leb (c.0) last) (r.0)) rs ≡ true
    → last ≤ pv
    → map (id_of pv) rs ≡ shuffled_ids (cases_of pv) rs
map-id_of_past [] last pv h le = refl
map-id_of_past ((cases, base) ∷ rs) last pv h le =
    let (first, others) = and_true (all (λ (c : ℕ × ℕ). leb (c.0) last) cases) _ h in
    ap₂ (λ x xs. x ∷ xs)
      (below_past cases (shuffled_cto_sid pv base) last pv first le
        ∙ shuffled_cto_sid-case_in pv base)
      (map-id_of_past rs last pv others le)

le_of_not_ltb : (a b : ℕ) → ltb a b ≡ false → b ≤ a
le_of_not_ltb a b h = ground arith

-- A test of the ids, and the windows outside of which it is to pass.
module _ (f : List ℕ → Bool) (windows : List (ℕ × ℕ)) where
  abbrev agrees : ℕ → Bool
  agrees pv = same (f (request_ids pv)) (outside windows pv)

  abbrev all_clear : ℕ → ℕ → Bool
  all_clear a b =
      all (λ (r : List (ℕ × ℕ) × ℕ). clear (r.0) a b) requests && windows_clear windows a b

  agrees_steady : (a b pv : ℕ) → all_clear a b ≡ true → a ≤ pv → pv < b → agrees pv ≡ agrees a
  agrees_steady a b pv h lo hi =
      let (switches, rest) =
        and_true (all (λ (r : List (ℕ × ℕ) × ℕ). clear (r.0) a b) requests) _ h in
      let ids : request_ids pv ≡ request_ids a =
        request_ids-map pv
        ∙ map-id_of_steady requests a b pv switches lo hi
        ∙ sym (request_ids-map a) in
      ap₂ (λ xs w. same (f xs) w) ids (outside_steady windows a b pv rest lo hi)

  -- The test holds of the ids of every version exactly outside the windows, if it does so at the
  -- first version of each segment, at each version of the shuffle table, and from the last bound on.
  by_versions :
      passes all_clear agrees 0 bounds ≡ true
      → all (λ (v : ℕ × Cases). f (shuffled_ids (v.1) requests)) shuffle_versions ≡ true
      → f (shuffled_ids cases_after_20180307 requests) ≡ true
      → f (shuffled_ids [] requests) ≡ true
      → ((pv : ℕ) → 20130515 ≤ pv → outside windows pv ≡ true)
      → (pv : ℕ) → f (request_ids pv) ≡ outside windows pv
  by_versions early versions stable unlisted closed pv = elim (Bool-cases (ltb pv 20130515)) [
    | inl lt ↦ same-eq (f (request_ids pv)) (outside windows pv) (
        by_segments all_clear agrees agrees_steady 0 bounds pv early (omega arith)
          (ltb→lt pv 20130515 lt))
    | inr late ↦
        let le = le_of_not_ltb pv 20130515 late in
        ap f (request_ids-map pv ∙ map-id_of_past requests 20130515 pv refl le)
        ∙ cases_of-all (λ cases. f (shuffled_ids cases requests)) pv unlisted versions stable
        ∙ sym (closed pv le)
  ]

differ_early :
    passes (all_clear differ shared_windows) (agrees differ shared_windows) 0 bounds ≡ true
unfolding same below look_id drop_item_id actor_action_id move_to_storage_id pickup_item_id
    skill_use_location_id move_from_storage_id friends_add_id move_to_id
differ_early = refl

differ_versions :
    all (λ (v : ℕ × Cases). differ (shuffled_ids (v.1) requests)) shuffle_versions ≡ true
unfolding case_in
differ_versions = refl

differ_stable : differ (shuffled_ids cases_after_20180307 requests) ≡ true
unfolding case_in
differ_stable = refl

differ_unlisted : differ (shuffled_ids [] requests) ≡ true
unfolding case_in
differ_unlisted = refl

closed_late : (pv : ℕ) → 20130515 ≤ pv → outside shared_windows pv ≡ true
closed_late pv h = ground arith

-- At a packet version the nine requests whose id depends on it have nine different ids, except in
-- three windows: from 20040726 up to 20040906, from 20041129 up to 20050110, and from 20120418 up
-- to 20120702. There, at every version, two of them share an id.
pub request_ids-differ : (pv : ℕ) → differ (request_ids pv) ≡ outside shared_windows pv
request_ids-differ =
    by_versions differ shared_windows differ_early differ_versions differ_stable differ_unlisted
      closed_late

abbrev pub words : List ℕ → Bool
words ids = all (λ id. ltb id 65536) ids

words_early : passes (all_clear words []) (agrees words []) 0 bounds ≡ true
unfolding same below look_id drop_item_id actor_action_id move_to_storage_id pickup_item_id
    skill_use_location_id move_from_storage_id friends_add_id move_to_id
words_early = refl

words_versions :
    all (λ (v : ℕ × Cases). words (shuffled_ids (v.1) requests)) shuffle_versions ≡ true
unfolding case_in
words_versions = refl

words_stable : words (shuffled_ids cases_after_20180307 requests) ≡ true
unfolding case_in
words_stable = refl

words_unlisted : words (shuffled_ids [] requests) ≡ true
unfolding case_in
words_unlisted = refl

-- Every id fits in its two bytes.
pub request_ids-words : (pv : ℕ) → words (request_ids pv) ≡ true
request_ids-words =
    by_versions words [] words_early words_versions words_stable words_unlisted (λ pv h. refl)
