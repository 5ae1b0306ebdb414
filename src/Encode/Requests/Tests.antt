-- ===== src/Encode/Requests/Tests.antt =====
-- Requests at concrete versions, and the theorems on them.
use rathena_client.Shared.{
  ◌≡◌, ◌≢◌, refl, arith, false, some, [], ◌∷◌, length, drop, get_elem?, le_u16?, le_u32?,
}
use rathena_client.Packing.{decode_pos_dir, encode_pos_dir}
use rathena_client.Encode.Cases.{case_in}
use rathena_client.Encode.Shuffle.{shuffled_cto_sid, version_in}
use rathena_client.Encode.Shuffle.Injective.{cases_of, shuffled_cto_sid-injective}
use rathena_client.Encode.Requests.{
  Look, DropItem, ActorAction, MoveToStorage, PickupItem, SkillUseLocation, MoveFromStorage, MoveTo,
  look_id, drop_item_id, actor_action_id, move_to_storage_id, pickup_item_id, skill_use_location_id,
  move_from_storage_id, move_to_id, encode_look, encode_drop_item, encode_actor_action,
  encode_move_to_storage, encode_pickup_item, encode_skill_use_location, encode_move_from_storage,
  encode_move_to, below,
}
use rathena_client.Encode.Requests.WireIds.{
  request_ids, differ, outside, shared_windows, request_ids-differ,
}
use rathena_client.Encode.Requests.Fields.{
  encode_move_to-fields, item_requests-fields, actor_requests-fields,
}

shuffled_cto_sid-injective_example :
    shuffled_cto_sid 20130515 0x0085 ≢ shuffled_cto_sid 20130515 0x0089
unfolding case_in cases_of version_in
shuffled_cto_sid-injective_example =
    shuffled_cto_sid-injective 20130515 0x0085 0x0089 0x0437 0x0369 refl refl
      (λ q. absurd (omega arith))

two_share : differ (request_ids 20120500) ≡ false
unfolding below look_id drop_item_id actor_action_id move_to_storage_id
two_share = request_ids-differ 20120500

request_ids-differ_example : differ (request_ids 20200401) ≡ outside shared_windows 20200401
request_ids-differ_example = request_ids-differ 20200401

abbrev step_to : MoveTo
step_to = record { x = 150; y = 161 }

encode_move_to-fields_example :
    let p = encode_move_to step_to 20200401 in
    (length p ≡ 5)
    × (le_u16? p 0 ≡ some (move_to_id 20200401))
    × (decode_pos_dir (drop 2 p) ≡ some (record { x = 150; y = 161; dir = 0 }))
encode_move_to-fields_example =
    encode_move_to-fields step_to 20200401 (omega arith) (omega arith) (omega arith)

step_bytes : encode_move_to step_to 20200401 ≡ 0x5F ∷ 0x03 ∷ 37 ∷ 138 ∷ 16 ∷ []
unfolding encode_move_to encode_pos_dir move_to_id shuffled_cto_sid
step_bytes = refl

abbrev drop_two : DropItem
drop_two = record { index = 3; amount = 2 }

abbrev pick_one : PickupItem
pick_one = record { itid = 70000 }

abbrev store_some : MoveToStorage
store_some = record { index = 4; amount = 100000 }

abbrev fetch_some : MoveFromStorage
fetch_some = record { index = 5; amount = 7 }

item_requests-fields_example :
    let d = encode_drop_item drop_two 20200401 in
    let p = encode_pickup_item pick_one 20200401 in
    let s = encode_move_to_storage store_some 20200401 in
    let f = encode_move_from_storage fetch_some 20200401 in
    (length d ≡ 6)
    × (length p ≡ 6)
    × (length s ≡ 8)
    × (length f ≡ 8)
    × (le_u16? d 0 ≡ some (drop_item_id 20200401))
    × (le_u16? d 2 ≡ some 3)
    × (le_u16? d 4 ≡ some 2)
    × (le_u16? p 0 ≡ some (pickup_item_id 20200401))
    × (le_u32? p 2 ≡ some 70000)
    × (le_u16? s 0 ≡ some (move_to_storage_id 20200401))
    × (le_u16? s 2 ≡ some 4)
    × (le_u32? s 4 ≡ some 100000)
    × (le_u16? f 0 ≡ some (move_from_storage_id 20200401))
    × (le_u16? f 2 ≡ some 5)
    × (le_u32? f 4 ≡ some 7)
item_requests-fields_example =
    item_requests-fields drop_two pick_one store_some fetch_some 20200401 (omega arith)
      (omega arith) (omega arith) (omega arith) (omega arith) (omega arith) (omega arith)
      (omega arith)

abbrev turn : Look
turn = record { head_dir = 1; dir = 4 }

abbrev attack : ActorAction
attack = record { target_gid = 110000001; action = 7 }

abbrev storm : SkillUseLocation
storm = record { skill_level = 10; skill_id = 89; x_pos = 150; y_pos = 160 }

actor_requests-fields_example :
    let l = encode_look turn 20200401 in
    let a = encode_actor_action attack 20200401 in
    let s = encode_skill_use_location storm 20200401 in
    (length l ≡ 5)
    × (length a ≡ 7)
    × (length s ≡ 10)
    × (le_u16? l 0 ≡ some (look_id 20200401))
    × (get_elem? l 2 ≡ some 1)
    × (get_elem? l 4 ≡ some 4)
    × (le_u16? a 0 ≡ some (actor_action_id 20200401))
    × (le_u32? a 2 ≡ some 110000001)
    × (get_elem? a 6 ≡ some 7)
    × (le_u16? s 0 ≡ some (skill_use_location_id 20200401))
    × (le_u16? s 2 ≡ some 10)
    × (le_u16? s 4 ≡ some 89)
    × (le_u16? s 6 ≡ some 150)
    × (le_u16? s 8 ≡ some 160)
actor_requests-fields_example =
    actor_requests-fields turn attack storm 20200401 (omega arith) (omega arith) (omega arith)
      (omega arith) (omega arith) (omega arith)
