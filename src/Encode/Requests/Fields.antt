-- ===== src/Encode/Requests/Fields.antt =====
-- Where the fields of each request stand.
use rathena_client.Shared.{
  ℕ, ◌+◌, ◌*◌, ◌/◌, ◌%◌, ◌^◌, ◌<◌, ◌≤◌, ◌≡◌, refl, ap, ◌∙◌, arith, some, [], length, drop,
  get_elem?, le_u16?, le_u32?,
}
use rathena_client.Packing.{decode_pos_dir, encode_pos_dir}
use rathena_client.Packing.RoundTrip.{decode_pos_dir-encode_pos_dir}
use rathena_client.Encode.Requests.{
  Look, DropItem, ActorAction, MoveToStorage, PickupItem, SkillUseLocation, MoveFromStorage, MoveTo,
  look_id, drop_item_id, actor_action_id, move_to_storage_id, pickup_item_id, skill_use_location_id,
  move_from_storage_id, friends_add_id, move_to_id, encode_look, encode_drop_item,
  encode_actor_action, encode_move_to_storage, encode_pickup_item, encode_skill_use_location,
  encode_move_from_storage, encode_move_to,
}
use rathena_client.Encode.Requests.WireIds.{request_ids-words}

ids_lt :
    (pv : ℕ)
    → (look_id pv < 65536)
      × (drop_item_id pv < 65536)
      × (actor_action_id pv < 65536)
      × (move_to_storage_id pv < 65536)
      × (pickup_item_id pv < 65536)
      × (skill_use_location_id pv < 65536)
      × (move_from_storage_id pv < 65536)
      × (friends_add_id pv < 65536)
      × (move_to_id pv < 65536)
ids_lt pv = ground (arith, request_ids-words pv)

-- Two bytes written, read back.
word_read : (v : ℕ) → v < 65536 → v % 2 ^ 8 + v / 2 ^ 8 % 2 ^ 8 * 2 ^ 8 ≡ v
word_read v h = omega arith

long_read :
    (v : ℕ)
    → v < 2 ^ 32
    → v % 2 ^ 8
        + v / 2 ^ 8 % 2 ^ 8 * 2 ^ 8
        + (v / 2 ^ 16 % 2 ^ 8 + v / 2 ^ 24 % 2 ^ 8 * 2 ^ 8) * 2 ^ 16
      ≡ v
long_read v h = omega arith

-- From packet version 20101124 on, a walk request is 5 bytes long, starts with the id of the version,
-- and unpacks to the coordinates, if these are below 1024, and direction 0.
pub encode_move_to-fields :
    (req : MoveTo) (pv : ℕ)
    → 20101124 ≤ pv
    → req.x < 1024
    → req.y < 1024
    → let p = encode_move_to req pv in
      (length p ≡ 5)
      × (le_u16? p 0 ≡ some (move_to_id pv))
      × (decode_pos_dir (drop 2 p) ≡ some (record { x = req.x; y = req.y; dir = 0 }))
unfolding encode_move_to encode_pos_dir
encode_move_to-fields req pv new hx hy =
    let cut : some (record { x = req.x % 1024; y = req.y % 1024; dir = 0 % 16 })
        ≡ some (record { x = req.x; y = req.y; dir = 0 }) =
      ground arith in
    (
      refl,
      ap some (word_read (move_to_id pv) (ids_lt pv).8),
      decode_pos_dir-encode_pos_dir req.x req.y 0 [] ∙ cut,
    )

-- From packet version 20101124 on, the requests to drop and to take an item are 6 bytes long and
-- those to put into and to get out of the storage 8, and each has its id, then its fields without a
-- gap, if the values are in the range of the fields.
pub item_requests-fields :
    (drop_req : DropItem) (pick : PickupItem) (put : MoveToStorage) (get : MoveFromStorage) (pv : ℕ)
    → 20101124 ≤ pv
    → drop_req.index < 2 ^ 16
    → drop_req.amount < 2 ^ 16
    → pick.itid < 2 ^ 32
    → put.index < 2 ^ 16
    → put.amount < 2 ^ 32
    → get.index < 2 ^ 16
    → get.amount < 2 ^ 32
    → let d = encode_drop_item drop_req pv in
      let p = encode_pickup_item pick pv in
      let s = encode_move_to_storage put pv in
      let f = encode_move_from_storage get pv in
      (length d ≡ 6)
      × (length p ≡ 6)
      × (length s ≡ 8)
      × (length f ≡ 8)
      × (le_u16? d 0 ≡ some (drop_item_id pv))
      × (le_u16? d 2 ≡ some drop_req.index)
      × (le_u16? d 4 ≡ some drop_req.amount)
      × (le_u16? p 0 ≡ some (pickup_item_id pv))
      × (le_u32? p 2 ≡ some pick.itid)
      × (le_u16? s 0 ≡ some (move_to_storage_id pv))
      × (le_u16? s 2 ≡ some put.index)
      × (le_u32? s 4 ≡ some put.amount)
      × (le_u16? f 0 ≡ some (move_from_storage_id pv))
      × (le_u16? f 2 ≡ some get.index)
      × (le_u32? f 4 ≡ some get.amount)
unfolding encode_drop_item encode_pickup_item encode_move_to_storage encode_move_from_storage
item_requests-fields drop_req pick put get pv new a b c d e f g =
    let lt = ids_lt pv in
    (
      refl,
      refl,
      refl,
      refl,
      ap some (word_read (drop_item_id pv) lt.1),
      ap some (word_read drop_req.index a),
      ap some (word_read drop_req.amount b),
      ap some (word_read (pickup_item_id pv) lt.4),
      ap some (long_read pick.itid c),
      ap some (word_read (move_to_storage_id pv) lt.3),
      ap some (word_read put.index d),
      ap some (long_read put.amount e),
      ap some (word_read (move_from_storage_id pv) lt.6),
      ap some (word_read get.index f),
      ap some (long_read get.amount g),
    )

-- From packet version 20101124 on, the requests to turn, to act and to use a skill on the ground are
-- 5, 7 and 10 bytes long, and each has its id, then its fields, if the values are in the range of the
-- fields.
pub actor_requests-fields :
    (look : Look) (act : ActorAction) (skill : SkillUseLocation) (pv : ℕ)
    → 20101124 ≤ pv
    → act.target_gid < 2 ^ 32
    → skill.skill_level < 2 ^ 16
    → skill.skill_id < 2 ^ 16
    → skill.x_pos < 2 ^ 16
    → skill.y_pos < 2 ^ 16
    → let l = encode_look look pv in
      let a = encode_actor_action act pv in
      let s = encode_skill_use_location skill pv in
      (length l ≡ 5)
      × (length a ≡ 7)
      × (length s ≡ 10)
      × (le_u16? l 0 ≡ some (look_id pv))
      × (get_elem? l 2 ≡ some look.head_dir)
      × (get_elem? l 4 ≡ some look.dir)
      × (le_u16? a 0 ≡ some (actor_action_id pv))
      × (le_u32? a 2 ≡ some act.target_gid)
      × (get_elem? a 6 ≡ some act.action)
      × (le_u16? s 0 ≡ some (skill_use_location_id pv))
      × (le_u16? s 2 ≡ some skill.skill_level)
      × (le_u16? s 4 ≡ some skill.skill_id)
      × (le_u16? s 6 ≡ some skill.x_pos)
      × (le_u16? s 8 ≡ some skill.y_pos)
unfolding encode_look encode_actor_action encode_skill_use_location
actor_requests-fields look act skill pv new a b c d e =
    let lt = ids_lt pv in
    (
      refl,
      refl,
      refl,
      ap some (word_read (look_id pv) lt.0),
      refl,
      refl,
      ap some (word_read (actor_action_id pv) lt.2),
      ap some (long_read act.target_gid a),
      refl,
      ap some (word_read (skill_use_location_id pv) lt.5),
      ap some (word_read skill.skill_level b),
      ap some (word_read skill.skill_id c),
      ap some (word_read skill.x_pos d),
      ap some (word_read skill.y_pos e),
    )
