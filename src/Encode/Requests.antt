-- ===== src/Encode/Requests.antt =====
-- pkg/encode and pkg/send: the requests whose id the packet version decides, first by a switch for
-- the versions before 20130515, then by the shuffle table.
pub mod WireIds
pub mod Segments
pub mod Fields
mod Tests
use rathena_client.Shared.{
  ℕ, List, [], ◌∷◌, ltb, if◌then◌else◌, Bytes, put_u16, put_u32, write_at, replicate, take,
}
use rathena_client.Packing.{encode_pos_dir}
use rathena_client.Encode.Shuffle.{shuffled_cto_sid}

-- A switch by `packetver < bound`: the bounds with their ids, and the default.
unfoldable pub below : List (ℕ × ℕ) → ℕ → ℕ → ℕ
below [] other packetver = other
below ((bound, id) ∷ rest) other packetver =
    if ltb packetver bound then id else below rest other packetver

pub record Look : Type 0 where
  pub head_dir : ℕ
  pub dir : ℕ

abbrev pub look_cases : List (ℕ × ℕ)
look_cases =
    (20101124, 0x009B)
    ∷ (20111005, 0x0361)
    ∷ (20120307, 0x0366)
    ∷ (20120410, 0x0890)
    ∷ (20120418, 0x0871)
    ∷ (20120702, 0x0202)
    ∷ (20130320, 0x0960)
    ∷ (20130515, 0x0897)
    ∷ []

unfoldable pub look_id : ℕ → ℕ
unfolding below
look_id packetver = below look_cases (shuffled_cto_sid packetver 0x009B) packetver

unfoldable pub encode_look : Look → ℕ → Bytes
encode_look req packetver =
    let p0 = write_at 0 (put_u16 (look_id packetver)) (replicate 5 0) in
    let p1 = write_at 2 (req.head_dir ∷ []) p0 in
    let p2 = write_at 3 (0x00 ∷ []) p1 in write_at 4 (req.dir ∷ []) p2

pub record DropItem : Type 0 where
  pub index : ℕ
  pub amount : ℕ

abbrev pub drop_item_cases : List (ℕ × ℕ)
drop_item_cases =
    (20101124, 0x00A2)
    ∷ (20111005, 0x0363)
    ∷ (20120307, 0x0885)
    ∷ (20120418, 0x02C4)
    ∷ (20120702, 0x0362)
    ∷ (20130320, 0x089E)
    ∷ (20130515, 0x0438)
    ∷ []

unfoldable pub drop_item_id : ℕ → ℕ
unfolding below
drop_item_id packetver = below drop_item_cases (shuffled_cto_sid packetver 0x00A2) packetver

unfoldable pub encode_drop_item : DropItem → ℕ → Bytes
encode_drop_item req packetver =
    let p0 = write_at 0 (put_u16 (drop_item_id packetver)) (replicate 6 0) in
    write_at 4 (put_u16 req.amount) (write_at 2 (put_u16 req.index) p0)

pub record ActorAction : Type 0 where
  pub target_gid : ℕ
  pub action : ℕ

abbrev pub actor_action_cases : List (ℕ × ℕ)
actor_action_cases =
    (20040726, 0x0089)
    ∷ (20040906, 0x0193)
    ∷ (20041129, 0x0085)
    ∷ (20050110, 0x009F)
    ∷ (20080910, 0x0190)
    ∷ (20111102, 0x0437)
    ∷ (20120307, 0x08AA)
    ∷ (20120410, 0x0885)
    ∷ (20120702, 0x0369)
    ∷ (20130320, 0x085A)
    ∷ (20130515, 0x088E)
    ∷ []

unfoldable pub actor_action_id : ℕ → ℕ
unfolding below
actor_action_id packetver = below actor_action_cases (shuffled_cto_sid packetver 0x0089) packetver

unfoldable pub encode_actor_action : ActorAction → ℕ → Bytes
encode_actor_action req packetver =
    let p0 = write_at 0 (put_u16 (actor_action_id packetver)) (replicate 7 0) in
    write_at 6 (req.action ∷ []) (write_at 2 (put_u32 req.target_gid) p0)

pub record MoveToStorage : Type 0 where
  pub index : ℕ
  pub amount : ℕ

abbrev pub move_to_storage_cases : List (ℕ × ℕ)
move_to_storage_cases =
    (20101124, 0x00F3)
    ∷ (20111005, 0x0364)
    ∷ (20120307, 0x0893)
    ∷ (20120410, 0x093B)
    ∷ (20120418, 0x086C)
    ∷ (20120702, 0x07EC)
    ∷ (20130320, 0x08A0)
    ∷ (20130515, 0x08AC)
    ∷ []

unfoldable pub move_to_storage_id : ℕ → ℕ
unfolding below
move_to_storage_id packetver =
    below move_to_storage_cases (shuffled_cto_sid packetver 0x00F3) packetver

unfoldable pub encode_move_to_storage : MoveToStorage → ℕ → Bytes
encode_move_to_storage req packetver =
    let p0 = write_at 0 (put_u16 (move_to_storage_id packetver)) (replicate 8 0) in
    write_at 4 (put_u32 req.amount) (write_at 2 (put_u16 req.index) p0)

pub record PickupItem : Type 0 where
  pub itid : ℕ

abbrev pub pickup_item_cases : List (ℕ × ℕ)
pickup_item_cases =
    (20101124, 0x009F)
    ∷ (20111005, 0x0362)
    ∷ (20120307, 0x0815)
    ∷ (20120410, 0x0865)
    ∷ (20120418, 0x0938)
    ∷ (20120702, 0x07E4)
    ∷ (20130320, 0x089F)
    ∷ (20130515, 0x0933)
    ∷ []

unfoldable pub pickup_item_id : ℕ → ℕ
unfolding below
pickup_item_id packetver = below pickup_item_cases (shuffled_cto_sid packetver 0x009F) packetver

unfoldable pub encode_pickup_item : PickupItem → ℕ → Bytes
encode_pickup_item req packetver =
    let p0 = write_at 0 (put_u16 (pickup_item_id packetver)) (replicate 6 0) in
    write_at 2 (put_u32 req.itid) p0

pub record SkillUseLocation : Type 0 where
  pub skill_level : ℕ
  pub skill_id : ℕ
  pub x_pos : ℕ
  pub y_pos : ℕ

abbrev pub skill_use_location_cases : List (ℕ × ℕ)
skill_use_location_cases =
    (20101124, 0x0116)
    ∷ (20111005, 0x0366)
    ∷ (20120307, 0x0369)
    ∷ (20120702, 0x0438)
    ∷ (20130320, 0x0863)
    ∷ (20130515, 0x0959)
    ∷ []

unfoldable pub skill_use_location_id : ℕ → ℕ
unfolding below
skill_use_location_id packetver =
    below skill_use_location_cases (shuffled_cto_sid packetver 0x0116) packetver

unfoldable pub encode_skill_use_location : SkillUseLocation → ℕ → Bytes
encode_skill_use_location req packetver =
    let p0 = write_at 0 (put_u16 (skill_use_location_id packetver)) (replicate 10 0) in
    let p1 = write_at 2 (put_u16 req.skill_level) p0 in
    let p2 = write_at 4 (put_u16 req.skill_id) p1 in
    let p3 = write_at 6 (put_u16 req.x_pos) p2 in write_at 8 (put_u16 req.y_pos) p3

pub record MoveFromStorage : Type 0 where
  pub index : ℕ
  pub amount : ℕ

abbrev pub move_from_storage_cases : List (ℕ × ℕ)
move_from_storage_cases =
    (20101124, 0x00F5)
    ∷ (20111005, 0x0365)
    ∷ (20120307, 0x0897)
    ∷ (20120410, 0x0963)
    ∷ (20120418, 0x08A6)
    ∷ (20120702, 0x0364)
    ∷ (20130320, 0x0861)
    ∷ (20130515, 0x0874)
    ∷ []

unfoldable pub move_from_storage_id : ℕ → ℕ
unfolding below
move_from_storage_id packetver =
    below move_from_storage_cases (shuffled_cto_sid packetver 0x00F5) packetver

unfoldable pub encode_move_from_storage : MoveFromStorage → ℕ → Bytes
encode_move_from_storage req packetver =
    let p0 = write_at 0 (put_u16 (move_from_storage_id packetver)) (replicate 8 0) in
    write_at 4 (put_u32 req.amount) (write_at 2 (put_u16 req.index) p0)

pub record FriendsAdd : Type 0 where
  pub name : Bytes

abbrev pub friends_add_cases : List (ℕ × ℕ)
friends_add_cases = (20130515, 0x0202) ∷ []

unfoldable pub friends_add_id : ℕ → ℕ
unfolding below
friends_add_id packetver = below friends_add_cases (shuffled_cto_sid packetver 0x0202) packetver

unfoldable pub encode_friends_add : FriendsAdd → ℕ → Bytes
encode_friends_add req packetver =
    let p0 = write_at 0 (put_u16 (friends_add_id packetver)) (replicate 26 0) in
    write_at 2 (take 24 req.name) p0

pub record MoveTo : Type 0 where
  pub x : ℕ
  pub y : ℕ

abbrev pub move_to_cases : List (ℕ × ℕ)
move_to_cases =
    (20040726, 0x0085)
    ∷ (20040906, 0x009B)
    ∷ (20041129, 0x0089)
    ∷ (20101124, 0x00A7)
    ∷ (20111005, 0x035F)
    ∷ (20120307, 0x0364)
    ∷ (20120702, 0x0437)
    ∷ (20130320, 0x0953)
    ∷ (20130515, 0x0881)
    ∷ []

unfoldable pub move_to_id : ℕ → ℕ
unfolding below
move_to_id packetver = below move_to_cases (shuffled_cto_sid packetver 0x0085) packetver

unfoldable pub encode_move_to : MoveTo → ℕ → Bytes
encode_move_to req packetver =
    let p0 = write_at 0 (put_u16 (move_to_id packetver)) (replicate 5 0) in
    write_at 2 (encode_pos_dir req.x req.y 0) p0
