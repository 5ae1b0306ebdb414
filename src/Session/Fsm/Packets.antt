-- ===== src/Session/Fsm/Packets.antt =====
-- pkg/session/fsm.go: the packets that the connection sequence writes itself, and the functions of
-- pkg/encode that they are copies of. A string is the list of its bytes, and the `int32` field
-- `AuthCode` of a request stands as its 32-bit pattern, which `uint32(...)` keeps.
pub mod Agreement
pub mod Fields
use rathena_client.Shared.{
  write_at, ℕ, ◌+◌, Bool, ◌&&◌, ◌||◌, Option, none, some, List, [], ◌∷◌, ◌++◌, length, take, drop,
  replicate, leb, ltb, if◌then◌else◌, Bytes, put_u16, put_u32,
}

unfoldable pub fsm_encode_master_login : ℕ → Bytes → Bytes → Bytes
fsm_encode_master_login packetver username password =
    let p0 = write_at 0 (0x64 ∷ 0x00 ∷ []) (replicate 55 0) in
    let p1 = write_at 2 (put_u32 packetver) p0 in
    let p2 = write_at 6 (take 24 username) p1 in write_at 30 (take 24 password) p2

unfoldable pub fsm_encode_game_login : ℕ → ℕ → ℕ → ℕ → Bytes
fsm_encode_game_login aid auth_code login_id2 sex =
    let p0 = write_at 0 (0x65 ∷ 0x00 ∷ []) (replicate 17 0) in
    let p1 = write_at 2 (put_u32 aid) p0 in
    let p2 = write_at 6 (put_u32 auth_code) p1 in
    let p3 = write_at 10 (put_u32 login_id2) p2 in write_at 16 (sex ∷ []) p3

unfoldable pub fsm_encode_char_login : ℕ → Bytes
fsm_encode_char_login slot = write_at 2 (slot ∷ []) (write_at 0 (0x66 ∷ 0x00 ∷ []) (replicate 3 0))

unfoldable pub fsm_encode_request_character_page : Bytes
fsm_encode_request_character_page = write_at 0 (0xa1 ∷ 0x09 ∷ []) (replicate 2 0)

unfoldable pub zc_accept_enter_id : ℕ → ℕ
zc_accept_enter_id packetver =
    if leb 20141022 packetver && ltb packetver 20160330
    then 0x0A18
    else if leb 20080102 packetver
    then 0x02EB
    else 0x0073

-- The condition of the 23-byte variant of the packet.
unfoldable pub wide_enter : ℕ → Bool
wide_enter packetver = (leb 20211103 packetver && leb packetver 20211118) || leb 20220330 packetver

unfoldable pub fsm_encode_map_login : ℕ → ℕ → ℕ → ℕ → ℕ → Bytes
unfolding wide_enter
fsm_encode_map_login aid gid auth_code sex packetver =
    if wide_enter packetver
    then (let p0 = write_at 0 (0x36 ∷ 0x04 ∷ []) (replicate 23 0) in
        let p1 = write_at 2 (put_u32 aid) p0 in
        let p2 = write_at 6 (put_u32 gid) p1 in
        let p3 = write_at 10 (put_u32 auth_code) p2 in write_at 22 (sex ∷ []) p3)
    else (let p0 = write_at 0 (0x36 ∷ 0x04 ∷ []) (replicate 19 0) in
        let p1 = write_at 2 (put_u32 aid) p0 in
        let p2 = write_at 6 (put_u32 gid) p1 in
        let p3 = write_at 10 (put_u32 auth_code) p2 in write_at 18 (sex ∷ []) p3)

unfoldable pub fsm_encode_map_loaded : Bytes
fsm_encode_map_loaded = write_at 0 (0x7d ∷ 0x00 ∷ []) (replicate 2 0)

unfoldable pub fsm_encode_time_sync_response : ℕ → Bytes
fsm_encode_time_sync_response packetver =
    if leb 20101124 packetver
    then write_at 0 (0x60 ∷ 0x03 ∷ []) (replicate 6 0)
    else write_at 0 (0x7e ∷ 0x00 ∷ []) (replicate 6 0)

pub record MasterLogin : Type 0 where
  pub version : ℕ
  pub username : Bytes
  pub password : Bytes
  pub clienttype : ℕ

unfoldable pub encode_master_login : MasterLogin → ℕ → Bytes
encode_master_login req packetver =
    let p0 = write_at 0 (0x64 ∷ 0x00 ∷ []) (replicate 55 0) in
    let p1 = write_at 2 (put_u32 req.version) p0 in
    let p2 = write_at 6 (take 24 req.username) p1 in
    let p3 = write_at 30 (take 24 req.password) p2 in write_at 54 (req.clienttype ∷ []) p3

pub record GameLogin : Type 0 where
  pub aid : ℕ
  pub auth_code : ℕ
  pub login_id2 : ℕ
  pub clienttype : ℕ
  pub sex : ℕ

-- `none` is the panic for a packet version that the encoder does not know.
unfoldable pub encode_game_login : GameLogin → ℕ → Option Bytes
encode_game_login req packetver =
    if leb 20030000 packetver
    then (let p0 = write_at 0 (0x65 ∷ 0x00 ∷ []) (replicate 17 0) in
        let p1 = write_at 2 (put_u32 req.aid) p0 in
        let p2 = write_at 6 (put_u32 req.auth_code) p1 in
        let p3 = write_at 10 (put_u32 req.login_id2) p2 in
        let p4 = write_at 14 (put_u16 req.clienttype) p3 in some (write_at 16 (req.sex ∷ []) p4))
    else none

pub record MapLogin : Type 0 where
  pub aid : ℕ
  pub gid : ℕ
  pub auth_code : ℕ
  pub client_time : ℕ
  pub sex : ℕ

-- The same condition in `EncodeMapLogin`.
unfoldable pub encode_wide_enter : ℕ → Bool
encode_wide_enter packetver =
    (leb 20211103 packetver && leb packetver 20211118) || leb 20220330 packetver

unfoldable pub encode_map_login : MapLogin → ℕ → Bytes
unfolding encode_wide_enter
encode_map_login req packetver =
    if encode_wide_enter packetver
    then (let p0 = write_at 0 (0x36 ∷ 0x04 ∷ []) (replicate 23 0) in
        let p1 = write_at 2 (put_u32 req.aid) p0 in
        let p2 = write_at 6 (put_u32 req.gid) p1 in
        let p3 = write_at 10 (put_u32 req.auth_code) p2 in
        let p4 = write_at 14 (put_u32 req.client_time) p3 in write_at 22 (req.sex ∷ []) p4)
    else (let p0 = write_at 0 (0x36 ∷ 0x04 ∷ []) (replicate 19 0) in
        let p1 = write_at 2 (put_u32 req.aid) p0 in
        let p2 = write_at 6 (put_u32 req.gid) p1 in
        let p3 = write_at 10 (put_u32 req.auth_code) p2 in
        let p4 = write_at 14 (put_u32 req.client_time) p3 in write_at 18 (req.sex ∷ []) p4)

unfoldable pub encode_request_character_page : ℕ → Bytes
encode_request_character_page packetver = write_at 0 (0xa1 ∷ 0x09 ∷ []) (replicate 2 0)

unfoldable pub encode_time_sync_response : ℕ → ℕ → Option Bytes
encode_time_sync_response client_time packetver =
    if leb 20101124 packetver
    then some (write_at 2 (put_u32 client_time) (write_at 0 (0x60 ∷ 0x03 ∷ []) (replicate 6 0)))
    else if leb 20030000 packetver
    then some (write_at 2 (put_u32 client_time) (write_at 0 (0x7e ∷ 0x00 ∷ []) (replicate 6 0)))
    else none
