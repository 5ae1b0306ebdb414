-- ===== src/Session/Fsm/Packets/Agreement.antt =====
-- The packets of the connection sequence beside those of pkg/encode.
use rathena_client.Shared.{
  write_at, ℕ, ◌≤◌, ◌≡◌, refl, ap, sym, ◌∙◌, arith, true, some, [], ◌∷◌, ◌++◌, length, leb, Bytes,
  Bool-cases, inl, inr, length-append, put_u32,
}
use rathena_client.Session.Fsm.Packets.{
  fsm_encode_master_login, fsm_encode_game_login, fsm_encode_map_login,
  fsm_encode_request_character_page, fsm_encode_time_sync_response, encode_master_login,
  encode_game_login, encode_map_login, encode_request_character_page, encode_time_sync_response,
  wide_enter, encode_wide_enter,
}
use rathena_client.Session.Fsm.Packets.Fields.{
  padded, write_at_end, length-padded, fsm_encode_master_login-fields,
}

master_login_rewrites :
    (packetver : ℕ) (username password : Bytes)
    → encode_master_login
        (record { version = packetver; username = username; password = password; clienttype = 0 })
        packetver
      ≡ write_at 54 (0 ∷ []) (fsm_encode_master_login packetver username password)
unfolding fsm_encode_master_login encode_master_login
master_login_rewrites packetver username password = refl

master_login_agrees :
    (packetver : ℕ) (username password : Bytes)
    → fsm_encode_master_login packetver username password
      ≡ encode_master_login
          (record { version = packetver; username = username; password = password; clienttype = 0 })
          packetver
master_login_agrees packetver username password =
    let name = (0x64 ∷ 0x00 ∷ put_u32 packetver) ++ padded 24 username in
    let fields = (fsm_encode_master_login-fields packetver username password).0 in
    let size : length (name ++ padded 24 password) ≡ 54 = omega (
      arith,
      length-append name (padded 24 password),
      length-padded 24 password,
      length-append (0x64 ∷ 0x00 ∷ put_u32 packetver) (padded 24 username),
      length-padded 24 username,
    ) in
    fields
    ∙ sym (write_at_end 54 1 (0 ∷ []) (name ++ padded 24 password) size)
    ∙ ap (write_at 54 (0 ∷ [])) (sym fields)
    ∙ sym (master_login_rewrites packetver username password)

game_login_agrees :
    (packetver aid auth_code login_id2 sex : ℕ)
    → 20030000 ≤ packetver
    → some (fsm_encode_game_login aid auth_code login_id2 sex)
      ≡ encode_game_login
          (record {
            aid = aid;
            auth_code = auth_code;
            login_id2 = login_id2;
            clienttype = 0;
            sex = sex;
          })
          packetver
unfolding fsm_encode_game_login encode_game_login
game_login_agrees packetver aid auth_code login_id2 sex h =
    let known : leb 20030000 packetver ≡ true = ground arith in rw known refl

map_login_agrees :
    (packetver aid gid auth_code sex : ℕ)
    → fsm_encode_map_login aid gid auth_code sex packetver
      ≡ encode_map_login
          (record { aid = aid; gid = gid; auth_code = auth_code; client_time = 0; sex = sex })
          packetver
unfolding fsm_encode_map_login encode_map_login wide_enter encode_wide_enter
map_login_agrees packetver aid gid auth_code sex = elim (Bool-cases (wide_enter packetver)) [
  | inl wide ↦ rw wide refl
  | inr narrow ↦ rw narrow refl
]

time_sync_response_agrees :
    (packetver : ℕ)
    → 20030000 ≤ packetver
    → some (fsm_encode_time_sync_response packetver) ≡ encode_time_sync_response 0 packetver
unfolding fsm_encode_time_sync_response encode_time_sync_response
time_sync_response_agrees packetver h =
    let known : leb 20030000 packetver ≡ true = ground arith in
    elim (Bool-cases (leb 20101124 packetver)) [
      | inl new ↦ rw new refl
      | inr old ↦ rw (old, known) refl
    ]

page_agrees :
    (packetver : ℕ) → fsm_encode_request_character_page ≡ encode_request_character_page packetver
unfolding fsm_encode_request_character_page encode_request_character_page
page_agrees packetver = refl

-- For every packet version from 20030000 on, the first that the generated encoders know, and all
-- arguments, the five packets that the connection sequence encodes itself are those of pkg/encode
-- for the same fields, where the fields that the sequence leaves out (client type, client time) are
-- zero.
pub fsm_encoders_agree :
    (packetver : ℕ) (username password : Bytes) (aid gid auth_code login_id2 sex : ℕ)
    → 20030000 ≤ packetver
    → (fsm_encode_master_login packetver username password
        ≡ encode_master_login
            (record {
              version = packetver;
              username = username;
              password = password;
              clienttype = 0;
            })
            packetver)
      × (some (fsm_encode_game_login aid auth_code login_id2 sex)
          ≡ encode_game_login
              (record {
                aid = aid;
                auth_code = auth_code;
                login_id2 = login_id2;
                clienttype = 0;
                sex = sex;
              })
              packetver)
      × (fsm_encode_request_character_page ≡ encode_request_character_page packetver)
      × (fsm_encode_map_login aid gid auth_code sex packetver
          ≡ encode_map_login
              (record { aid = aid; gid = gid; auth_code = auth_code; client_time = 0; sex = sex })
              packetver)
      × (some (fsm_encode_time_sync_response packetver) ≡ encode_time_sync_response 0 packetver)
fsm_encoders_agree packetver username password aid gid auth_code login_id2 sex known = (
  master_login_agrees packetver username password,
  game_login_agrees packetver aid auth_code login_id2 sex known,
  page_agrees packetver,
  map_login_agrees packetver aid gid auth_code sex,
  time_sync_response_agrees packetver known,
)
