-- ===== src/Session/Fsm/Tests.antt =====
-- Runs of the connection sequence, and its theorems at concrete inputs.
use rathena_client.Shared.{
  ◌-◌, ◌<◌, ◌≤◌, ◌≡◌, ◌⊎◌, refl, arith, some, [], ◌∷◌, ◌++◌, map, length, replicate, Bytes, put_u32,
  le_u32?, get_elem?, ◌/◌,
}
use rathena_client.Session.Fsm.LoginAccept.{
  LoginAccept, too_short, accepted, parse_login_accept, header_size, sub_size,
}
use rathena_client.Session.Fsm.LoginAccept.Layout.{
  Entry, IsEntry, entry_info, Packet, IsPacket, packet_bytes,
}
use rathena_client.Session.Fsm.LoginAccept.Accept.{entry_size, parse_login_accept-packet_bytes}
use rathena_client.Session.Fsm.LoginAccept.Bounds.{parse_login_accept_total}
use rathena_client.Session.Fsm.Packets.{
  fsm_encode_master_login, fsm_encode_game_login, fsm_encode_map_login,
  fsm_encode_request_character_page, fsm_encode_time_sync_response, encode_master_login,
  encode_game_login, encode_map_login, encode_request_character_page, encode_time_sync_response,
}
use rathena_client.Session.Fsm.Packets.Fields.{
  padded, fsm_encode_master_login-fields, fsm_encode_map_login-fields,
}
use rathena_client.Session.Fsm.Packets.Agreement.{fsm_encoders_agree}

abbrev prontera : Entry
prontera = record {
  ip = 0x7F000001;
  port = 6121;
  name_field = 80 ∷ 114 ∷ 111 ∷ replicate 17 0;
  users = 12;
  unread = replicate 4 0;
}

abbrev welcome : Packet
welcome = record {
  packet_header = 0x69 ∷ 0 ∷ 79 ∷ 0 ∷ [];
  login_id1 = 77;
  aid = 2000000;
  login_id2 = 88;
  last = replicate 30 0;
  sex = 1;
  token = [];
  char_servers = prontera ∷ [];
}

prontera-IsEntry : IsEntry 20120000 prontera
prontera-IsEntry = record {
  ip = omega arith;
  port = omega arith;
  name_field = refl;
  users = omega arith;
  unread = refl;
}

welcome-IsPacket : IsPacket 20120000 welcome
welcome-IsPacket = record {
  packet_header = refl;
  login_id1 = omega arith;
  aid = omega arith;
  login_id2 = omega arith;
  last = refl;
  token = refl;
  char_servers = (prontera-IsEntry, tt);
}

abbrev one_byte : Bytes
one_byte = 9 ∷ []

rest-lt : length one_byte < entry_size 20120000
rest-lt = omega arith

parse_login_accept-packet_bytes_example :
    parse_login_accept (packet_bytes welcome ++ one_byte) 20120000
    ≡ some (
        accepted (record {
          servers = map entry_info welcome.char_servers;
          account_id = 2000000;
          session_id1 = 77;
          session_id2 = 88;
          sex = 1;
        }))
parse_login_accept-packet_bytes_example =
    parse_login_accept-packet_bytes 20120000 welcome one_byte welcome-IsPacket rest-lt

abbrev two_servers : Bytes
two_servers = replicate 120 7

parse_login_accept_total_example :
    (length two_servers < header_size 20120000)
      × (parse_login_accept two_servers 20120000
          ≡ some (too_short (length two_servers) (header_size 20120000)))
    ⊎ (header_size 20120000 ≤ length two_servers)
      × (a : LoginAccept) × (parse_login_accept two_servers 20120000 ≡ some (accepted a))
      × (length a.servers ≡ (length two_servers - header_size 20120000) / sub_size 20120000)
parse_login_accept_total_example = parse_login_accept_total 20120000 two_servers

fsm_encode_master_login-fields_example :
    (fsm_encode_master_login 20200401 (97 ∷ []) (98 ∷ 99 ∷ [])
      ≡ ((0x64 ∷ 0x00 ∷ put_u32 20200401) ++ padded 24 (97 ∷ []))
        ++ padded 24 (98 ∷ 99 ∷ [])
        ++ 0 ∷ [])
    × (length (fsm_encode_master_login 20200401 (97 ∷ []) (98 ∷ 99 ∷ [])) ≡ 55)
fsm_encode_master_login-fields_example =
    fsm_encode_master_login-fields 20200401 (97 ∷ []) (98 ∷ 99 ∷ [])

fsm_encode_map_login-fields_example :
    let p = fsm_encode_map_login 2000000 150000 77 1 20220330 in
    (le_u32? p 2 ≡ some 2000000)
    × (le_u32? p 6 ≡ some 150000)
    × (le_u32? p 10 ≡ some 77)
    × (get_elem? p (length p - 1) ≡ some 1)
    × (((((20211103 ≤ 20220330) × (20220330 ≤ 20211118)) ⊎ (20220330 ≤ 20220330)) × (length p ≡ 23))
        ⊎ (((20220330 < 20211103) ⊎ (20211118 < 20220330) × (20220330 < 20220330))
            × (length p ≡ 19)))
fsm_encode_map_login-fields_example =
    fsm_encode_map_login-fields 2000000 150000 77 1 20220330 (omega arith) (omega arith)
      (omega arith)

fsm_encoders_agree_example :
    (fsm_encode_master_login 20200401 (97 ∷ []) (98 ∷ [])
      ≡ encode_master_login
          (record { version = 20200401; username = 97 ∷ []; password = 98 ∷ []; clienttype = 0 })
          20200401)
    × (some (fsm_encode_game_login 5 7 8 1)
        ≡ encode_game_login
            (record { aid = 5; auth_code = 7; login_id2 = 8; clienttype = 0; sex = 1 })
            20200401)
    × (fsm_encode_request_character_page ≡ encode_request_character_page 20200401)
    × (fsm_encode_map_login 5 6 7 1 20200401
        ≡ encode_map_login
            (record { aid = 5; gid = 6; auth_code = 7; client_time = 0; sex = 1 })
            20200401)
    × (some (fsm_encode_time_sync_response 20200401) ≡ encode_time_sync_response 0 20200401)
fsm_encoders_agree_example = fsm_encoders_agree 20200401 (97 ∷ []) (98 ∷ []) 5 6 7 8 1 (omega arith)
