-- ===== src/Session/Fsm/LoginAccept/Layout.antt =====
-- The layout of the accept packet as the login server writes it, independently of the parser.
use rathena_client.Shared.{
  ℕ, ◌^◌, ◌<◌, ◌≡◌, List, ◌∷◌, ◌++◌, map, length, concat, All, Bytes, put_u16, put_u32, put_u32_be,
  until_null, if◌then◌else◌, leb,
}
use rathena_client.Session.Fsm.LoginAccept.{CharServerInfo}

-- One entry: the fixed name field, and the bytes that the client does not read, 132 from packet
-- version 20170315 on, else 4.
pub record Entry : Type 0 where
  pub ip : ℕ
  pub port : ℕ
  pub name_field : Bytes
  pub users : ℕ
  pub unread : Bytes

pub record IsEntry (packetver : ℕ) (e : Entry) : Type 0 where
  pub ip : e.ip < 2 ^ 32
  pub port : e.port < 2 ^ 16
  pub name_field : length e.name_field ≡ 20
  pub users : e.users < 2 ^ 16
  pub unread : length e.unread ≡ (if leb 20170315 packetver then 132 else 4)

abbrev pub entry_bytes : Entry → Bytes
entry_bytes e =
    put_u32_be e.ip ++ (put_u16 e.port ++ (e.name_field ++ (put_u16 e.users ++ e.unread)))

-- What the client is to make of an entry.
abbrev pub entry_info : Entry → CharServerInfo
entry_info e = record { ip = e.ip; port = e.port; name = until_null e.name_field; users = e.users }

pub record Packet : Type 0 where
  pub packet_header : Bytes
  pub login_id1 : ℕ
  pub aid : ℕ
  pub login_id2 : ℕ
  pub last : Bytes
  pub sex : ℕ
  pub token : Bytes
  pub char_servers : List Entry

pub record IsPacket (packetver : ℕ) (p : Packet) : Type 0 where
  pub packet_header : length p.packet_header ≡ 4
  pub login_id1 : p.login_id1 < 2 ^ 32
  pub aid : p.aid < 2 ^ 32
  pub login_id2 : p.login_id2 < 2 ^ 32
  pub last : length p.last ≡ 30
  pub token : length p.token ≡ (if leb 20170315 packetver then 17 else 0)
  pub char_servers : All (IsEntry packetver) p.char_servers

abbrev pub packet_bytes : Packet → Bytes
packet_bytes p =
    p.packet_header
    ++ (put_u32 p.login_id1
        ++ (put_u32 p.aid
            ++ (put_u32 p.login_id2
                ++ (p.last ++ (p.sex ∷ (p.token ++ concat (map entry_bytes p.char_servers)))))))
