-- ===== src/Session/Fsm/LoginAccept.antt =====
-- pkg/session/fsm_parse.go: the packet by which the login server accepts a client. A read or a slice
-- out of range is a panic of the Go program, `none`.
pub mod Layout
pub mod Parse
pub mod Accept
pub mod Bounds
use rathena_client.Shared.{
  ℕ, zero, suc, ◌-◌, Bool, Option, none, some, List, [], ◌∷◌, length, get_elem?, ltb, leb,
  if◌then◌else◌, ◌>>=◌, Bytes, slice?, suffix?, le_u16?, le_u32?, be_u32?, until_null,
}

pub record CharServerInfo : Type 0 where
  pub ip : ℕ
  pub port : ℕ
  pub name : Bytes
  pub users : ℕ

-- What `parseLoginAccept` returns besides the error.
pub record LoginAccept : Type 0 where
  pub servers : List CharServerInfo
  pub account_id : ℕ
  pub session_id1 : ℕ
  pub session_id2 : ℕ
  pub sex : ℕ

pub data ParseResult : Type 0 where
  too_short : (len : ℕ) → (header : ℕ) → ParseResult
  accepted : LoginAccept → ParseResult

unfoldable pub fsm_c_str : Bytes → Bytes
fsm_c_str bs = until_null bs

unfoldable pub header_size : ℕ → ℕ
header_size packetver = if leb 20170315 packetver then 64 else 47

unfoldable pub sub_size : ℕ → ℕ
sub_size packetver = if leb 20170315 packetver then 160 else 32

-- The body of the loop: one entry, at the front of the payload.
unfoldable pub parse_server : Bytes → Option CharServerInfo
unfolding fsm_c_str
parse_server payload = do
  ip ← be_u32? payload 0
  port ← le_u16? payload 4
  name ← slice? payload 6 26
  users ← le_u16? payload 26
  some (record { ip = ip; port = port; name = fsm_c_str name; users = users })

-- The loop, on fuel; `none` also where the fuel is not enough.
unfoldable pub parse_servers : ℕ → ℕ → Bytes → Option (List CharServerInfo)
parse_servers zero sub payload = none
parse_servers (suc fuel) sub payload = if ltb (length payload) sub then some [] else do
  server ← parse_server payload
  payload' ← suffix? payload sub
  servers ← parse_servers fuel sub payload'
  some (server ∷ servers)

-- Each round takes an entry off the payload, so its length is fuel enough.
unfoldable pub parse_login_accept : Bytes → ℕ → Option ParseResult
unfolding header_size sub_size parse_servers
parse_login_accept data_ packetver =
    if ltb (length data_) (header_size packetver)
    then some (too_short (length data_) (header_size packetver))
    else do
      session_id1 ← le_u32? data_ 4
      account_id ← le_u32? data_ 8
      session_id2 ← le_u32? data_ 12
      sex ← get_elem? data_ 46
      payload ← suffix? data_ (header_size packetver)
      servers ← parse_servers (suc (length payload)) (sub_size packetver) payload
      some (
          accepted (record {
            servers = servers;
            account_id = account_id;
            session_id1 = session_id1;
            session_id2 = session_id2;
            sex = sex;
          }))
