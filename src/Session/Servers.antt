-- ===== src/Session/Servers.antt =====
-- pkg/session/login.go, char.go and map.go: the three sessions around the framing engine, and the
-- packet id obfuscation of the map session (map.go and obfuscation.go).
pub mod Obfuscation
pub mod Ready
mod Keys20110817
mod Keys20150429
mod Keys20161221
pub mod Keys
mod Tests
use rathena_client.Shared.{
  ℕ, ◌+◌, ◌*◌, ◌≡◌, Bool, true, false, Option, none, some, [], ◌==◌, if◌then◌else◌, Bytes, ℤ, u16,
  u32, u64, ◌>>◌, bit_and, bit_xor, not,
}
use rathena_client.Session.Ring.{empty_ring}
use rathena_client.Session.Core.{
  SessionCore, HandlerFunc, UnknownPacketEvent, TraceEvent, FeedError, feed,
}
use rathena_client.Session.Lengths.{
  Table, assign, no_lengths, populate_login_lengths, populate_char_lengths, populate_map_lengths,
}
use rathena_client.Session.Lengths.Overrides.{apply_map_length_overrides}

pub record ObfuscationState : Type 0 where
  pub enabled : Bool
  pub first_sent : Bool
  pub first_key : ℕ
  pub rolling_key : ℕ
  pub key0 : ℕ
  pub key1 : ℕ
  pub key2 : ℕ

abbrev pub no_obfuscation : ObfuscationState
no_obfuscation = record {
  enabled = false;
  first_sent = false;
  first_key = 0;
  rolling_key = 0;
  key0 = 0;
  key1 = 0;
  key2 = 0;
}

-- `LoginSession` and `CharSession` hold a core and nothing else.
abbrev pub LoginSession : Type 0 → Type 0 → Type 0
LoginSession = SessionCore

abbrev pub CharSession : Type 0 → Type 0 → Type 0
CharSession = SessionCore

pub record MapSession (E V : Type 0) : Type 0 where
  pub core : SessionCore E V
  pub o_state : ObfuscationState

-- A core with a buffer of `size` bytes, all else its zero value.
abbrev pub new_core : {E V : Type 0} → ℕ → ℕ → Table → SessionCore E V
new_core packetver size lengths = record {
  packetver = packetver;
  buf_size = size;
  recv_buf = [];
  lengths = lengths;
  handlers = λ id. none;
  on_unknown_packet = none;
  recent = empty_ring;
  faulted = false;
  trace = none;
  unhandled_packets = 0;
}

abbrev pub login_recv_buf_initial : ℕ
login_recv_buf_initial = 4096

abbrev pub char_recv_buf_initial : ℕ
char_recv_buf_initial = 4096

abbrev pub map_recv_buf_initial : ℕ
map_recv_buf_initial = 65536

module _ {E V : Type 0} where
  unfoldable pub new_login_session : ℕ → LoginSession E V
  new_login_session pv = new_core pv login_recv_buf_initial (populate_login_lengths pv no_lengths)

  unfoldable pub new_char_session : ℕ → CharSession E V
  new_char_session pv = new_core pv char_recv_buf_initial (populate_char_lengths pv no_lengths)

  unfoldable pub new_map_session : ℕ → MapSession E V
  new_map_session pv = record {
    core =
        new_core pv map_recv_buf_initial
          (apply_map_length_overrides pv (populate_map_lengths pv no_lengths));
    o_state = no_obfuscation;
  }

  unfoldable pub register_handler : SessionCore E V → ℕ → HandlerFunc E → SessionCore E V
  register_handler c id fn = record c { handlers = λ i. if i == id then some fn else c.handlers i }

  unfoldable pub set_unknown_packet_handler :
      SessionCore E V → Option (UnknownPacketEvent → E → E) → SessionCore E V
  set_unknown_packet_handler c fn = record c { on_unknown_packet = fn }

  unfoldable pub set_trace_func : SessionCore E V → Option (TraceEvent V → E → E) → SessionCore E V
  set_trace_func c fn = record c { trace = fn }

  unfoldable pub set_length : SessionCore E V → ℕ → ℤ → SessionCore E V
  set_length c id n = record c { lengths = assign c.lengths id n }

  unfoldable pub is_faulted : SessionCore E V → Bool
  is_faulted c = c.faulted

  unfoldable pub unhandled_count : SessionCore E V → ℕ
  unhandled_count c = c.unhandled_packets

-- `enableObfuscation`: the keys, and the first and rolling key derived from them.
unfoldable pub enable_obfuscation : ObfuscationState → ℕ → ℕ → ℕ → ObfuscationState
enable_obfuscation s key0 key1 key2 =
    let step1 = bit_and (u64 (u64 (key0 * key1) + key2)) 0xFFFFFFFF in
    record {
      enabled = true;
      first_sent = false;
      first_key = u16 (bit_and (step1 >> 16) 0x7FFF);
      rolling_key = u32 (bit_and (u64 (u64 (step1 * key1) + key2)) 0xFFFFFFFF);
      key0 = key0;
      key1 = key1;
      key2 = key2;
    }

-- `encodePacketID`: the new state and the id on the wire.
unfoldable pub encode_packet_id : ObfuscationState → ℕ → ObfuscationState × ℕ
encode_packet_id s id =
    if not s.enabled
    then (s, id)
    else if not s.first_sent
    then (record s { first_sent = true }, bit_xor id s.first_key)
    else (
      record s {
        rolling_key = u32 (bit_and (u64 (u64 (s.rolling_key * s.key1) + s.key2)) 0xFFFFFFFF);
      },
      bit_xor id (u16 (bit_and (s.rolling_key >> 16) 0x7FFF)),
    )
