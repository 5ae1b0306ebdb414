-- ===== src/Session/Fsm/Map.antt =====
-- pkg/session/fsm.go: the map phase, its state and its handlers. Run is runMapPhase around them. `W` is all
-- that the caller's callbacks, the dialer and the wait reach.
pub mod Run
pub mod Kept
pub mod Contract
pub mod Obfuscated
mod Tests
use rathena_client.Shared.{
  ℕ, Bool, true, false, not, ◌&&◌, Option, none, some, List, [], ◌∷◌, length, get_or, take, drop,
  leb, ltb, ◌==◌, if◌then◌else◌, Bytes, le_u16, le_u32, put_u16, write_at, ◌⊎◌, inl, inr, bit_or,
}
use rathena_client.Packing.{PosDir, decode_pos_dir}
use rathena_client.Session.Core.{SessionCore, HandlerFunc}
use rathena_client.Session.Servers.{
  MapSession, ObfuscationState, new_map_session, register_handler, enable_obfuscation,
  encode_packet_id,
}
use rathena_client.Session.Servers.Keys.{obfuscation_keys_for}
use rathena_client.Session.Fsm.Packets.{
  fsm_encode_map_login, fsm_encode_map_loaded, fsm_encode_time_sync_response, zc_accept_enter_id,
}
use rathena_client.Session.Fsm.Wire.{
  Read, Conn, Dialed, Wired, StepError, write_deadline, close, Fed, feed_until,
}
use rathena_client.Session.Fsm.Login.{AuthState, NotifyInfo, phase_map, notify}

pub record ReadyInfo : Type 0 where
  pub x : ℕ
  pub y : ℕ
  pub dir : ℕ
  pub start_time : ℕ
  pub font : ℕ
  pub sex : ℕ

pub data MapError (Err : Type 0) : Type 0 where
  dial_map : Err → MapError Err
  send_map_enter : Err → MapError Err
  map_refused : (code : ℕ) → MapError Err
  map_ban : (code : ℕ) → MapError Err
  delay_cancelled : Err → MapError Err
  send_map_loaded : Err → MapError Err
  send_tick_sync : Err → MapError Err
  map_feed : StepError Err → MapError Err
  position_panic : MapError Err

-- The result that the handlers fill (its position and the fields below it are a `ReadyInfo`), the
-- obfuscation of the session, which its handler advances, and the caller's world.
pub record MapState (Err W : Type 0) : Type 0 where
  pub done : Bool
  pub err : Option (MapError Err)
  pub info : ReadyInfo
  pub o_state : ObfuscationState
  pub world : W

abbrev pub MapEnv : Type 0 → Type 0 → Type 0
MapEnv Err W = Wired Err (MapState Err W)

-- `wait` is the select of the load delay: the context's error, where that is done first.
pub record MapConfig (Err W V : Type 0) : Type 0 where
  pub packetver : ℕ
  pub map_load_delay : ℕ
  pub wait : W → Option Err × W
  pub dialer : List ℕ → W → (Err ⊎ Dialed Err) × W
  pub on_server_notify : Option (NotifyInfo → W → W)
  pub on_map_session_created :
      Option (MapSession (MapEnv Err W) V → W → MapSession (MapEnv Err W) V × W)
  pub on_ready : Option (MapSession (MapEnv Err W) V → Conn Err → ReadyInfo → W → W)

-- The new state and the packet with the id on the wire.
unfoldable pub fsm_encode_packet_id : ObfuscationState → Bytes → ObfuscationState × Bytes
unfolding encode_packet_id
fsm_encode_packet_id o pkt =
    let (o', id) = encode_packet_id o (le_u16 pkt 0) in (o', write_at 0 (put_u16 id) pkt)

abbrev pub no_position : PosDir
no_position = record { x = 0; y = 0; dir = 0 }

module _ {Err W : Type 0} where
  unfoldable pub fail_map : MapError Err → MapState Err W → MapState Err W
  fail_map err s = record s { err = some err; done = true }

  unfoldable pub on_map_refused : HandlerFunc (MapEnv Err W)
  unfolding fail_map
  on_map_refused data_ pv e =
      let code = if leb 3 (length data_) then get_or data_ 2 0 else 0 in
      record e { state = fail_map (map_refused code) e.state }

  unfoldable pub on_map_ban : Option (NotifyInfo → W → W) → HandlerFunc (MapEnv Err W)
  unfolding fail_map
  on_map_ban on_server_notify data_ pv e =
      let code = if leb 3 (length data_) then get_or data_ 2 0 else 0 in
      let w = notify on_server_notify (record { phase = phase_map; code = code }) e.state.world in
      record e { state = fail_map (map_ban code) (record (e.state) { world = w }) }

  -- The fields of the packet that it is long enough for. `pos` is its decoded position.
  unfoldable pub read_enter : Bytes → Option PosDir → MapState Err W → MapState Err W
  unfolding fail_map
  read_enter data_ none s = fail_map position_panic s
  read_enter data_ (some pos) s =
      let n = length data_ in
      let old = s.info in
      record s {
        done = true;
        info = record {
          start_time = if leb 6 n then le_u32 data_ 2 else old.start_time;
          x = if leb 9 n then pos.x else old.x;
          y = if leb 9 n then pos.y else old.y;
          dir = if leb 9 n then pos.dir else old.dir;
          font = if leb 13 n then le_u16 data_ 11 else old.font;
          sex = if leb 14 n then get_or data_ 13 0 else old.sex;
        };
      }

  unfoldable pub take_enter : Bytes → MapState Err W → MapState Err W
  unfolding read_enter decode_pos_dir
  take_enter data_ s =
      read_enter data_
        (if leb 9 (length data_) then decode_pos_dir (take 3 (drop 6 data_)) else some no_position)
        s

  -- One packet with its id encoded: the write's error, and the environment after it.
  unfoldable pub send_encoded : Bytes → MapEnv Err W → Option Err × MapEnv Err W
  unfolding fsm_encode_packet_id write_deadline
  send_encoded pkt e =
      let (o, wire) = fsm_encode_packet_id e.state.o_state pkt in
      let (failed, conn) = write_deadline e.conn wire in
      (failed, record { conn = conn; state = record (e.state) { o_state = o } })

  unfoldable pub tick_sent : Option Err → Bytes → MapEnv Err W → MapEnv Err W
  unfolding fail_map take_enter
  tick_sent (some err) data_ e = record e { state = fail_map (send_tick_sync err) e.state }
  tick_sent none data_ e = record e { state = take_enter data_ e.state }

  unfoldable pub loaded_sent : ℕ → Option Err → Bytes → MapEnv Err W → MapEnv Err W
  unfolding fail_map tick_sent send_encoded fsm_encode_time_sync_response
  loaded_sent packetver (some err) data_ e = record e {
    state = fail_map (send_map_loaded err) e.state;
  }
  loaded_sent packetver none data_ e =
      let (failed, e') = send_encoded (fsm_encode_time_sync_response packetver) e in
      tick_sent failed data_ e'

  unfoldable pub waited : ℕ → Option Err → Bytes → MapEnv Err W → MapEnv Err W
  unfolding fail_map loaded_sent send_encoded fsm_encode_map_loaded
  waited packetver (some err) data_ e = record e { state = fail_map (delay_cancelled err) e.state }
  waited packetver none data_ e =
      let (failed, e') = send_encoded fsm_encode_map_loaded e in
      loaded_sent packetver failed data_ e'

  unfoldable pub on_map_enter : {V : Type 0} → MapConfig Err W V → HandlerFunc (MapEnv Err W)
  unfolding waited
  on_map_enter cfg data_ pv e =
      let (failed, w) =
        if ltb 0 cfg.map_load_delay then cfg.wait e.state.world else (none, e.state.world) in
      if e.state.done
      then e
      else waited cfg.packetver failed data_ (record e { state = record (e.state) { world = w } })

module _ {Err W V : Type 0} where
  -- The session of the phase with its four handlers.
  unfoldable pub map_session : MapConfig Err W V → MapSession (MapEnv Err W) V
  unfolding new_map_session register_handler on_map_refused on_map_ban on_map_enter
      enable_obfuscation obfuscation_keys_for zc_accept_enter_id
  map_session cfg =
      let s = new_map_session cfg.packetver in
      let (k0, k1, k2) = obfuscation_keys_for cfg.packetver in
      let c1 = register_handler s.core 0x0283 (λ data_ pv e. e) in
      let c2 = register_handler c1 0x0074 on_map_refused in
      let c3 = register_handler c2 0x0081 (on_map_ban cfg.on_server_notify) in
      record {
        core = register_handler c3 (zc_accept_enter_id cfg.packetver) (on_map_enter cfg);
        o_state =
            if not (bit_or (bit_or k0 k1) k2 == 0)
            then enable_obfuscation s.o_state k0 k1 k2
            else s.o_state;
      }
