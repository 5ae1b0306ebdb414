-- ===== src/Session/Fsm/Map/Run.antt =====
-- pkg/session/fsm.go: runMapPhase around its handlers.
use rathena_client.Shared.{ℕ, Bool, true, false, Option, none, some, List, ◌⊎◌, inl, inr}
use rathena_client.Session.Servers.{MapSession, ObfuscationState}
use rathena_client.Session.Fsm.Packets.{fsm_encode_map_login}
use rathena_client.Session.Fsm.Wire.{
  Read, Conn, Dialed, StepError, write_deadline, close, Fed, feed_until,
}
use rathena_client.Session.Fsm.Login.{AuthState}
use rathena_client.Session.Fsm.Map.{
  ReadyInfo, MapError, dial_map, send_map_enter, map_feed, MapState, MapEnv, MapConfig,
  fsm_encode_packet_id, map_session,
}

-- What the phase leaves: the connection, whether it is handed to the caller, and the error.
pub record MapEnd (Err W : Type 0) : Type 0 where
  pub conn : Option (Conn Err)
  pub handed : Bool
  pub world : W
  pub error : Option (MapError Err)

abbrev pub no_info : ReadyInfo
no_info = record { x = 0; y = 0; dir = 0; start_time = 0; font = 0; sex = 0 }

-- The callback of the caller, that may be nil.
abbrev pub created : {S W : Type 0} → Option (S → W → S × W) → S → W → S × W
created none s w = (s, w)
created (some f) s w = f s w

module _ {Err W : Type 0} where
  abbrev map_failed : MapError Err → Conn Err → W → MapEnd Err W
  map_failed err conn w = record {
    conn = some (close conn);
    handed = false;
    world = w;
    error = some err;
  }

  -- Without a callback, the connection is closed after all.
  unfoldable pub hand_over :
      {S : Type 0} → Option (S → Conn Err → ReadyInfo → W → W) → S → MapEnv Err W → MapEnd Err W
  hand_over none s e = record {
    conn = some (close e.conn);
    handed = false;
    world = e.state.world;
    error = none;
  }
  hand_over (some f) s e = record {
    conn = some e.conn;
    handed = true;
    world = f s e.conn e.state.info e.state.world;
    error = none;
  }

module _ {Err W V : Type 0} (timeout : Err) (clock : W → ℕ) (cfg : MapConfig Err W V) where
  -- After the loop: its error, the error of a handler, or the hand-over.
  unfoldable pub map_end :
      Option (StepError Err)
      → Option (MapError Err)
      → Fed Err (MapState Err W) V (StepError Err)
      → MapEnd Err W
  unfolding hand_over
  map_end (some err) res_err f = map_failed (map_feed err) f.env.conn f.env.state.world
  map_end none (some err) f = map_failed err f.env.conn f.env.state.world
  map_end none none f =
      hand_over cfg.on_ready (record { core = f.core; o_state = f.env.state.o_state }) f.env

  unfoldable pub map_loop :
      MapSession (MapEnv Err W) V
      → List (Read Err)
      → Conn Err
      → W
      → Fed Err (MapState Err W) V (StepError Err)
  unfolding feed_until
  map_loop s reads conn w =
      let start : MapState Err W = record {
        done = false;
        err = none;
        info = no_info;
        o_state = s.o_state;
        world = w;
      } in
      feed_until timeout (λ t. clock t.state.world) (λ err. err) (λ t. t.state.done) reads s.core
        (record { conn = conn; state = start })

  -- After the callback that gets the new session.
  unfoldable pub map_started :
      List (Read Err) → Conn Err → MapSession (MapEnv Err W) V × W → MapEnd Err W
  unfolding map_end map_loop
  map_started reads conn (s, w) =
      let f = map_loop s reads conn w in map_end f.error f.env.state.err f

  -- After the write of the request to enter.
  unfoldable pub map_written :
      List (Read Err) → Option Err → Conn Err → ObfuscationState → W → MapEnd Err W
  unfolding map_started map_session
  map_written reads (some err) conn o w = map_failed (send_map_enter err) conn w
  map_written reads none conn o w =
      let s = record (map_session cfg) { o_state = o } in
      map_started reads conn (created cfg.on_map_session_created s w)

  unfoldable pub map_dialed : Err ⊎ Dialed Err → AuthState → W → MapEnd Err W
  unfolding map_written fsm_encode_map_login fsm_encode_packet_id write_deadline map_session
  map_dialed (inl err) auth w = record {
    conn = none;
    handed = false;
    world = w;
    error = some (dial_map err);
  }
  map_dialed (inr d) auth w =
      let pkt =
        fsm_encode_map_login auth.account_id auth.char_id auth.session_id1 auth.sex cfg.packetver in
      let (o, wire) = fsm_encode_packet_id (map_session cfg).o_state pkt in
      let (failed, conn) = write_deadline d.conn wire in map_written d.reads failed conn o w

  unfoldable pub run_map_phase : List ℕ → AuthState → W → MapEnd Err W
  unfolding map_dialed
  run_map_phase map_addr auth w =
      let (dialed, w') = cfg.dialer map_addr w in map_dialed dialed auth w'
