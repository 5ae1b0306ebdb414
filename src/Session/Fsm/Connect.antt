-- ===== src/Session/Fsm/Connect.antt =====
-- pkg/session/fsm.go: Connect and connect, the three phases one after the other.
pub mod Safe
mod Tests
use rathena_client.Shared.{
  ℕ, Option, none, some, List, length, get_elem?, leb, ltb, if◌then◌else◌, Bytes, ℤ, pos, negsuc,
  ◌⊎◌, inl, inr,
}
use rathena_client.Decode.Characters.{CharacterInfoEntry}
use rathena_client.Session.Servers.{MapSession}
use rathena_client.Session.Fsm.LoginAccept.{CharServerInfo}
use rathena_client.Session.Fsm.Wire.{Conn, Dialed}
use rathena_client.Session.Fsm.Login.{
  AuthPhase, phase_login, phase_char, phase_map, NotifyInfo, AuthState, LoginError, LoginResult,
  LoginConfig, run_login_phase,
}
use rathena_client.Session.Fsm.Char.{SlotInfo, CharError}
use rathena_client.Session.Fsm.Char.Run.{
  IdentityInfo, address, CharConfig, CharResult, run_char_phase,
}
use rathena_client.Session.Fsm.Map.{ReadyInfo, MapError, MapEnv, MapConfig}
use rathena_client.Session.Fsm.Map.Run.{MapEnd, run_map_phase}

-- The errors by the phase that they are wrapped with; both of the index are the login phase's.
pub data PhaseError (Err : Type 0) : Type 0 where
  in_login : LoginError Err → PhaseError Err
  out_of_range : (idx : ℤ) → (have : ℕ) → PhaseError Err
  index_panic : PhaseError Err
  in_char : CharError Err → PhaseError Err
  in_map : MapError Err → PhaseError Err

abbrev pub phase_of : {Err : Type 0} → PhaseError Err → AuthPhase
phase_of (in_login err) = phase_login
phase_of (out_of_range idx have) = phase_login
phase_of index_panic = phase_login
phase_of (in_char err) = phase_char
phase_of (in_map err) = phase_map

-- What the dialer is asked for: the login server, or a formatted address.
pub data Target : Type 0 where
  login_addr : Target
  host : List ℕ → Target

pub record ConnectionFsm (Err W V : Type 0) : Type 0 where
  pub packetver : ℕ
  pub map_load_delay : ℕ
  pub username : Bytes
  pub password : Bytes
  pub char_slot : ℕ
  pub dialer : Target → W → (Err ⊎ Dialed Err) × W
  pub wait : W → Option Err × W
  pub on_char_server_list : Option (List CharServerInfo → W → ℤ × W)
  pub on_char_list : Option (List CharacterInfoEntry → W → ℕ × W)
  pub on_slot_info : Option (SlotInfo → W → W)
  pub on_map_session_created :
      Option (MapSession (MapEnv Err W) V → W → MapSession (MapEnv Err W) V × W)
  pub on_ready : Option (MapSession (MapEnv Err W) V → Conn Err → ReadyInfo → W → W)
  pub on_failed : Option (AuthPhase → PhaseError Err → W → W)
  pub on_server_notify : Option (NotifyInfo → W → W)
  pub on_identity : Option (IdentityInfo → W → W)

abbrev pub no_auth : AuthState
no_auth = record { account_id = 0; session_id1 = 0; session_id2 = 0; sex = 0; char_id = 0 }

pub record ConnectEnd (Err W : Type 0) : Type 0 where
  pub world : W
  pub error : Option (PhaseError Err)

-- The chosen server, tested before the list is indexed.
unfoldable pub chosen_server :
    {Err : Type 0} → ℤ → List CharServerInfo → PhaseError Err ⊎ CharServerInfo
chosen_server (negsuc n) servers = inl (out_of_range (negsuc n) (length servers))
chosen_server (pos i) servers =
    if leb (length servers) i
    then inl (out_of_range (pos i) (length servers))
    else elim (get_elem? servers i) [ none ↦ inl index_panic | some server ↦ inr server ]

-- The callback of the caller, that may be nil.
abbrev pub report :
    {Err W : Type 0} → Option (AuthPhase → PhaseError Err → W → W) → PhaseError Err → W → W
report none err w = w
report (some f) err w = f (phase_of err) err w

module _ {Err W V : Type 0} (timeout : Err) (cut_short : Err → Err) (clock : W → ℕ)
    (f : ConnectionFsm Err W V) where
  abbrev pub login_part : LoginConfig Err W
  login_part = record {
    packetver = f.packetver;
    username = f.username;
    password = f.password;
    dialer = f.dialer login_addr;
    on_server_notify = f.on_server_notify;
    on_char_server_list = f.on_char_server_list;
  }

  abbrev pub char_part : CharConfig Err W
  char_part = record {
    choice = record {
      packetver = f.packetver;
      char_slot = f.char_slot;
      on_server_notify = f.on_server_notify;
      on_slot_info = f.on_slot_info;
      on_char_list = f.on_char_list;
    };
    dialer = λ a. f.dialer (host a);
    on_identity = f.on_identity;
  }

  abbrev pub map_part : MapConfig Err W V
  map_part = record {
    packetver = f.packetver;
    map_load_delay = f.map_load_delay;
    wait = f.wait;
    dialer = λ a. f.dialer (host a);
    on_server_notify = f.on_server_notify;
    on_map_session_created = f.on_map_session_created;
    on_ready = f.on_ready;
  }

  abbrev map_error : Option (MapError Err) → Option (PhaseError Err)
  map_error none = none
  map_error (some err) = some (in_map err)

  unfoldable pub after_char : CharResult Err W → CharError Err ⊎ List ℕ → ConnectEnd Err W
  unfolding run_map_phase
  after_char r (inl err) = record { world = r.world; error = some (in_char err) }
  after_char r (inr map_addr) =
      let m = run_map_phase timeout clock map_part map_addr r.auth r.world in
      record { world = m.world; error = map_error m.error }

  unfoldable pub after_index :
      LoginResult Err W → PhaseError Err ⊎ CharServerInfo → ConnectEnd Err W
  unfolding after_char run_char_phase address
  after_index r (inl err) = record { world = r.world; error = some err }
  after_index r (inr server) =
      let c =
        run_char_phase V timeout cut_short clock char_part (address server.ip server.port) r.auth
          r.world in
      after_char c c.result

  unfoldable pub after_login :
      LoginResult Err W → LoginError Err ⊎ (List CharServerInfo × ℤ) → ConnectEnd Err W
  unfolding after_index chosen_server
  after_login r (inl err) = record { world = r.world; error = some (in_login err) }
  after_login r (inr (servers, idx)) = after_index r (chosen_server idx servers)

  unfoldable pub connect_phases : AuthState → W → ConnectEnd Err W
  unfolding after_login run_login_phase
  connect_phases auth w =
      let l = run_login_phase V timeout clock login_part auth w in after_login l l.result

  unfoldable pub reported : ConnectEnd Err W → Option (PhaseError Err) → ConnectEnd Err W
  reported r none = r
  reported r (some err) = record { world = report f.on_failed err r.world; error = some err }

  -- `Connect`: whatever the fields were, they are zero when it starts.
  unfoldable pub connect : W → ConnectEnd Err W
  unfolding connect_phases reported
  connect w = let r = connect_phases no_auth w in reported r r.error
