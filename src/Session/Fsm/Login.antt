-- ===== src/Session/Fsm/Login.antt =====
-- pkg/session/fsm.go: the login phase. `W` is all that the caller's callbacks and the dialer reach.
pub mod Accepted
pub mod Outcomes
mod Tests
use rathena_client.Shared.{
  ℕ, Bool, true, false, Option, none, some, List, [], length, get_or, leb, ◌==◌, if◌then◌else◌,
  Bytes, ℤ, pos, ◌⊎◌, inl, inr,
}
use rathena_client.Session.Core.{HandlerFunc}
use rathena_client.Session.Servers.{LoginSession, new_login_session, register_handler}
use rathena_client.Session.Fsm.LoginAccept.{
  CharServerInfo, ParseResult, too_short, accepted, parse_login_accept,
}
use rathena_client.Session.Fsm.Packets.{fsm_encode_master_login}
use rathena_client.Session.Fsm.Wire.{
  Read, Conn, Dialed, Wired, StepError, write_deadline, close, Fed, feed_until,
}

pub data AuthPhase : Type 0 where
  phase_login : AuthPhase
  phase_char : AuthPhase
  phase_map : AuthPhase

pub record NotifyInfo : Type 0 where
  pub phase : AuthPhase
  pub code : ℕ

-- The fields of `ConnectionFSM` that a run fills.
pub record AuthState : Type 0 where
  pub account_id : ℕ
  pub session_id1 : ℕ
  pub session_id2 : ℕ
  pub sex : ℕ
  pub char_id : ℕ

pub data LoginError (Err : Type 0) : Type 0 where
  dial_login : Err → LoginError Err
  send_login : Err → LoginError Err
  login_feed : StepError Err → LoginError Err
  accept_too_short : (len : ℕ) → (header : ℕ) → LoginError Err
  login_refused : (code : ℕ) → LoginError Err
  notify_ban : (code : ℕ) → LoginError Err
  parse_panic : LoginError Err

-- The variables that the handlers of the phase capture, and the caller's world.
pub record LoginState (Err W : Type 0) : Type 0 where
  pub auth : AuthState
  pub char_servers : List CharServerInfo
  pub done : Bool
  pub login_err : Option (LoginError Err)
  pub world : W

unfoldable pub refused_code : ℕ → Bytes → ℕ
refused_code refuse_id data_ =
    if leb 3 (length data_)
    then if refuse_id == 0x006A
      then get_or data_ 2 0
      else if leb 6 (length data_)
      then get_or data_ 2 0
      else 0
    else 0

unfoldable pub ban_code : Bytes → ℕ
ban_code data_ = if leb 3 (length data_) then get_or data_ 2 0 else 0

-- A callback of the caller that may be nil.
abbrev pub notify : {W : Type 0} → Option (NotifyInfo → W → W) → NotifyInfo → W → W
notify none info w = w
notify (some f) info w = f info w

module _ {Err W : Type 0} where
  unfoldable pub fail_login : LoginError Err → LoginState Err W → LoginState Err W
  fail_login err e = record e { login_err = some err; done = true }

  -- The accept handler, by what the parser returned.
  unfoldable pub take_accept : Option ParseResult → LoginState Err W → LoginState Err W
  unfolding fail_login
  take_accept none e = fail_login parse_panic e
  take_accept (some (too_short len header)) e = fail_login (accept_too_short len header) e
  take_accept (some (accepted a)) e = record e {
    auth = record (e.auth) {
      account_id = a.account_id;
      session_id1 = a.session_id1;
      session_id2 = a.session_id2;
      sex = a.sex;
    };
    char_servers = a.servers;
    done = true;
  }

  unfoldable pub on_login_accept : ℕ → HandlerFunc (Wired Err (LoginState Err W))
  unfolding take_accept
  on_login_accept packetver data_ pv e = record e {
    state = take_accept (parse_login_accept data_ packetver) e.state;
  }

  unfoldable pub on_login_refused : ℕ → HandlerFunc (Wired Err (LoginState Err W))
  unfolding refused_code fail_login
  on_login_refused refuse_id data_ pv e = record e {
    state = fail_login (login_refused (refused_code refuse_id data_)) e.state;
  }

  unfoldable pub on_login_ban :
      Option (NotifyInfo → W → W) → HandlerFunc (Wired Err (LoginState Err W))
  unfolding ban_code fail_login
  on_login_ban on_server_notify data_ pv e =
      let info : NotifyInfo = record { phase = phase_login; code = ban_code data_ } in
      let told = record (e.state) { world = notify on_server_notify info (e.state.world) } in
      record e { state = fail_login (notify_ban (ban_code data_)) told }

unfoldable pub accept_id : ℕ → ℕ
accept_id packetver = if leb 20170315 packetver then 0x0AC4 else 0x0069

module _ {Err W V : Type 0} where
  -- The session of the phase with its four handlers.
  unfoldable pub login_session :
      ℕ → Option (NotifyInfo → W → W) → LoginSession (Wired Err (LoginState Err W)) V
  unfolding accept_id on_login_accept on_login_refused on_login_ban new_login_session
      register_handler
  login_session packetver on_server_notify =
      let s0 = new_login_session packetver in
      let s1 = register_handler s0 (accept_id packetver) (on_login_accept packetver) in
      let s2 = register_handler s1 0x006A (on_login_refused 0x006A) in
      let s3 = register_handler s2 0x083E (on_login_refused 0x083E) in
      register_handler s3 0x0081 (on_login_ban on_server_notify)

-- What the phase returns, and what it leaves: the connection, if there was one, and the fields.
pub record LoginResult (Err W : Type 0) : Type 0 where
  pub conn : Option (Conn Err)
  pub auth : AuthState
  pub world : W
  pub result : LoginError Err ⊎ (List CharServerInfo × ℤ)

-- What the phase is given: server, credentials, the dialer and the caller's callbacks.
pub record LoginConfig (Err W : Type 0) : Type 0 where
  pub packetver : ℕ
  pub username : Bytes
  pub password : Bytes
  pub dialer : W → (Err ⊎ Dialed Err) × W
  pub on_server_notify : Option (NotifyInfo → W → W)
  pub on_char_server_list : Option (List CharServerInfo → W → ℤ × W)

-- The index that the caller picks, 0 without a callback.
abbrev pub pick_server :
    {W : Type 0} → Option (List CharServerInfo → W → ℤ × W) → List CharServerInfo → W → ℤ × W
pick_server none servers w = (pos 0, w)
pick_server (some f) servers w = f servers w

module _ {Err W : Type 0} where
  -- After the loop: its error, the error that a handler left, or the servers and the index.
  unfoldable pub login_end :
      LoginConfig Err W
      → Option (StepError Err)
      → Option (LoginError Err)
      → Wired Err (LoginState Err W)
      → LoginResult Err W
  login_end cfg (some err) login_err e = record {
    conn = some (close e.conn);
    auth = e.state.auth;
    world = e.state.world;
    result = inl (login_feed err);
  }
  login_end cfg none (some err) e = record {
    conn = some (close e.conn);
    auth = e.state.auth;
    world = e.state.world;
    result = inl err;
  }
  login_end cfg none none e =
      let (idx, w) = pick_server cfg.on_char_server_list e.state.char_servers e.state.world in
      record {
        conn = some (close e.conn);
        auth = e.state.auth;
        world = w;
        result = inr (e.state.char_servers, idx);
      }

module _ {Err W : Type 0} (V : Type 0) (timeout : Err) (clock : W → ℕ) where
  unfoldable pub login_loop :
      LoginConfig Err W
      → List (Read Err)
      → Wired Err (LoginState Err W)
      → Fed Err (LoginState Err W) V (StepError Err)
  unfolding login_session feed_until
  login_loop cfg reads e =
      feed_until timeout (λ t. clock t.state.world) (λ err. err) (λ t. t.state.done) reads
        (login_session cfg.packetver cfg.on_server_notify) e

  -- After the dial and the write of the request.
  unfoldable pub login_written :
      LoginConfig Err W
      → List (Read Err)
      → Option Err
      → Conn Err
      → AuthState
      → W
      → LoginResult Err W
  unfolding login_end login_loop
  login_written cfg reads (some err) conn auth w = record {
    conn = some (close conn);
    auth = auth;
    world = w;
    result = inl (send_login err);
  }
  login_written cfg reads none conn auth w =
      let start : LoginState Err W = record {
        auth = auth;
        char_servers = [];
        done = false;
        login_err = none;
        world = w;
      } in
      let f = login_loop cfg reads (record { conn = conn; state = start }) in
      login_end cfg f.error f.env.state.login_err f.env

  unfoldable pub login_dialed :
      LoginConfig Err W → Err ⊎ Dialed Err → AuthState → W → LoginResult Err W
  unfolding login_written fsm_encode_master_login write_deadline
  login_dialed cfg (inl err) auth w = record {
    conn = none;
    auth = auth;
    world = w;
    result = inl (dial_login err);
  }
  login_dialed cfg (inr d) auth w =
      let (failed, conn) =
        write_deadline d.conn (fsm_encode_master_login cfg.packetver cfg.username cfg.password) in
      login_written cfg d.reads failed conn auth w

  unfoldable pub run_login_phase : LoginConfig Err W → AuthState → W → LoginResult Err W
  unfolding login_dialed
  run_login_phase cfg auth w = let (dialed, w') = cfg.dialer w in login_dialed cfg dialed auth w'
