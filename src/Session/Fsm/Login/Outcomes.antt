-- ===== src/Session/Fsm/Login/Outcomes.antt =====
-- How the login phase ends.
use rathena_client.Shared.{
  ℕ, suc, ◌≤◌, ◌≡◌, ◌≢◌, refl, ap, ◌∙◌, true, false, Option, none, some, List, [], ◌∷◌, ◌++◌,
  length, inl, inr, Bytes, ℤ, pos,
}
use rathena_client.Session.Lengths.{no_lengths, populate_login_lengths}
use rathena_client.Session.Lengths.Laws.{populate_login_lengths-IsLength, no_ones-of_IsLength}
use rathena_client.Session.Core.Frames.{IsFrame}
use rathena_client.Session.Servers.{login_recv_buf_initial, new_login_session, register_handler}
use rathena_client.Session.Fsm.LoginAccept.{CharServerInfo}
use rathena_client.Session.Fsm.Packets.{fsm_encode_master_login}
use rathena_client.Session.Fsm.Wire.{
  Read, Conn, Dialed, Wired, StepError, close, write_deadline, feed_until,
}
use rathena_client.Session.Fsm.Wire.Write.{write_deadline-closed, write_deadline-written}
use rathena_client.Session.Fsm.Wire.Loop.{Arrives, until-Heads, rounds-Ended}
use rathena_client.Session.Fsm.Wire.Received.{
  AnyBytes, any_arrives, bytes_of, Received, EndOf, Received-arrives,
}
use rathena_client.Session.Fsm.Login.{
  AuthState, LoginError, parse_panic, LoginState, login_session, LoginResult, LoginConfig,
  login_end, login_loop, login_written, login_dialed, run_login_phase,
}
use rathena_client.Session.Fsm.Login.Accepted.{
  Accepted, FromHandler-ne-panic, Waits, quiet-Waits, login_session-Keeps,
}

-- By what is known of the buffer and of the frames.
module _ {Err W : Type 0} (cfg : LoginConfig Err W) (From : ℕ → Bytes → Type 0)
    (Buf : List (Read Err) → Bytes → Type 0)
    (arrives : Arrives
      (populate_login_lengths cfg.packetver no_lengths)
      login_recv_buf_initial
      From
      Buf) where
  -- What the phase returns once the request is sent.
  record Sound (before : Conn Err) (r : LoginResult Err W) : Type 0 where
    pub accepted_by :
        (servers : List CharServerInfo) (idx : ℤ)
        → r.result ≡ inr (servers, idx)
        → Accepted From cfg.packetver r.auth servers
    pub no_panic : r.result ≢ inl parse_panic
    pub conn :
        (c : Conn Err) × (r.conn ≡ some c)
        × (c.written ≡ before.written)
        × (c.closed ≡ suc before.closed)

  login_end-Sound :
      (before : Conn Err) (o : Option (StepError Err)) (l : Option (LoginError Err))
      (e : Wired Err (LoginState Err W))
      → (o ≡ none → e.state.done ≡ true)
      → e.state.login_err ≡ l
      → Waits From cfg.packetver before e
      → Sound before (login_end cfg o l e)
  unfolding login_end
  login_end-Sound before (some err) l e d q h = record {
    accepted_by = λ servers idx r. absurd cc;
    no_panic = λ r. cc;
    conn = (close e.conn, refl, h.written, ap suc h.closed);
  }
  login_end-Sound before none (some err) e d q h = record {
    accepted_by = λ servers idx r. absurd cc;
    no_panic = λ r. FromHandler-ne-panic err (h.progress.reported err q) cc;
    conn = (close e.conn, refl, h.written, ap suc h.closed);
  }
  login_end-Sound before none none e d q h = record {
    accepted_by = λ servers idx r.
        let same : e.state.char_servers ≡ servers = cc in
        rw (← same) (h.progress.arrived (d refl) q);
    no_panic = λ r. cc;
    conn = (close e.conn, refl, h.written, ap suc h.closed);
  }

  login_loop-Sound :
      (V : Type 0) (timeout : Err) (clock : W → ℕ) (reads : List (Read Err)) (conn : Conn Err)
      (auth : AuthState) (w : W)
      → Buf reads []
      → Sound conn (login_written V timeout clock cfg reads none conn auth w)
  unfolding login_written login_loop feed_until login_session new_login_session register_handler
  login_loop-Sound V timeout clock reads conn auth w b =
      let start : LoginState Err W = record {
        auth = auth;
        char_servers = [];
        done = false;
        login_err = none;
        world = w;
      } in
      let e : Wired Err (LoginState Err W) = record { conn = conn; state = start } in
      let f = login_loop V timeout clock cfg reads e in
      let held : Waits From cfg.packetver conn e = record {
        progress = record { reported = λ err q. absurd cc; arrived = λ d q. absurd cc };
        written = refl;
        closed = refl;
      } in
      let ended =
        rounds-Ended timeout (λ t. clock t.state.world) (λ err. err)
          (populate_login_lengths cfg.packetver no_lengths) login_recv_buf_initial From
          (Waits From cfg.packetver conn) (Waits From cfg.packetver conn) (λ t. t.state.done ≡ true)
          (λ err. Unit) (λ err. tt) Buf arrives _
          (until-Heads (Waits From cfg.packetver conn) (λ t. t.state.done)
            (quiet-Waits From cfg.packetver conn))
          reads (login_session {V = V} cfg.packetver cfg.on_server_notify) e
          (record {
            sound = refl;
            keeps = login_session-Keeps From cfg.packetver conn cfg.on_server_notify;
            buffer = b;
          })
          held in
      login_end-Sound conn f.error f.env.state.login_err f.env ended.post refl ended.inv

  -- What holds of every run whose dial gives the connection `before`.
  record Ran (before : Conn Err) (r : LoginResult Err W) : Type 0 where
    pub accepted_by :
        (servers : List CharServerInfo) (idx : ℤ)
        → r.result ≡ inr (servers, idx)
        → Accepted From cfg.packetver r.auth servers
    pub asked :
        (servers : List CharServerInfo) (idx : ℤ)
        → r.result ≡ inr (servers, idx)
        → (c : Conn Err) × (r.conn ≡ some c)
          × (c.written
              ≡ before.written
                ++ fsm_encode_master_login cfg.packetver cfg.username cfg.password ∷ [])
    pub no_panic : r.result ≢ inl parse_panic
    pub closed_once : (c : Conn Err) × (r.conn ≡ some c) × (c.closed ≡ suc before.closed)

  login_written-Ran :
      (V : Type 0) (timeout : Err) (clock : W → ℕ) (reads : List (Read Err)) (before : Conn Err)
      (o : Option Err) (conn : Conn Err) (auth : AuthState) (w : W)
      → Buf reads []
      → conn.closed ≡ before.closed
      → (o ≡ none
          → conn.written
            ≡ before.written
              ++ fsm_encode_master_login cfg.packetver cfg.username cfg.password ∷ [])
      → Ran before (login_written V timeout clock cfg reads o conn auth w)
  unfolding login_written
  login_written-Ran V timeout clock reads before none conn auth w b closed written =
      let s = login_loop-Sound V timeout clock reads conn auth w b in
      let (c, at, wrote, ends) = s.conn in
      record {
        accepted_by = s.accepted_by;
        asked = λ servers idx r. (c, at, wrote ∙ written refl);
        no_panic = s.no_panic;
        closed_once = (c, at, ends ∙ ap suc closed);
      }
  login_written-Ran V timeout clock reads before (some err) conn auth w b closed written = record {
    accepted_by = λ servers idx r. absurd cc;
    asked = λ servers idx r. absurd cc;
    no_panic = λ r. cc;
    closed_once = (close conn, refl, ap suc closed);
  }

  run_login_phase-Ran :
      (V : Type 0) (timeout : Err) (clock : W → ℕ) (d : Dialed Err) (auth : AuthState) (w : W)
      → Buf d.reads []
      → (cfg.dialer w).0 ≡ inr d
      → Ran d.conn (run_login_phase V timeout clock cfg auth w)
  unfolding run_login_phase login_dialed
  run_login_phase-Ran V timeout clock d auth w b dialed =
      let pkt = fsm_encode_master_login cfg.packetver cfg.username cfg.password in
      let sent = write_deadline d.conn pkt in
      rw dialed (
        login_written-Ran V timeout clock d.reads d.conn sent.0 sent.1 auth (cfg.dialer w).1 b
          (write_deadline-closed d.conn pkt) (write_deadline-written d.conn pkt))

module _ {Err W : Type 0} (V : Type 0) (timeout : Err) (clock : W → ℕ)
    (cfg : LoginConfig Err W) where
  no_ones : (id : ℕ) → populate_login_lengths cfg.packetver no_lengths id ≢ pos 1
  no_ones = no_ones-of_IsLength _ (populate_login_lengths-IsLength cfg.packetver)

  any_run :
      (d : Dialed Err) (auth : AuthState) (w : W)
      → (cfg.dialer w).0 ≡ inr d
      → Ran cfg
          (IsFrame (populate_login_lengths cfg.packetver no_lengths))
          AnyBytes
          (any_arrives _ _ no_ones)
          d.conn
          (run_login_phase V timeout clock cfg auth w)
  any_run d auth w dialed =
      run_login_phase-Ran cfg _ AnyBytes (any_arrives _ _ no_ones) V timeout clock d auth w tt
        dialed

  -- On any connection that the dialer returns, for every finite sequence of reads and whichever calls
  -- fail, no read of the packet parser is out of range, and the login phase closes the connection
  -- exactly once.
  pub run_login_phase_closes :
      (d : Dialed Err) (auth : AuthState) (w : W)
      → (cfg.dialer w).0 ≡ inr d
      → let r = run_login_phase V timeout clock cfg auth w in
        (r.result ≢ inl parse_panic)
        × (c : Conn Err) × (r.conn ≡ some c)
        × (c.closed ≡ suc d.conn.closed)
  run_login_phase_closes d auth w dialed =
      let r = any_run d auth w dialed in
      let (c, at, once) = r.closed_once in (r.no_panic, c, at, once)

  -- Where the login phase returns servers, it has written the login request for the user name and
  -- the password to the connection, and nothing else.
  pub run_login_phase_asks :
      (d : Dialed Err) (auth : AuthState) (w : W) (servers : List CharServerInfo) (idx : ℤ)
      → (cfg.dialer w).0 ≡ inr d
      → (run_login_phase V timeout clock cfg auth w).result ≡ inr (servers, idx)
      → (c : Conn Err) × ((run_login_phase V timeout clock cfg auth w).conn ≡ some c)
        × (c.written
            ≡ d.conn.written
              ++ fsm_encode_master_login cfg.packetver cfg.username cfg.password ∷ [])
  run_login_phase_asks d auth w servers idx dialed ok =
      (any_run d auth w dialed).asked servers idx ok

  -- Where the login phase returns servers, and the server has sent no more than the receive buffer
  -- holds, a contiguous part of the bytes that it sent is a packet of the login server's length table
  -- that starts with the accept packet's id, 0x0AC4 from packet version 20170315 on, else 0x0069, and
  -- the servers, the account id, the two session ids and the sex that the phase leaves are what the
  -- packet's parser makes of it.
  pub run_login_phase-Accepted :
      (d : Dialed Err) (auth : AuthState) (w : W) (servers : List CharServerInfo) (idx : ℤ)
      → (cfg.dialer w).0 ≡ inr d
      → length (bytes_of d.reads) ≤ login_recv_buf_initial
      → (run_login_phase V timeout clock cfg auth w).result ≡ inr (servers, idx)
      → Accepted
          (Received (bytes_of d.reads) (populate_login_lengths cfg.packetver no_lengths))
          cfg.packetver
          (run_login_phase V timeout clock cfg auth w).auth
          servers
  run_login_phase-Accepted d auth w servers idx dialed room ok =
      let total = bytes_of d.reads in
      let r =
        run_login_phase-Ran cfg (Received total _) (EndOf total)
          (Received-arrives total (populate_login_lengths cfg.packetver no_lengths)
            login_recv_buf_initial room no_ones)
          V timeout clock d auth w ([], refl) dialed in
      r.accepted_by servers idx ok
