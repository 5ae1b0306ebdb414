-- ===== src/Session/Fsm/Login/Accepted.antt =====
-- What a login phase that ends well has received.
use rathena_client.Shared.{
  ℕ, ◌≡◌, ◌≢◌, refl, ◌==◌, Bool, true, false, Option, none, some, List, inl, inr, Bytes,
  if◌then◌else◌, leb, arith,
}
use rathena_client.Session.Core.{HandlerFunc}
use rathena_client.Session.Core.Callbacks.{Keeps, handled_by}
use rathena_client.Session.Lengths.{no_lengths, populate_login_lengths}
use rathena_client.Session.Servers.{new_login_session, register_handler, login_recv_buf_initial}
use rathena_client.Session.Fsm.LoginAccept.{
  CharServerInfo, LoginAccept, ParseResult, too_short, accepted, parse_login_accept,
}
use rathena_client.Session.Fsm.Wire.{Conn, Wired, StepError, set_deadline}
use rathena_client.Session.Fsm.Login.{
  AuthState, NotifyInfo, phase_login, notify, LoginError, login_feed, accept_too_short,
  login_refused, notify_ban, parse_panic, LoginState, fail_login, take_accept, on_login_accept,
  refused_code, on_login_refused, ban_code, on_login_ban, accept_id, login_session,
}
use rathena_client.Session.Fsm.LoginAccept.Bounds.{parse_login_accept_total}

-- The fields and the servers are those of a packet from `From` that has the accept packet's id at the
-- packet version.
pub record Accepted (From : ℕ → Bytes → Type 0) (packetver : ℕ) (auth : AuthState)
    (found : List CharServerInfo) : Type 0 where
  pub id : ℕ
  pub data_ : Bytes
  pub from : From id data_
  pub is_accept : id ≡ (if leb 20170315 packetver then 0x0AC4 else 0x0069)
  pub packet : LoginAccept
  pub parsed : parse_login_accept data_ packetver ≡ some (accepted packet)
  pub servers : found ≡ packet.servers
  pub account_id : auth.account_id ≡ packet.account_id
  pub session_id1 : auth.session_id1 ≡ packet.session_id1
  pub session_id2 : auth.session_id2 ≡ packet.session_id2
  pub sex : auth.sex ≡ packet.sex

-- The errors that the handlers report.
pub data FromHandler {Err : Type 0} : LoginError Err → Type 0 where
  too_short_accept : (len header : ℕ) → FromHandler (accept_too_short len header)
  refusal : (code : ℕ) → FromHandler (login_refused code)
  ban : (code : ℕ) → FromHandler (notify_ban code)

pub FromHandler-ne-feed :
    {Err : Type 0} (err : LoginError Err) (o : StepError Err) → FromHandler err → err ≢ login_feed o
FromHandler-ne-feed _ o (too_short_accept len header) = λ q. cc
FromHandler-ne-feed _ o (refusal code) = λ q. cc
FromHandler-ne-feed _ o (ban code) = λ q. cc

pub FromHandler-ne-panic :
    {Err : Type 0} (err : LoginError Err) → FromHandler err → err ≢ parse_panic
FromHandler-ne-panic _ (too_short_accept len header) = λ q. cc
FromHandler-ne-panic _ (refusal code) = λ q. cc
FromHandler-ne-panic _ (ban code) = λ q. cc

FromHandler-same :
    {Err : Type 0} (err err' : LoginError Err)
    → FromHandler err
    → some err ≡ some err'
    → FromHandler err'
FromHandler-same err err' h q = let same : err ≡ err' = cc in rw (← same) h

module _ {Err W : Type 0} (From : ℕ → Bytes → Type 0) (packetver : ℕ) where
  -- What every handler keeps: once the flag is set, with no error left, the packet is in.
  pub record Progress (e : LoginState Err W) : Type 0 where
    pub reported : (err : LoginError Err) → e.login_err ≡ some err → FromHandler err
    pub arrived : e.done ≡ true → e.login_err ≡ none → Accepted From packetver e.auth e.char_servers

  take_accept-Progress :
      (o : Option ParseResult) (id : ℕ) (data_ : Bytes) (e : LoginState Err W)
      → parse_login_accept data_ packetver ≡ o
      → From id data_
      → id ≡ accept_id packetver
      → Progress e
      → Progress (take_accept o e)
  unfolding take_accept fail_login accept_id
  take_accept-Progress none id data_ e p f same h =
      elim (parse_login_accept_total packetver data_) [
        | inl (_, short) ↦ absurd cc
        | inr (_, a, whole, _) ↦ absurd cc
      ]
  take_accept-Progress (some (too_short len header)) id data_ e p f same h = record {
    reported =
        λ err q. FromHandler-same (accept_too_short len header) err (too_short_accept len header) q;
    arrived = λ d q. absurd cc;
  }
  take_accept-Progress (some (accepted a)) id data_ e p f same h = record {
    reported = h.reported;
    arrived = λ d q. record {
      id = id;
      data_ = data_;
      from = f;
      is_accept = same;
      packet = a;
      parsed = p;
      servers = refl;
      account_id = refl;
      session_id1 = refl;
      session_id2 = refl;
      sex = refl;
    };
  }

  fail_login-Progress :
      (err : LoginError Err) (e : LoginState Err W) → FromHandler err → Progress (fail_login err e)
  unfolding fail_login
  fail_login-Progress err e ne = record {
    reported = λ err' q. FromHandler-same err err' ne q;
    arrived = λ d q. absurd cc;
  }

  -- Of the environment: the connection has not been written to since `before`.
  pub record Waits (before : Conn Err) (e : Wired Err (LoginState Err W)) : Type 0 where
    pub progress : Progress e.state
    pub written : e.conn.written ≡ before.written
    pub closed : e.conn.closed ≡ before.closed

  module _ (before : Conn Err) where
    handled_by_if :
        (b : Bool) (f : HandlerFunc (Wired Err (LoginState Err W)))
        (o : Option (HandlerFunc (Wired Err (LoginState Err W)))) (data_ : Bytes) (pv : ℕ)
        (e : Wired Err (LoginState Err W))
        → (b ≡ true → Waits before (f data_ pv e))
        → Waits before (handled_by o data_ pv e)
        → Waits before (handled_by (if b then some f else o) data_ pv e)
    handled_by_if true f o data_ pv e p q = p refl
    handled_by_if false f o data_ pv e p q = q

    pub login_session-Keeps :
        {V : Type 0} (on_server_notify : Option (NotifyInfo → W → W))
        → Keeps
            (populate_login_lengths packetver no_lengths)
            login_recv_buf_initial
            From
            (Waits before)
            (login_session {Err = Err} {V = V} packetver on_server_notify)
    unfolding login_session register_handler new_login_session on_login_accept on_login_refused
        on_login_ban fail_login
    login_session-Keeps on_server_notify =
        let after : (s : LoginState Err W) (e : Wired Err (LoginState Err W))
            → Progress s
            → Waits before e
            → Waits before (record e { state = s }) =
          λ s e p h. record { progress = p; written = h.written; closed = h.closed } in
        record {
          table = refl;
          room = refl;
          traced = λ ev e p. p;
          reported = λ ev e p. p;
          handled = λ id data_ pv e f h.
              handled_by_if (id == 0x0081) _ _ data_ pv e
                (λ same.
                  after _ e
                    (fail_login-Progress (notify_ban (ban_code data_))
                      (record (e.state) {
                        world =
                            notify on_server_notify
                              (record { phase = phase_login; code = ban_code data_ }) e.state.world;
                      })
                      (ban (ban_code data_)))
                    h)
                (handled_by_if (id == 0x083E) _ _ data_ pv e
                  (λ same.
                    after _ e
                      (fail_login-Progress (login_refused (refused_code 0x083E data_)) e.state
                        (refusal (refused_code 0x083E data_)))
                      h)
                  (handled_by_if (id == 0x006A) _ _ data_ pv e
                    (λ same.
                      after _ e
                        (fail_login-Progress (login_refused (refused_code 0x006A data_)) e.state
                          (refusal (refused_code 0x006A data_)))
                        h)
                    (handled_by_if (id == accept_id packetver) _ _ data_ pv e
                      (λ same.
                        after _ e
                          (take_accept-Progress (parse_login_accept data_ packetver) id data_
                            e.state refl f (ground arith) h.progress)
                          h)
                      h)));
        }

    pub quiet-Waits :
        (e : Wired Err (LoginState Err W))
        → Waits before e
        → Waits before (record e { conn = (set_deadline e.conn).1 })
    unfolding set_deadline
    quiet-Waits e h = record { progress = h.progress; written = h.written; closed = h.closed }
