-- ===== src/Session/Fsm/Char/Outcomes.antt =====
-- How the char phase ends.
use rathena_client.Shared.{
  ℕ, ◌≤◌, ◌≡◌, ◌≢◌, refl, sym, Bool, true, false, Option, none, some, List, [], append-nil, inl,
  inr, Bytes,
}
use rathena_client.Session.Servers.{char_recv_buf_initial, new_char_session, register_handler}
use rathena_client.Session.Core.Frames.{IsFrame}
use rathena_client.Session.Fsm.Packets.{fsm_encode_game_login}
use rathena_client.Session.Fsm.Wire.{Read, Conn, close}
use rathena_client.Session.Fsm.Wire.Loop.{Arrives, rounds-Ended}
use rathena_client.Session.Fsm.Login.{AuthState}
use rathena_client.Session.Fsm.Char.{CharError, char_feed, decode_panic, CharState, CharEnv}
use rathena_client.Session.Fsm.Char.Handlers.{char_session}
use rathena_client.Session.Fsm.Char.Run.{
  address, CharConfig, CharResult, no_result, char_turn, char_end, char_loop, char_echoed,
}
use rathena_client.Session.Fsm.Char.Asks.{nothing, Asked}
use rathena_client.Session.Fsm.Char.Kept.{Zone, Kept}
use rathena_client.Session.Fsm.Char.Select.{Left, Found, char_turn-Heads}
use rathena_client.Session.Lengths.CharTable.{char_table}
use rathena_client.Session.Fsm.Char.Keeping.{char_session-Keeps}

-- The request to enter, of the fields that the login phase has left.
abbrev pub enter_packet : AuthState → Bytes
enter_packet auth = fsm_encode_game_login auth.account_id auth.session_id1 auth.session_id2 auth.sex

-- By what is known of the buffer and of the frames.
module _ {Err W : Type 0} (cfg : CharConfig Err W) (From : ℕ → Bytes → Type 0)
    (Buf : List (Read Err) → Bytes → Type 0)
    (arrives : Arrives (char_table cfg.choice.packetver) char_recv_buf_initial From Buf)
    (framed : (id : ℕ) (data_ : Bytes)
      → From id data_
      → IsFrame (char_table cfg.choice.packetver) id data_) where
  -- What the phase returns, from the connection after the echo on.
  pub record Sound (before : Conn Err) (r : CharResult Err W) : Type 0 where
    pub found :
        (addr : List ℕ)
        → r.result ≡ inr addr
        → (ip : ℕ) × (port : ℕ) × Zone From cfg.choice.packetver r.auth.char_id ip port
          × (addr ≡ address ip port)
    pub no_panic : r.result ≢ inl decode_panic
    pub flag : Bool
    pub asked : (c : Conn Err) × (r.conn ≡ some (close c)) × Asked before flag c
    pub quiet : 20201007 ≤ cfg.choice.packetver → flag ≡ false

  quiet_flag : (b got : Bool) → (b ≡ true → got ≡ true) → got ≡ false → b ≡ false
  quiet_flag true got h q = absurd (cc (h refl))
  quiet_flag false got h q = refl

  char_end-Sound :
      (before : Conn Err) (o : Option (CharError Err)) (w : Option Err) (l : Option (CharError Err))
      (e : CharEnv Err W)
      → (o ≡ none → Found From cfg.choice.packetver before e)
      → ((err : CharError Err) → o ≡ some err → err ≢ decode_panic)
      → e.state.res.err ≡ l
      → Left From cfg.choice.packetver before e
      → Sound before (char_end cfg o w l e)
  unfolding char_end
  char_end-Sound before (some err) w l e f a q h = record {
    found = λ addr r. absurd cc;
    no_panic = λ r. a err refl cc;
    flag = h.flag;
    asked = (e.conn, refl, h.asked);
    quiet = λ n. quiet_flag h.flag e.state.res.got_char_list h.sent (h.quiet n);
  }
  char_end-Sound before none (some err) l e f a q h = record {
    found = λ addr r. absurd cc;
    no_panic = λ r. cc;
    flag = h.flag;
    asked = (e.conn, refl, h.asked);
    quiet = λ n. quiet_flag h.flag e.state.res.got_char_list h.sent (h.quiet n);
  }
  char_end-Sound before none none (some err) e f a q h = record {
    found = λ addr r. absurd cc;
    no_panic = λ r. h.sound cc;
    flag = h.flag;
    asked = (e.conn, refl, h.asked);
    quiet = λ n. quiet_flag h.flag e.state.res.got_char_list h.sent (h.quiet n);
  }
  char_end-Sound before none none none e f a q h = record {
    found = λ addr r. (e.state.res.map_ip, e.state.res.map_port, f refl q, cc);
    no_panic = λ r. cc;
    flag = h.flag;
    asked = (e.conn, refl, h.asked);
    quiet = λ n. quiet_flag h.flag e.state.res.got_char_list h.sent (h.quiet n);
  }

  pub char_echoed-Sound :
      (V : Type 0) (timeout : Err) (cut_short : Err → Err) (clock : W → ℕ) (reads : List (Read Err))
      (conn : Conn Err) (auth : AuthState) (w : W)
      → Buf reads []
      → Sound conn (char_echoed V timeout cut_short clock cfg none reads conn auth w)
  unfolding char_echoed char_loop char_session new_char_session register_handler
  char_echoed-Sound V timeout cut_short clock reads conn auth w b =
      let start : CharState Err W = record {
        auth = auth;
        res = no_result;
        write_err = none;
        slot_sent = false;
        world = w;
      } in
      let e : CharEnv Err W = record { conn = conn; state = start } in
      let f = char_loop V timeout cut_short clock cfg reads e in
      let pv = cfg.choice.packetver in
      let held : Kept From pv conn e = record {
        asked = record {
          added = [];
          asks = nothing;
          written = sym (append-nil conn.written);
          closed = refl;
        };
        sent = λ q. absurd cc;
        quiet = λ n. refl;
        sound = λ q. cc;
        zone = λ q. absurd cc;
      } in
      let ended =
        rounds-Ended timeout (λ t. clock t.state.world) char_feed (char_table pv)
          char_recv_buf_initial From (Kept From pv conn) (Left From pv conn) (Found From pv conn)
          (λ err. err ≢ decode_panic) (λ err q. cc) Buf arrives char_turn
          (char_turn-Heads From pv conn) reads (char_session {V = V} cfg.choice) e
          (record {
            sound = refl;
            keeps = char_session-Keeps From cfg.choice conn framed;
            buffer = b;
          })
          held in
      char_end-Sound conn f.error f.env.state.write_err f.env.state.res.err f.env ended.post
        ended.allowed refl ended.inv
