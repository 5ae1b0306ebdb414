-- ===== src/Session/Fsm/Char/Run.antt =====
-- pkg/session/fsm.go: runCharPhase around its handlers. The address that `fmt.Sprintf` formats is
-- the list of the five numbers.
use rathena_client.Shared.{
  ℕ, ◌-◌, Bool, true, false, ◌&&◌, ◌||◌, not, Option, none, some, List, [], ◌∷◌, length, drop, ltb,
  ◌==◌, if◌then◌else◌, Bytes, ◌⊎◌, inl, inr, ◌>>◌, bit_and,
}
use rathena_client.Session.Fsm.Packets.{fsm_encode_game_login, fsm_encode_char_login}
use rathena_client.Session.Fsm.Wire.{
  Read, Conn, Dialed, set_deadline, write_deadline, close, Fed, Turn, stop, fail, go, rounds,
}
use rathena_client.Session.Fsm.Login.{AuthState}
use rathena_client.Session.Fsm.Char.{
  CharError, dial_char, send_enter, set_echo_deadline, read_echo, send_charlist_req, send_select,
  char_feed, CharPhaseResult, CharState, CharChoice, CharEnv,
}
use rathena_client.Session.Fsm.Char.Handlers.{char_session}

pub record IdentityInfo : Type 0 where
  pub account_id : ℕ
  pub char_id : ℕ
  pub selected_slot : ℕ
  pub sex : ℕ
  pub map_name : Bytes
  pub map_ip : ℕ
  pub map_port : ℕ
  pub map_domain : Bytes

-- `fmt.Sprintf("%d.%d.%d.%d:%d", ...)`
unfoldable pub address : ℕ → ℕ → List ℕ
address ip port =
    (ip >> 24) ∷ bit_and (ip >> 16) 0xFF ∷ bit_and (ip >> 8) 0xFF ∷ bit_and ip 0xFF ∷ port ∷ []

-- What the phase is given besides its handlers' part.
pub record CharConfig (Err W : Type 0) : Type 0 where
  pub choice : CharChoice W
  pub dialer : List ℕ → W → (Err ⊎ Dialed Err) × W
  pub on_identity : Option (IdentityInfo → W → W)

pub record CharResult (Err W : Type 0) : Type 0 where
  pub conn : Option (Conn Err)
  pub auth : AuthState
  pub world : W
  pub result : CharError Err ⊎ List ℕ

abbrev pub no_result : {Err : Type 0} → CharPhaseResult Err
no_result = record {
  map_ip = 0;
  map_port = 0;
  map_domain = [];
  char_id = 0;
  done = false;
  err = none;
  map_name = [];
  raw_chars = [];
  chars_expected = 0;
  pages_recv = 0;
  got_09a0 = false;
  got_char_list = false;
  selected_slot = 0;
}

-- `io.ReadFull` of `n` bytes: its error, and the reads after it. `cut_short` is what it makes of an
-- error that comes after the first byte. What a read has past the `n` bytes, the next call returns.
module _ {Err : Type 0} (timeout : Err) (cut_short : Err → Err) where
  abbrev pub late : Bool → Err → Err
  late started err = if started then cut_short err else err

  unfoldable pub read_full : ℕ → Bool → List (Read Err) → Option Err × List (Read Err)
  read_full n started [] = (some (late started timeout), [])
  read_full n started (r ∷ rs) =
      let started' = started || ltb 0 (length r.bytes) in
      let rest = read_full (n - length r.bytes) started' rs in
      if ltb n (length r.bytes)
      then (none, record { bytes = drop n r.bytes; error = r.error } ∷ rs)
      else if length r.bytes == n
      then (none, rs)
      else elim r.error [ some err ↦ (some (late started' err), rs) | none ↦ rest ]

abbrev pub identify : {W : Type 0} → Option (IdentityInfo → W → W) → IdentityInfo → W → W
identify none info w = w
identify (some f) info w = f info w

module _ {Err W : Type 0} where
  -- The select request is written: with an error, the phase returns.
  unfoldable pub select_written :
      Option Err → Conn Err → CharEnv Err W → Turn (CharEnv Err W) (CharError Err)
  select_written (some err) conn e = fail (send_select err) (record e { conn = conn })
  select_written none conn e =
      go (record { conn = conn; state = record (e.state) { slot_sent = true } })

  unfoldable pub send_slot : CharEnv Err W → Turn (CharEnv Err W) (CharError Err)
  unfolding select_written fsm_encode_char_login write_deadline
  send_slot e =
      let (failed, conn) =
        write_deadline e.conn (fsm_encode_char_login e.state.res.selected_slot) in
      if e.state.res.got_char_list && not e.state.slot_sent
      then select_written failed conn e
      else go e

  -- The head of the phase's loop.
  unfoldable pub char_turn : CharEnv Err W → Turn (CharEnv Err W) (CharError Err)
  unfolding send_slot
  char_turn e =
      if e.state.res.done
      then stop e
      else elim e.state.write_err [ some err ↦ fail (send_charlist_req err) e | none ↦ send_slot e ]

  abbrev char_failed : CharError Err → CharEnv Err W → CharResult Err W
  char_failed err e = record {
    conn = some (close e.conn);
    auth = e.state.auth;
    world = e.state.world;
    result = inl err;
  }

  -- After the loop: its error, a write error, the error of a handler, or the address.
  unfoldable pub char_end :
      CharConfig Err W
      → Option (CharError Err)
      → Option Err
      → Option (CharError Err)
      → CharEnv Err W
      → CharResult Err W
  unfolding address
  char_end cfg (some err) write_err res_err e = char_failed err e
  char_end cfg none (some err) res_err e = char_failed (send_charlist_req err) e
  char_end cfg none none (some err) e = char_failed err e
  char_end cfg none none none e =
      let s = e.state in
      let info : IdentityInfo = record {
        account_id = s.auth.account_id;
        char_id = s.auth.char_id;
        selected_slot = s.res.selected_slot;
        sex = s.auth.sex;
        map_name = s.res.map_name;
        map_ip = s.res.map_ip;
        map_port = s.res.map_port;
        map_domain = s.res.map_domain;
      } in
      record {
        conn = some (close e.conn);
        auth = s.auth;
        world = identify cfg.on_identity info s.world;
        result = inr (address s.res.map_ip s.res.map_port);
      }

module _ {Err W : Type 0} (V : Type 0) (timeout : Err) (cut_short : Err → Err) (clock : W → ℕ) where
  unfoldable pub char_loop :
      CharConfig Err W
      → List (Read Err)
      → CharEnv Err W
      → Fed Err (CharState Err W) V (CharError Err)
  unfolding char_session char_turn rounds
  char_loop cfg reads e =
      rounds timeout (λ t. clock t.state.world) char_feed char_turn reads (char_session cfg.choice)
        e

  -- After the echo of the account id.
  unfoldable pub char_echoed :
      CharConfig Err W → Option Err → List (Read Err) → Conn Err → AuthState → W → CharResult Err W
  unfolding char_end char_loop
  char_echoed cfg (some err) reads conn auth w = record {
    conn = some (close conn);
    auth = auth;
    world = w;
    result = inl (read_echo err);
  }
  char_echoed cfg none reads conn auth w =
      let start : CharState Err W = record {
        auth = auth;
        res = no_result;
        write_err = none;
        slot_sent = false;
        world = w;
      } in
      let f = char_loop cfg reads (record { conn = conn; state = start }) in
      char_end cfg f.error f.env.state.write_err f.env.state.res.err f.env

  -- After the deadline of the echo.
  unfoldable pub char_waiting :
      CharConfig Err W → List (Read Err) → Option Err → Conn Err → AuthState → W → CharResult Err W
  unfolding char_echoed read_full
  char_waiting cfg reads (some err) conn auth w = record {
    conn = some (close conn);
    auth = auth;
    world = w;
    result = inl (set_echo_deadline err);
  }
  char_waiting cfg reads none conn auth w =
      let (failed, reads') = read_full timeout cut_short 4 false reads in
      char_echoed cfg failed reads' conn auth w

  -- After the write of the request to enter.
  unfoldable pub char_written :
      CharConfig Err W → List (Read Err) → Option Err → Conn Err → AuthState → W → CharResult Err W
  unfolding char_waiting set_deadline
  char_written cfg reads (some err) conn auth w = record {
    conn = some (close conn);
    auth = auth;
    world = w;
    result = inl (send_enter err);
  }
  char_written cfg reads none conn auth w =
      let (failed, conn') = set_deadline conn in char_waiting cfg reads failed conn' auth w

  unfoldable pub char_dialed :
      CharConfig Err W → Err ⊎ Dialed Err → AuthState → W → CharResult Err W
  unfolding char_written fsm_encode_game_login write_deadline
  char_dialed cfg (inl err) auth w = record {
    conn = none;
    auth = auth;
    world = w;
    result = inl (dial_char err);
  }
  char_dialed cfg (inr d) auth w =
      let (failed, conn) =
        write_deadline d.conn
          (fsm_encode_game_login auth.account_id auth.session_id1 auth.session_id2 auth.sex) in
      char_written cfg d.reads failed conn auth w

  unfoldable pub run_char_phase : CharConfig Err W → List ℕ → AuthState → W → CharResult Err W
  unfolding char_dialed
  run_char_phase cfg char_addr auth w =
      let (dialed, w') = cfg.dialer char_addr w in char_dialed cfg dialed auth w'
