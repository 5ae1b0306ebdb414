-- ===== src/Session/Fsm/Map/Contract.antt =====
-- What the map phase promises.
use rathena_client.Shared.{
  ℕ, suc, ◌≡◌, refl, ap, sym, ◌∙◌, true, false, Option, none, some, List, [], ◌∷◌, ◌++◌,
  append_assoc, append-nil, inr, Bytes,
}
use mathlib.Core.Path.{subst}
use rathena_client.Session.Lengths.Laws.{map_table}
use rathena_client.Session.Servers.{
  MapSession, ObfuscationState, new_map_session, register_handler, map_recv_buf_initial,
}
use rathena_client.Session.Fsm.Packets.{fsm_encode_map_login}
use rathena_client.Session.Fsm.Wire.{
  Read, Conn, Dialed, StepError, Fed, close, write_deadline, feed_until,
}
use rathena_client.Session.Fsm.Wire.Write.{write_deadline-closed, write_deadline-written}
use rathena_client.Session.Fsm.Wire.Loop.{Arrives, until-Heads, rounds-Ended}
use rathena_client.Session.Fsm.Wire.Received.{AnyBytes}
use rathena_client.Session.Fsm.Login.{AuthState}
use rathena_client.Session.Fsm.Map.{
  ReadyInfo, MapError, MapState, MapEnv, MapConfig, fsm_encode_packet_id, map_session,
}
use rathena_client.Session.Fsm.Map.Run.{
  MapEnd, no_info, hand_over, map_end, map_loop, created, map_started, map_written, map_dialed,
  run_map_phase,
}
use rathena_client.Session.Fsm.Map.Kept.{
  encode_packets, load_packets, Wrote, Kept, map_session-Keeps, quiet-Kept,
}

abbrev open_arrives :
    {Err : Type 0} (pv : ℕ)
    → Arrives {Err = Err} (map_table pv) map_recv_buf_initial (λ id data_. Unit) AnyBytes
open_arrives pv = record {
  cuts = λ rs. record {
    cut = λ bs id n b h. tt;
    rest = λ bs n b. tt;
    empty = λ bs b. tt;
    short = λ bs b. tt;
  };
  arrive = λ r rs bs b. tt;
}

-- The request to enter, and the two packets after the accept packet.
abbrev pub map_packets : ℕ → AuthState → List Bytes
map_packets pv auth =
    fsm_encode_map_login auth.account_id auth.char_id auth.session_id1 auth.sex pv ∷ load_packets pv

module _ {Err W V : Type 0} (timeout : Err) (clock : W → ℕ) (cfg : MapConfig Err W V) where
  -- At the end, from the connection `before` and the obfuscation `o` after the request to enter.
  record Finished (before : Conn Err) (o : ObfuscationState) (r : MapEnd Err W) : Type 0 where
    pub conn : Conn Err
    pub at : r.conn ≡ some conn
    pub kept : r.handed ≡ true → (r.error ≡ none) × (conn.closed ≡ before.closed)
    pub closed : r.handed ≡ false → conn.closed ≡ suc before.closed
    pub loaded :
        r.error ≡ none
        → conn.written ≡ before.written ++ (encode_packets o (load_packets cfg.packetver)).0

  failed-Finished :
      (before : Conn Err) (o : ObfuscationState) (err : MapError Err) (conn : Conn Err) (w : W)
      → conn.closed ≡ before.closed
      → Finished before o
          (record { conn = some (close conn); handed = false; world = w; error = some err })
  failed-Finished before o err conn w c = record {
    conn = close conn;
    at = refl;
    kept = λ q. absurd cc;
    closed = λ q. ap suc c;
    loaded = λ q. absurd cc;
  }

  hand_over-Finished :
      (before : Conn Err) (o : ObfuscationState)
      (f : Option (MapSession (MapEnv Err W) V → Conn Err → ReadyInfo → W → W))
      (s : MapSession (MapEnv Err W) V) (e : MapEnv Err W)
      → e.conn.closed ≡ before.closed
      → Wrote before o (load_packets cfg.packetver) e.conn e.state.o_state
      → Finished before o (hand_over f s e)
  unfolding hand_over
  hand_over-Finished before o none s e c h = record {
    conn = close e.conn;
    at = refl;
    kept = λ q. absurd cc;
    closed = λ q. ap suc c;
    loaded = λ q. h.written;
  }
  hand_over-Finished before o (some f) s e c h = record {
    conn = e.conn;
    at = refl;
    kept = λ q. (refl, c);
    closed = λ q. absurd cc;
    loaded = λ q. h.written;
  }

  map_end-Finished :
      (before : Conn Err) (o : ObfuscationState) (x : Option (StepError Err))
      (y : Option (MapError Err)) (f : Fed Err (MapState Err W) V (StepError Err))
      → (x ≡ none → f.env.state.done ≡ true)
      → f.env.state.err ≡ y
      → Kept cfg.packetver before o f.env
      → Finished before o (map_end timeout clock cfg x y f)
  unfolding map_end
  map_end-Finished before o (some err) y f d q h = failed-Finished before o _ f.env.conn _ h.closed
  map_end-Finished before o none (some err) f d q h =
      failed-Finished before o _ f.env.conn _ h.closed
  map_end-Finished before o none none f d q h =
      hand_over-Finished before o cfg.on_ready _ f.env h.closed (h.loaded (d refl) q)

  map_started-Finished :
      (reads : List (Read Err)) (conn : Conn Err) (o : ObfuscationState) (w : W)
      → Finished conn o
          (map_started timeout clock cfg reads conn (record (map_session cfg) { o_state = o }, w))
  unfolding map_started map_loop feed_until map_session register_handler new_map_session
  map_started-Finished reads conn o w =
      let start : MapState Err W = record {
        done = false;
        err = none;
        info = no_info;
        o_state = o;
        world = w;
      } in
      let e : MapEnv Err W = record { conn = conn; state = start } in
      let s : MapSession (MapEnv Err W) V = record (map_session cfg) { o_state = o } in
      let f = map_loop timeout clock cfg s reads conn w in
      let inv = Kept cfg.packetver conn o in
      let held : inv e = record {
        closed = refl;
        waiting = λ q. record { written = sym (append-nil conn.written); state = refl };
        loaded = λ q. absurd cc;
      } in
      let ended =
        rounds-Ended timeout (λ t. clock t.state.world) (λ err. err) (map_table cfg.packetver)
          map_recv_buf_initial (λ id data_. Unit) inv inv (λ t. t.state.done ≡ true) (λ err. Unit)
          (λ err. tt) AnyBytes (open_arrives cfg.packetver) _
          (until-Heads inv (λ t. t.state.done) (quiet-Kept cfg.packetver conn o)) reads s.core e
          (record {
            sound = refl;
            keeps = map_session-Keeps cfg.packetver conn o cfg refl;
            buffer = tt;
          })
          held in
      map_end-Finished conn o f.error f.env.state.err f ended.post refl ended.inv

  map_written-Finished :
      (reads : List (Read Err)) (x : Option Err) (conn : Conn Err) (o : ObfuscationState) (w : W)
      → cfg.on_map_session_created ≡ none
      → Finished conn o (map_written timeout clock cfg reads x conn o w)
  unfolding map_written
  map_written-Finished reads (some err) conn o w nil = failed-Finished conn o _ conn _ refl
  map_written-Finished reads none conn o w nil =
      let s : MapSession (MapEnv Err W) V = record (map_session cfg) { o_state = o } in
      let skip : created cfg.on_map_session_created s w ≡ (s, w) = ap (λ t. created t s w) nil in
      let same = ap (λ t. map_started timeout clock cfg reads conn t) skip in
      subst (λ t. Finished conn o t) (sym same) (map_started-Finished reads conn o w)

  map_written-sent :
      (reads : List (Read Err)) (x : Option Err) (conn : Conn Err) (o : ObfuscationState) (w : W)
      → (map_written timeout clock cfg reads x conn o w).error ≡ none
      → x ≡ none
  unfolding map_written
  map_written-sent reads (some err) conn o w h = absurd cc
  map_written-sent reads none conn o w h = refl

  -- Where the caller registers no handlers on the map session, the map phase closes the connection
  -- exactly once, or it hands the connection over as it was dialed, and then it returns no error.
  pub run_map_phase_closes :
      (d : Dialed Err) (map_addr : List ℕ) (auth : AuthState) (w : W)
      → cfg.on_map_session_created ≡ none
      → (cfg.dialer map_addr w).0 ≡ inr d
      → let r = run_map_phase timeout clock cfg map_addr auth w in
        (c : Conn Err) × (r.conn ≡ some c)
        × (r.handed ≡ true → (r.error ≡ none) × (c.closed ≡ d.conn.closed))
        × (r.handed ≡ false → c.closed ≡ suc d.conn.closed)
  unfolding run_map_phase map_dialed
  run_map_phase_closes d map_addr auth w nil dialed =
      let pkt =
        fsm_encode_map_login auth.account_id auth.char_id auth.session_id1 auth.sex cfg.packetver in
      let (o, wire) = fsm_encode_packet_id (map_session cfg).o_state pkt in
      let sent = write_deadline d.conn wire in
      let h = map_written-Finished d.reads sent.0 sent.1 o (cfg.dialer map_addr w).1 nil in
      let same = write_deadline-closed d.conn wire in
      rw dialed
        (h.conn, h.at, λ q. ((h.kept q).0, (h.kept q).1 ∙ same), λ q. h.closed q ∙ ap suc same)

  -- Where the caller registers no handlers on the map session, and the map phase returns no error, it
  -- has written the request to enter, the message that the map is loaded and the time request, in
  -- this order and nothing else, their packet ids encoded one after the other from the obfuscation of
  -- the new session on.
  pub run_map_phase_loads :
      (d : Dialed Err) (map_addr : List ℕ) (auth : AuthState) (w : W)
      → cfg.on_map_session_created ≡ none
      → (cfg.dialer map_addr w).0 ≡ inr d
      → (run_map_phase timeout clock cfg map_addr auth w).error ≡ none
      → (c : Conn Err) × ((run_map_phase timeout clock cfg map_addr auth w).conn ≡ some c)
        × (c.written
            ≡ d.conn.written
              ++ (encode_packets (map_session cfg).o_state (map_packets cfg.packetver auth)).0)
  unfolding run_map_phase map_dialed
  run_map_phase_loads d map_addr auth w nil dialed =
      let pkt =
        fsm_encode_map_login auth.account_id auth.char_id auth.session_id1 auth.sex cfg.packetver in
      let (o, wire) = fsm_encode_packet_id (map_session cfg).o_state pkt in
      let sent = write_deadline d.conn wire in
      let w' = (cfg.dialer map_addr w).1 in
      let h = map_written-Finished d.reads sent.0 sent.1 o w' nil in
      rw dialed (λ fine.
        let ok = map_written-sent d.reads sent.0 sent.1 o w' fine in
        (
          h.conn,
          h.at,
          h.loaded fine
              ∙ ap (λ t. t ++ (encode_packets o (load_packets cfg.packetver)).0)
                  (write_deadline-written d.conn wire ok)
              ∙ append_assoc d.conn.written (wire ∷ [])
                  (encode_packets o (load_packets cfg.packetver)).0,
        ))
