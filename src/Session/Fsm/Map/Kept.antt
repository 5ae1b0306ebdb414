-- ===== src/Session/Fsm/Map/Kept.antt =====
-- What the handlers of the map phase keep: the packets that the phase has written.
use rathena_client.Shared.{
  get_or, ℕ, ◌≡◌, refl, ap, ◌∙◌, Bool, true, false, Option, none, some, List, [], ◌∷◌, ◌++◌,
  append_assoc, append-nil, ◌==◌, if◌then◌else◌, leb, length, Bytes,
}
use rathena_client.Packing.{PosDir}
use rathena_client.Session.Core.{HandlerFunc}
use rathena_client.Session.Core.Callbacks.{Keeps, handled_by, by_test}
use rathena_client.Session.Lengths.Laws.{map_table}
use rathena_client.Session.Servers.{
  ObfuscationState, new_map_session, register_handler, map_recv_buf_initial,
}
use rathena_client.Session.Fsm.Packets.{
  fsm_encode_map_loaded, fsm_encode_time_sync_response, zc_accept_enter_id,
}
use rathena_client.Session.Fsm.Wire.{Conn, set_deadline}
use rathena_client.Session.Fsm.Wire.Write.{write_deadline-closed, write_deadline-written}
use rathena_client.Session.Fsm.Login.{NotifyInfo, phase_map, notify}
use rathena_client.Session.Fsm.Map.{
  map_ban, MapError, MapEnv, MapConfig, fsm_encode_packet_id, fail_map, on_map_refused, on_map_ban,
  read_enter, take_enter, send_encoded, tick_sent, loaded_sent, waited, on_map_enter, map_session,
}

-- The packets on the wire, and the state after them.
abbrev pub encode_packets : ObfuscationState → List Bytes → List Bytes × ObfuscationState
encode_packets o [] = ([], o)
encode_packets o (p ∷ ps) =
    let (o', wire) = fsm_encode_packet_id o p in
    let (wires, last) = encode_packets o' ps in (wire ∷ wires, last)

-- What the handler of the accept packet sends.
abbrev pub load_packets : ℕ → List Bytes
load_packets pv = fsm_encode_map_loaded ∷ fsm_encode_time_sync_response pv ∷ []

-- The packets `ps` are written since `before`, where the obfuscation was `o`.
pub record Wrote {Err : Type 0} (before : Conn Err) (o : ObfuscationState) (ps : List Bytes)
    (conn : Conn Err) (last : ObfuscationState) : Type 0 where
  pub written : conn.written ≡ before.written ++ (encode_packets o ps).0
  pub state : last ≡ (encode_packets o ps).1

module _ {Err W : Type 0} (packetver : ℕ) (before : Conn Err) (o : ObfuscationState) where
  -- Until the flag is set, nothing is written, and with no error left, both packets.
  pub record Kept (e : MapEnv Err W) : Type 0 where
    pub closed : e.conn.closed ≡ before.closed
    pub waiting : e.state.done ≡ false → Wrote before o [] e.conn e.state.o_state
    pub loaded :
        e.state.done ≡ true
        → e.state.err ≡ none
        → Wrote before o (load_packets packetver) e.conn e.state.o_state

  fail_map-Kept :
      (err : MapError Err) (e : MapEnv Err W)
      → e.conn.closed ≡ before.closed
      → Kept (record e { state = fail_map err e.state })
  unfolding fail_map
  fail_map-Kept err e c = record { closed = c; waiting = λ q. absurd cc; loaded = λ d q. absurd cc }

  read_enter-Kept :
      (data_ : Bytes) (pos : Option PosDir) (e : MapEnv Err W)
      → e.conn.closed ≡ before.closed
      → Wrote before o (load_packets packetver) e.conn e.state.o_state
      → Kept (record e { state = read_enter data_ pos e.state })
  unfolding read_enter
  read_enter-Kept data_ none e c h = fail_map-Kept _ e c
  read_enter-Kept data_ (some pos) e c h = record {
    closed = c;
    waiting = λ q. absurd cc;
    loaded = λ d q. record { written = h.written; state = h.state };
  }

  tick_sent-Kept :
      (failed : Option Err) (data_ : Bytes) (e : MapEnv Err W)
      → e.conn.closed ≡ before.closed
      → (failed ≡ none → Wrote before o (load_packets packetver) e.conn e.state.o_state)
      → Kept (tick_sent failed data_ e)
  unfolding tick_sent take_enter
  tick_sent-Kept (some err) data_ e c h = fail_map-Kept _ e c
  tick_sent-Kept none data_ e c h = read_enter-Kept data_ _ e c (h refl)

  loaded_sent-Kept :
      (failed : Option Err) (data_ : Bytes) (e : MapEnv Err W)
      → e.conn.closed ≡ before.closed
      → (failed ≡ none → Wrote before o (fsm_encode_map_loaded ∷ []) e.conn e.state.o_state)
      → Kept (loaded_sent packetver failed data_ e)
  unfolding loaded_sent send_encoded
  loaded_sent-Kept (some err) data_ e c h = fail_map-Kept _ e c
  loaded_sent-Kept none data_ e c h =
      let tick = fsm_encode_time_sync_response packetver in
      let o1 = (fsm_encode_packet_id o fsm_encode_map_loaded).0 in
      let one = (fsm_encode_packet_id o fsm_encode_map_loaded).1 in
      let at : e.state.o_state ≡ o1 = (h refl).state in
      let wire = (fsm_encode_packet_id e.state.o_state tick).1 in
      tick_sent-Kept _ data_ _ (write_deadline-closed e.conn wire ∙ c) (λ ok. record {
        written =
            write_deadline-written e.conn wire ok
            ∙ ap (λ t. t ++ wire ∷ []) (h refl).written
            ∙ append_assoc before.written (one ∷ []) (wire ∷ [])
            ∙ ap (λ t. before.written ++ one ∷ (fsm_encode_packet_id t tick).1 ∷ []) at;
        state = ap (λ t. (fsm_encode_packet_id t tick).0) at;
      })

  waited-Kept :
      (failed : Option Err) (data_ : Bytes) (e : MapEnv Err W)
      → e.conn.closed ≡ before.closed
      → Wrote before o [] e.conn e.state.o_state
      → Kept (waited packetver failed data_ e)
  unfolding waited send_encoded
  waited-Kept (some err) data_ e c h = fail_map-Kept _ e c
  waited-Kept none data_ e c h =
      let load = fsm_encode_map_loaded in
      let wire = (fsm_encode_packet_id e.state.o_state load).1 in
      loaded_sent-Kept _ data_ _ (write_deadline-closed e.conn wire ∙ c) (λ ok. record {
        written =
            write_deadline-written e.conn wire ok
            ∙ ap (λ t. t ++ wire ∷ []) (h.written ∙ append-nil before.written)
            ∙ ap (λ t. before.written ++ (fsm_encode_packet_id t load).1 ∷ []) h.state;
        state = ap (λ t. (fsm_encode_packet_id t load).0) h.state;
      })

  on_map_enter-Kept :
      {V : Type 0} (cfg : MapConfig Err W V) (data_ : Bytes) (pv : ℕ) (e : MapEnv Err W)
      → cfg.packetver ≡ packetver
      → Kept e
      → Kept (on_map_enter cfg data_ pv e)
  unfolding on_map_enter
  on_map_enter-Kept cfg data_ pv e same h =
      by_test Kept e.state.done e _ (λ over. h)
        (λ on. rw (same) (waited-Kept _ data_ _ h.closed (h.waiting on)))

  on_map_ban-Kept :
      (on_server_notify : Option (NotifyInfo → W → W)) (data_ : Bytes) (pv : ℕ) (e : MapEnv Err W)
      → Kept e
      → Kept (on_map_ban on_server_notify data_ pv e)
  unfolding on_map_ban
  on_map_ban-Kept on_server_notify data_ pv e h =
      let code = if leb 3 (length data_) then get_or data_ 2 0 else 0 in
      let w = notify on_server_notify (record { phase = phase_map; code = code }) e.state.world in
      fail_map-Kept (map_ban code) (record e { state = record (e.state) { world = w } }) h.closed

  handled_by_if :
      (b : Bool) (f : HandlerFunc (MapEnv Err W)) (o : Option (HandlerFunc (MapEnv Err W)))
      (data_ : Bytes) (pv : ℕ) (e : MapEnv Err W)
      → Kept (f data_ pv e)
      → Kept (handled_by o data_ pv e)
      → Kept (handled_by (if b then some f else o) data_ pv e)
  handled_by_if true f o data_ pv e p q = p
  handled_by_if false f o data_ pv e p q = q

  pub map_session-Keeps :
      {V : Type 0} (cfg : MapConfig Err W V)
      → cfg.packetver ≡ packetver
      → Keeps
          (map_table cfg.packetver)
          map_recv_buf_initial
          (λ id data_. Unit)
          Kept
          (map_session cfg).core
  unfolding map_session register_handler new_map_session on_map_refused on_map_ban
  map_session-Keeps cfg same = record {
    table = refl;
    room = refl;
    traced = λ ev e p. p;
    reported = λ ev e p. p;
    handled = λ id data_ pv e from h.
        handled_by_if (id == zc_accept_enter_id cfg.packetver) _ _ data_ pv e
          (on_map_enter-Kept cfg data_ pv e same h)
          (handled_by_if (id == 0x0081) _ _ data_ pv e
            (on_map_ban-Kept cfg.on_server_notify data_ pv e h)
            (handled_by_if (id == 0x0074) _ _ data_ pv e (fail_map-Kept _ e h.closed)
              (handled_by_if (id == 0x0283) _ _ data_ pv e h h)));
  }

  pub quiet-Kept : (e : MapEnv Err W) → Kept e → Kept (record e { conn = (set_deadline e.conn).1 })
  unfolding set_deadline
  quiet-Kept e h = record {
    closed = h.closed;
    waiting = λ q. record { written = (h.waiting q).written; state = (h.waiting q).state };
    loaded = λ d q. record { written = (h.loaded d q).written; state = (h.loaded d q).state };
  }
