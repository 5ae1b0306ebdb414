-- ===== src/Session/Fsm/Char/Tests.antt =====
-- Runs of the char phase, and its theorems at concrete inputs.
use rathena_client.Shared.{
  ℕ, suc, ◌≡◌, ◌≢◌, refl, arith, false, none, some, List, [], ◌∷◌, ◌++◌, drop, replicate, Bytes,
  inl, inr, Option,
}
use rathena_client.Session.Core.{feed, next_frame, deliver}
use rathena_client.Session.Lengths.{populate_char_lengths}
use rathena_client.Session.Fsm.Packets.{fsm_encode_char_login, fsm_encode_request_character_page}
use rathena_client.Session.Fsm.Wire.{Read, Conn, Dialed}
use rathena_client.Session.Fsm.Wire.Received.{bytes_of, Received}
use rathena_client.Session.Fsm.Login.{AuthState}
use rathena_client.Session.Fsm.Char.{CharChoice, decode_panic}
use rathena_client.Session.Fsm.Char.Run.{address, CharConfig, CharResult, run_char_phase}
use rathena_client.Session.Fsm.Char.Kept.{Zone}
use rathena_client.Session.Lengths.CharTable.{char_table}
use rathena_client.Session.Fsm.Char.Outcomes.{enter_packet}
use rathena_client.Session.Fsm.Char.Contract.{
  EnterThen, run_char_phase_closes, run_char_phase_asks, run_char_phase_unselected,
  run_char_phase-Zone,
}

abbrev one_read : Bytes → Read ℕ
one_read bs = record { bytes = bs; error = none }

-- A character list without characters, and the zone packet for 127.0.0.1:5121.
abbrev list_bytes : Bytes
list_bytes = 0x6B ∷ 0 ∷ 27 ∷ 0 ∷ replicate 23 0

abbrev zone_bytes : Bytes
zone_bytes =
    0x81 ∷ 0 ∷ 42 ∷ 0 ∷ 0 ∷ 0 ∷ (97 ∷ 46 ∷ 103 ∷ 97 ∷ 116 ∷ replicate 11 0)
    ++ (127 ∷ 0 ∷ 0 ∷ 1 ∷ 1 ∷ 20 ∷ [])

-- The echo comes with the first packet, and the zone packet in two reads.
abbrev server : Dialed ℕ
server = record {
  conn = record { replies = []; written = []; closed = 0 };
  reads =
      one_read ((1 ∷ 2 ∷ 3 ∷ 4 ∷ []) ++ list_bytes)
      ∷ one_read (0x81 ∷ 0 ∷ [])
      ∷ one_read (drop 2 zone_bytes)
      ∷ [];
}

abbrev choice : ℕ → CharChoice ℕ
choice pv = record {
  packetver = pv;
  char_slot = 2;
  on_server_notify = none;
  on_slot_info = none;
  on_char_list = none;
}

abbrev config : CharConfig ℕ ℕ
config = record { choice = choice 20120000; dialer = λ a w. (inr server, w); on_identity = none }

abbrev logged_in : AuthState
logged_in = record { account_id = 5; session_id1 = 6; session_id2 = 7; sex = 1; char_id = 0 }

abbrev run : CharResult ℕ ℕ
run = run_char_phase ℕ 9 (λ e. e) (λ w. w) config [] logged_in 0

abbrev packets : Option (Conn ℕ) → List Bytes
packets none = []
packets (some c) = c.written

found_run : run.result ≡ inr (127 ∷ 0 ∷ 0 ∷ 1 ∷ 5121 ∷ [])
unfolding run_char_phase feed next_frame populate_char_lengths deliver
found_run = refl

found_asks : packets run.conn ≡ enter_packet logged_in ∷ fsm_encode_char_login 2 ∷ []
unfolding run_char_phase feed next_frame populate_char_lengths deliver
found_asks = refl

-- A newer server, that says that there is one character, and sends its page.
abbrev new_server : Dialed ℕ
new_server = record {
  conn = record { replies = []; written = []; closed = 0 };
  reads =
      one_read (1 ∷ 2 ∷ 3 ∷ 4 ∷ [])
      ∷ one_read (0xA0 ∷ 9 ∷ 1 ∷ 0 ∷ 0 ∷ 0 ∷ [])
      ∷ one_read (0x72 ∷ 0x0B ∷ 8 ∷ 0 ∷ 1 ∷ 1 ∷ 1 ∷ 1 ∷ [])
      ∷ [];
}

abbrev new_config : CharConfig ℕ ℕ
new_config = record {
  choice = choice 20210000;
  dialer = λ a w. (inr new_server, w);
  on_identity = none;
}

unselected_asks :
    packets (run_char_phase ℕ 9 (λ e. e) (λ w. w) new_config [] logged_in 0).conn
    ≡ enter_packet logged_in ∷ fsm_encode_request_character_page ∷ []
unfolding run_char_phase feed next_frame populate_char_lengths deliver
unselected_asks = refl

run_char_phase_closes_example :
    (run.result ≢ inl decode_panic)
    × (c : Conn ℕ) × (run.conn ≡ some c)
    × (c.closed ≡ suc server.conn.closed)
run_char_phase_closes_example =
    run_char_phase_closes ℕ 9 (λ e. e) (λ w. w) config server [] logged_in 0 refl

run_char_phase_asks_example :
    (c : Conn ℕ) × (run.conn ≡ some c) × EnterThen (λ flag. Unit) logged_in server.conn c
run_char_phase_asks_example =
    run_char_phase_asks ℕ 9 (λ e. e) (λ w. w) config server [] logged_in 0 refl

run_char_phase_unselected_example :
    (c : Conn ℕ) × ((run_char_phase ℕ 9 (λ e. e) (λ w. w) new_config [] logged_in 0).conn ≡ some c)
    × EnterThen (λ flag. flag ≡ false) logged_in new_server.conn c
run_char_phase_unselected_example =
    run_char_phase_unselected ℕ 9 (λ e. e) (λ w. w) new_config new_server [] logged_in 0
      (omega arith) refl

run_char_phase-Zone_example :
    (ip : ℕ) × (port : ℕ) × Zone
      (Received (drop 4 (bytes_of server.reads)) (char_table 20120000))
      20120000
      run.auth.char_id
      ip
      port
    × ((127 ∷ 0 ∷ 0 ∷ 1 ∷ 5121 ∷ []) ≡ address ip port)
run_char_phase-Zone_example =
    run_char_phase-Zone ℕ 9 (λ e. e) (λ w. w) config server [] logged_in 0
      (127 ∷ 0 ∷ 0 ∷ 1 ∷ 5121 ∷ []) refl (omega arith) found_run
