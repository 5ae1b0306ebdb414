-- ===== src/Session/Fsm/Login/Tests.antt =====
-- A login phase that is accepted, and the theorems on it.
use rathena_client.Shared.{
  ℕ, suc, ◌≡◌, ◌≢◌, refl, arith, none, some, [], ◌∷◌, ◌++◌, replicate, Bytes, pos, inl, inr,
}
use rathena_client.Session.Core.{feed, next_frame, deliver}
use rathena_client.Session.Lengths.{no_lengths, populate_login_lengths}
use rathena_client.Session.Fsm.LoginAccept.{CharServerInfo, parse_login_accept, parse_server}
use rathena_client.Session.Fsm.Packets.{fsm_encode_master_login}
use rathena_client.Session.Fsm.Wire.{Conn, Dialed}
use rathena_client.Session.Fsm.Wire.Received.{bytes_of, Received}
use rathena_client.Session.Fsm.Login.{AuthState, LoginConfig, parse_panic, run_login_phase}
use rathena_client.Session.Fsm.Login.Outcomes.{
  run_login_phase_closes, run_login_phase_asks, run_login_phase-Accepted,
}
use rathena_client.Session.Fsm.Login.Accepted.{Accepted}

-- The accept packet of one server, in two reads.
abbrev front_bytes : Bytes
front_bytes =
    (0x69 ∷ 0 ∷ 79 ∷ 0 ∷ 77 ∷ 0 ∷ 0 ∷ 0 ∷ 5 ∷ 0 ∷ 0 ∷ 0 ∷ 88 ∷ 0 ∷ 0 ∷ 0 ∷ []) ++ replicate 30 0

abbrev back_bytes : Bytes
back_bytes =
    (1 ∷ 127 ∷ 0 ∷ 0 ∷ 1 ∷ 233 ∷ 23 ∷ 80 ∷ []) ++ replicate 19 0 ++ (12 ∷ 0 ∷ 0 ∷ 0 ∷ 0 ∷ 0 ∷ [])

abbrev server : Dialed ℕ
server = record {
  conn = record { replies = []; written = []; closed = 0 };
  reads =
      record { bytes = front_bytes; error = none }
      ∷ record { bytes = back_bytes; error = none }
      ∷ [];
}

abbrev config : LoginConfig ℕ ℕ
config = record {
  packetver = 20120000;
  username = 97 ∷ [];
  password = 98 ∷ [];
  dialer = λ w. (inr server, w);
  on_server_notify = none;
  on_char_server_list = none;
}

abbrev fresh : AuthState
fresh = record { account_id = 0; session_id1 = 0; session_id2 = 0; sex = 0; char_id = 0 }

abbrev local_server : CharServerInfo
local_server = record { ip = 0x7F000001; port = 6121; name = 80 ∷ []; users = 12 }

accepted_run : (run_login_phase ℕ 9 (λ w. w) config fresh 0).result ≡ inr (local_server ∷ [], pos 0)
unfolding run_login_phase feed next_frame populate_login_lengths deliver parse_login_accept
    parse_server
accepted_run = refl

run_login_phase_closes_example :
    let r = run_login_phase ℕ 9 (λ w. w) config fresh 0 in
    (r.result ≢ inl parse_panic)
    × (c : Conn ℕ) × (r.conn ≡ some c)
    × (c.closed ≡ suc server.conn.closed)
run_login_phase_closes_example = run_login_phase_closes ℕ 9 (λ w. w) config server fresh 0 refl

run_login_phase_asks_example :
    (c : Conn ℕ) × ((run_login_phase ℕ 9 (λ w. w) config fresh 0).conn ≡ some c)
    × (c.written ≡ server.conn.written ++ fsm_encode_master_login 20120000 (97 ∷ []) (98 ∷ []) ∷ [])
run_login_phase_asks_example =
    run_login_phase_asks ℕ 9 (λ w. w) config server fresh 0 (local_server ∷ []) (pos 0) refl
      accepted_run

run_login_phase-Accepted_example :
    Accepted
      (Received (bytes_of server.reads) (populate_login_lengths 20120000 no_lengths))
      20120000
      (run_login_phase ℕ 9 (λ w. w) config fresh 0).auth
      (local_server ∷ [])
run_login_phase-Accepted_example =
    run_login_phase-Accepted ℕ 9 (λ w. w) config server fresh 0 (local_server ∷ []) (pos 0) refl
      (omega arith) accepted_run
