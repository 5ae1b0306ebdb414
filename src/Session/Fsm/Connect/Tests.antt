-- ===== src/Session/Fsm/Connect/Tests.antt =====
-- A connection whose caller picks a server that is not in the list.
use rathena_client.Shared.{
  ℕ, ◌+◌, ◌≡◌, refl, none, some, [], ◌∷◌, ◌++◌, replicate, pos, inl, inr, ◌⊎◌, Bytes,
}
use rathena_client.Session.Core.{feed, next_frame, deliver}
use rathena_client.Session.Lengths.{populate_login_lengths}
use rathena_client.Session.Fsm.LoginAccept.{parse_login_accept, parse_server}
use rathena_client.Session.Fsm.Wire.{Dialed}
use rathena_client.Session.Fsm.Connect.{
  ConnectionFsm, Target, login_addr, host, out_of_range, connect,
}
use rathena_client.Session.Fsm.Connect.Safe.{Calm, connect-Calm}

-- The accept packet of one server.
abbrev accept_bytes : Bytes
accept_bytes =
    (0x69 ∷ 0 ∷ 79 ∷ 0 ∷ 77 ∷ 0 ∷ 0 ∷ 0 ∷ 5 ∷ 0 ∷ 0 ∷ 0 ∷ 88 ∷ 0 ∷ 0 ∷ 0 ∷ [])
    ++ (replicate 30 0
        ++ (1 ∷ 127 ∷ 0 ∷ 0 ∷ 1 ∷ 233 ∷ 23 ∷ 80 ∷ [])
        ++ replicate 19 0
        ++ (12 ∷ 0 ∷ 0 ∷ 0 ∷ 0 ∷ 0 ∷ []))

abbrev dial : Target → ℕ → (ℕ ⊎ Dialed ℕ) × ℕ
dial login_addr w = (
  inr (record {
    conn = record { replies = []; written = []; closed = 0 };
    reads = record { bytes = accept_bytes; error = none } ∷ [];
  }),
  w,
)
dial (host a) w = (inl 7, w)

abbrev client : ConnectionFsm ℕ ℕ ℕ
client = record {
  packetver = 20120000;
  map_load_delay = 0;
  username = 97 ∷ [];
  password = 98 ∷ [];
  char_slot = 0;
  dialer = dial;
  wait = λ w. (none, w);
  on_char_server_list = some (λ servers w. (pos 1, w));
  on_char_list = none;
  on_slot_info = none;
  on_map_session_created = none;
  on_ready = none;
  on_failed = some (λ phase err w. w + 1);
  on_server_notify = none;
  on_identity = none;
}

picked_outside : (connect 9 (λ e. e) (λ w. w) client 0).error ≡ some (out_of_range (pos 1) 1)
unfolding connect feed next_frame populate_login_lengths deliver parse_login_accept parse_server
picked_outside = refl

connect-Calm_example : Calm (connect 9 (λ e. e) (λ w. w) client 0).error
connect-Calm_example = connect-Calm 9 (λ e. e) (λ w. w) client 0
