-- ===== src/Session/Fsm/Map/Tests.antt =====
-- Runs of the map phase, and its theorems at concrete inputs.
use rathena_client.Shared.{ℕ, ◌≡◌, refl, true, false, none, some, [], ◌∷◌, ◌++◌, inr}
use rathena_client.Session.Core.{feed, next_frame, deliver}
use rathena_client.Session.Lengths.{populate_map_lengths}
use rathena_client.Session.Lengths.Overrides.{apply_map_length_overrides}
use rathena_client.Session.Fsm.Wire.{Conn, Dialed}
use rathena_client.Session.Fsm.Login.{AuthState}
use rathena_client.Session.Fsm.Map.{MapConfig, map_session}
use rathena_client.Session.Servers.Keys.{IsKeys, obfuscation_keys_for}
use rathena_client.Session.Fsm.Map.Obfuscated.{listed, obfuscated_versions, map_session-enabled}
use rathena_client.Session.Fsm.Map.Run.{MapEnd, run_map_phase}
use rathena_client.Session.Fsm.Map.Kept.{encode_packets}
use rathena_client.Session.Fsm.Map.Contract.{map_packets, run_map_phase_closes, run_map_phase_loads}

-- The accept packet at (100, 50), in two reads.
abbrev server : Dialed ℕ
server = record {
  conn = record { replies = []; written = []; closed = 0 };
  reads =
      record { bytes = 0xEB ∷ 2 ∷ 1 ∷ 0 ∷ 0 ∷ 0 ∷ 25 ∷ 3 ∷ 32 ∷ []; error = none }
      ∷ record { bytes = 5 ∷ 5 ∷ 2 ∷ 0 ∷ []; error = none }
      ∷ [];
}

-- The caller keeps the column that it is told.
abbrev config : MapConfig ℕ ℕ ℕ
config = record {
  packetver = 20120000;
  map_load_delay = 0;
  wait = λ w. (none, w);
  dialer = λ a w. (inr server, w);
  on_server_notify = none;
  on_map_session_created = none;
  on_ready = some (λ s conn info w. info.x);
}

abbrev chosen : AuthState
chosen = record { account_id = 5; session_id1 = 6; session_id2 = 7; sex = 1; char_id = 42 }

abbrev run : MapEnd ℕ ℕ
run = run_map_phase 9 (λ w. w) config [] chosen 0

run_error : run.error ≡ none
unfolding run_map_phase feed next_frame deliver populate_map_lengths apply_map_length_overrides
run_error = refl

run_world : run.world ≡ 100
unfolding run_map_phase feed next_frame deliver populate_map_lengths apply_map_length_overrides
run_world = refl

run_map_phase_closes_example :
    (c : Conn ℕ) × (run.conn ≡ some c)
    × (run.handed ≡ true → (run.error ≡ none) × (c.closed ≡ 0))
    × (run.handed ≡ false → c.closed ≡ 1)
run_map_phase_closes_example = run_map_phase_closes 9 (λ w. w) config server [] chosen 0 refl refl

run_map_phase_loads_example :
    (c : Conn ℕ) × (run.conn ≡ some c)
    × (c.written
        ≡ [] ++ (encode_packets (map_session config).o_state (map_packets 20120000 chosen)).0)
run_map_phase_loads_example =
    run_map_phase_loads 9 (λ w. w) config server [] chosen 0 refl refl run_error

abbrev shuffled_config : MapConfig ℕ ℕ ℕ
shuffled_config = record config { packetver = 20180307 }

map_session-enabled_example :
    ((map_session shuffled_config).o_state.enabled ≡ listed 20180307 obfuscated_versions)
    × IsKeys 20180307 (obfuscation_keys_for 20180307)
map_session-enabled_example = map_session-enabled shuffled_config

shuffled_listed : listed 20180307 obfuscated_versions ≡ true
shuffled_listed = refl
