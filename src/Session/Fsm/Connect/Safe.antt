-- ===== src/Session/Fsm/Connect/Safe.antt =====
-- Panics that no connection meets.
use rathena_client.Shared.{
  ℕ, ◌≡◌, ◌≢◌, refl, arith, Option, none, some, List, length, get_elem?_lt, leb, ℤ, pos, negsuc,
  ◌⊎◌, inl, inr,
}
use rathena_client.Session.Core.Callbacks.{by_test}
use rathena_client.Session.Fsm.LoginAccept.{CharServerInfo}
use rathena_client.Session.Fsm.Wire.{Dialed}
use rathena_client.Session.Fsm.Login.{
  AuthState, LoginError, LoginResult, LoginConfig, parse_panic, login_dialed, run_login_phase,
}
use rathena_client.Session.Fsm.Login.Outcomes.{run_login_phase_closes}
use rathena_client.Session.Fsm.Char.{CharError, decode_panic}
use rathena_client.Session.Fsm.Char.Run.{
  address, CharConfig, CharResult, char_dialed, run_char_phase,
}
use rathena_client.Session.Fsm.Char.Contract.{run_char_phase_closes}
use rathena_client.Session.Fsm.Map.{MapError}
use rathena_client.Session.Fsm.Connect.{
  PhaseError, in_login, out_of_range, index_panic, in_char, ConnectionFsm, ConnectEnd, no_auth,
  chosen_server, login_part, char_part, after_char, after_index, after_login, connect_phases,
  reported, connect, map_error,
}

-- The error is no panic of the accept parser, of the index into the servers, or of the decoder of the
-- character list.
pub record Calm {Err : Type 0} (o : Option (PhaseError Err)) : Type 0 where
  pub parser : o ≢ some (in_login parse_panic)
  pub index : o ≢ some index_panic
  pub decoder : o ≢ some (in_char decode_panic)

module _ {Err W : Type 0} where
  login_no_panic :
      (V : Type 0) (timeout : Err) (clock : W → ℕ) (cfg : LoginConfig Err W) (auth : AuthState)
      (w : W) (x : Err ⊎ Dialed Err)
      → (cfg.dialer w).0 ≡ x
      → (run_login_phase V timeout clock cfg auth w).result ≢ inl parse_panic
  unfolding run_login_phase login_dialed
  login_no_panic V timeout clock cfg auth w (inl err) p = rw p (λ q. cc)
  login_no_panic V timeout clock cfg auth w (inr d) p =
      (run_login_phase_closes V timeout clock cfg d auth w p).0

  char_no_panic :
      (V : Type 0) (timeout : Err) (cut_short : Err → Err) (clock : W → ℕ) (cfg : CharConfig Err W)
      (addr : List ℕ) (auth : AuthState) (w : W) (x : Err ⊎ Dialed Err)
      → (cfg.dialer addr w).0 ≡ x
      → (run_char_phase V timeout cut_short clock cfg addr auth w).result ≢ inl decode_panic
  unfolding run_char_phase char_dialed
  char_no_panic V timeout cut_short clock cfg addr auth w (inl err) p = rw p (λ q. cc)
  char_no_panic V timeout cut_short clock cfg addr auth w (inr d) p =
      (run_char_phase_closes V timeout cut_short clock cfg d addr auth w p).0

module _ {Err : Type 0} where
  abbrev CalmLeft : PhaseError Err ⊎ CharServerInfo → Type 0
  CalmLeft x = (err : PhaseError Err) → x ≡ inl err → Calm (some err)

  out_of_range-Calm : (idx : ℤ) (have : ℕ) → CalmLeft (inl (out_of_range idx have))
  out_of_range-Calm idx have err q =
      let same : out_of_range idx have ≡ err = cc in
      rw (← same) (record { parser = λ r. cc; index = λ r. cc; decoder = λ r. cc })

  -- The test of the index keeps the list from being indexed out of range.
  chosen_server-CalmLeft :
      (idx : ℤ) (servers : List CharServerInfo) → CalmLeft (chosen_server idx servers)
  unfolding chosen_server
  chosen_server-CalmLeft (negsuc n) servers = out_of_range-Calm (negsuc n) (length servers)
  chosen_server-CalmLeft (pos i) servers =
      by_test CalmLeft (leb (length servers) i) _ _
        (λ out. out_of_range-Calm (pos i) (length servers))
        (λ inside.
          let (server, at) = get_elem?_lt servers i (ground arith) in rw at (λ err q. absurd cc))

module _ {Err W V : Type 0} (timeout : Err) (cut_short : Err → Err) (clock : W → ℕ)
    (f : ConnectionFsm Err W V) where
  map_error-Calm : (o : Option (MapError Err)) → Calm (map_error timeout cut_short clock f o)
  map_error-Calm none = record { parser = λ q. cc; index = λ q. cc; decoder = λ q. cc }
  map_error-Calm (some err) = record { parser = λ q. cc; index = λ q. cc; decoder = λ q. cc }

  after_char-Calm :
      (r : CharResult Err W) (x : CharError Err ⊎ List ℕ)
      → x ≢ inl decode_panic
      → Calm (after_char timeout cut_short clock f r x).error
  unfolding after_char
  after_char-Calm r (inl err) ne = record {
    parser = λ q. cc;
    index = λ q. cc;
    decoder = λ q. ne cc;
  }
  after_char-Calm r (inr addr) ne = map_error-Calm _

  after_index-Calm :
      (r : LoginResult Err W) (x : PhaseError Err ⊎ CharServerInfo)
      → ((err : PhaseError Err) → x ≡ inl err → Calm (some err))
      → Calm (after_index timeout cut_short clock f r x).error
  unfolding after_index
  after_index-Calm r (inl err) ok = ok err refl
  after_index-Calm r (inr server) ok =
      let addr = address server.ip server.port in
      let part = char_part timeout cut_short clock f in
      let c = run_char_phase V timeout cut_short clock part addr r.auth r.world in
      after_char-Calm c c.result (
        char_no_panic V timeout cut_short clock part addr r.auth r.world
          (part.dialer addr r.world).0 refl)

  after_login-Calm :
      (r : LoginResult Err W) (x : LoginError Err ⊎ (List CharServerInfo × ℤ))
      → x ≢ inl parse_panic
      → Calm (after_login timeout cut_short clock f r x).error
  unfolding after_login
  after_login-Calm r (inl err) ne = record {
    parser = λ q. ne cc;
    index = λ q. cc;
    decoder = λ q. cc;
  }
  after_login-Calm r (inr (servers, idx)) ne =
      after_index-Calm r _ (chosen_server-CalmLeft idx servers)

  reported-error :
      (r : ConnectEnd Err W) (o : Option (PhaseError Err))
      → Calm o
      → r.error ≡ o
      → Calm (reported timeout cut_short clock f r o).error
  unfolding reported
  reported-error r none h q = rw q h
  reported-error r (some err) h q = h

  -- Whatever the dialer, the servers and the callbacks do, the error of a connection is neither a
  -- read out of range in the accept packet, nor one in the character list, nor an index out of range
  -- into the list of character servers, for any index that the caller picks.
  pub connect-Calm : (w : W) → Calm (connect timeout cut_short clock f w).error
  unfolding connect connect_phases
  connect-Calm w =
      let part = login_part timeout cut_short clock f in
      let l = run_login_phase V timeout clock part no_auth w in
      let r = after_login timeout cut_short clock f l l.result in
      reported-error r r.error
        (after_login-Calm l l.result
          (login_no_panic V timeout clock part no_auth w (part.dialer w).0 refl))
        refl
