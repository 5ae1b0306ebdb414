-- ===== src/Session/Fsm/Char/Contract.antt =====
-- What the char phase promises.
use rathena_client.Shared.{
  ℕ, suc, ◌≤◌, ◌≡◌, ◌≢◌, ◌⊎◌, sym, ap, ◌∙◌, Bool, false, List, [], ◌∷◌, ◌++◌, length, drop,
  drop-length_append, inl, inr, Bytes, some, pos,
}
use rathena_client.Session.Servers.{char_recv_buf_initial}
use rathena_client.Session.Fsm.Wire.{Conn, Dialed}
use rathena_client.Session.Fsm.Wire.Received.{
  AnyBytes, any_arrives, bytes_of, Received, EndOf, Received-arrives,
}
use rathena_client.Session.Fsm.Login.{AuthState}
use rathena_client.Session.Fsm.Char.{decode_panic}
use rathena_client.Session.Fsm.Char.Run.{address, CharConfig, run_char_phase}
use rathena_client.Session.Fsm.Char.Asks.{Asks}
use rathena_client.Session.Fsm.Char.Kept.{Zone}
use rathena_client.Session.Lengths.Laws.{no_ones-of_IsLength}
use rathena_client.Session.Lengths.CharTable.{char_table, char_table-IsLength}
use rathena_client.Session.Core.Frames.{IsFrame}
use rathena_client.Session.Fsm.Char.Outcomes.{enter_packet}
use rathena_client.Session.Fsm.Char.Ends.{Ran, read_full-Took, run_char_phase-Ran}

-- Nothing is written, or the request to enter, and then requests of pages, with one request of a slot
-- among them where `Flag` allows that.
abbrev pub EnterThen : {Err : Type 0} → (Bool → Type 0) → AuthState → Conn Err → Conn Err → Type 0
EnterThen Flag auth before conn =
    (conn.written ≡ before.written)
    ⊎ ((flag : Bool) × (added : List Bytes) × Flag flag
        × Asks flag added
        × (conn.written ≡ before.written ++ enter_packet auth ∷ added))

module _ {Err W : Type 0} (V : Type 0) (timeout : Err) (cut_short : Err → Err) (clock : W → ℕ)
    (cfg : CharConfig Err W) where
  no_ones : (id : ℕ) → char_table cfg.choice.packetver id ≢ pos 1
  no_ones = no_ones-of_IsLength _ (char_table-IsLength cfg.choice.packetver)

  any_run :
      (d : Dialed Err) (char_addr : List ℕ) (auth : AuthState) (w : W)
      → (cfg.dialer char_addr w).0 ≡ inr d
      → Ran cfg
          (IsFrame (char_table cfg.choice.packetver))
          AnyBytes
          (any_arrives _ _ no_ones)
          (λ id data_ h. h)
          V
          timeout
          cut_short
          clock
          auth
          d.conn
          (run_char_phase V timeout cut_short clock cfg char_addr auth w)
  any_run d char_addr auth w dialed =
      run_char_phase-Ran cfg _ AnyBytes (any_arrives _ _ no_ones) (λ id data_ h. h) V timeout
        cut_short clock d char_addr auth w dialed (λ q. tt)

  -- On any connection that the dialer returns, for every finite sequence of reads and whichever calls
  -- fail, no read of the character list is out of range, and the char phase closes the connection
  -- exactly once.
  pub run_char_phase_closes :
      (d : Dialed Err) (char_addr : List ℕ) (auth : AuthState) (w : W)
      → (cfg.dialer char_addr w).0 ≡ inr d
      → let r = run_char_phase V timeout cut_short clock cfg char_addr auth w in
        (r.result ≢ inl decode_panic)
        × (c : Conn Err) × (r.conn ≡ some c)
        × (c.closed ≡ suc d.conn.closed)
  run_char_phase_closes d char_addr auth w dialed =
      let r = any_run d char_addr auth w dialed in (r.no_panic, r.conn, r.at, r.once)

  -- On any connection, the char phase writes nothing, or the request to enter with the ids and the
  -- sex of the login phase, followed by requests of character pages with at most one request of a
  -- character slot among them.
  pub run_char_phase_asks :
      (d : Dialed Err) (char_addr : List ℕ) (auth : AuthState) (w : W)
      → (cfg.dialer char_addr w).0 ≡ inr d
      → (c : Conn Err) × ((run_char_phase V timeout cut_short clock cfg char_addr auth w).conn
          ≡ some c)
        × EnterThen (λ flag. Unit) auth d.conn c
  run_char_phase_asks d char_addr auth w dialed =
      let r = any_run d char_addr auth w dialed in
      (
        r.conn,
        r.at,
        elim r.wrote [ inl same ↦ inl same | inr e ↦ inr (e.flag, e.added, tt, e.asks, e.written) ],
      )

  -- For packet versions from 20201007 on, whatever the server sends, the char phase never writes a
  -- request of a character slot: all that it can write is the request to enter and requests of
  -- character pages.
  pub run_char_phase_unselected :
      (d : Dialed Err) (char_addr : List ℕ) (auth : AuthState) (w : W)
      → 20201007 ≤ cfg.choice.packetver
      → (cfg.dialer char_addr w).0 ≡ inr d
      → (c : Conn Err) × ((run_char_phase V timeout cut_short clock cfg char_addr auth w).conn
          ≡ some c)
        × EnterThen (λ flag. flag ≡ false) auth d.conn c
  run_char_phase_unselected d char_addr auth w new dialed =
      let r = any_run d char_addr auth w dialed in
      (
        r.conn,
        r.at,
        elim r.wrote [
          | inl same ↦ inl same
          | inr e ↦ inr (e.flag, e.added, e.quiet new, e.asks, e.written)
        ],
      )

  -- Where the char phase returns an address, and the server has sent no more after the echo of 4
  -- bytes than the receive buffer holds, a contiguous part of what it sent after the echo is a packet
  -- with the id 0x0AC5 and 156 bytes from packet version 20170315 on, with the id 0x0081 and 28 bytes
  -- before. The address is made of that packet's ip and port, and the character id that the phase
  -- leaves is the packet's.
  pub run_char_phase-Zone :
      (d : Dialed Err) (char_addr : List ℕ) (auth : AuthState) (w : W) (addr : List ℕ)
      → (cfg.dialer char_addr w).0 ≡ inr d
      → length (drop 4 (bytes_of d.reads)) ≤ char_recv_buf_initial
      → (run_char_phase V timeout cut_short clock cfg char_addr auth w).result ≡ inr addr
      → (ip : ℕ) × (port : ℕ) × Zone
          (Received (drop 4 (bytes_of d.reads)) (char_table cfg.choice.packetver))
          cfg.choice.packetver
          (run_char_phase V timeout cut_short clock cfg char_addr auth w).auth.char_id
          ip
          port
        × (addr ≡ address ip port)
  run_char_phase-Zone d char_addr auth w addr dialed room ok =
      let total = drop 4 (bytes_of d.reads) in
      let table = char_table cfg.choice.packetver in
      let r =
        run_char_phase-Ran cfg (Received total table) (EndOf total)
          (Received-arrives total table char_recv_buf_initial room no_ones) (λ id data_ h. h.0) V
          timeout cut_short clock d char_addr auth w dialed
          (λ q.
            let (bs, four, split) = read_full-Took timeout cut_short 4 false d.reads q in
            (
              [],
              ap (λ k. drop k (bytes_of d.reads)) (sym four)
                  ∙ ap (λ t. drop (length bs) t) split
                  ∙ drop-length_append bs _,
            )) in
      (r.found addr ok).1
