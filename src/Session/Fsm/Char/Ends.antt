-- ===== src/Session/Fsm/Char/Ends.antt =====
-- The char phase from the dial to its end.
use rathena_client.Shared.{
  ℕ, suc, ◌-◌, ◌≤◌, ◌≡◌, ◌≢◌, ◌⊎◌, refl, sym, ap, ◌∙◌, arith, Bool, false, Option, none, some, List,
  [], ◌∷◌, ◌++◌, append_assoc, length, length-append, length-take, take, drop, take-append-drop,
  ltb, ◌==◌, ◌||◌, inl, inr, Bytes,
}
use rathena_client.Session.Servers.{char_recv_buf_initial}
use rathena_client.Session.Core.Callbacks.{by_test}
use rathena_client.Session.Core.Frames.{IsFrame}
use rathena_client.Session.Fsm.Wire.{Read, Conn, Dialed, close, set_deadline, reply, write_deadline}
use rathena_client.Session.Fsm.Wire.Write.{
  write_deadline-closed, write_deadline-written, write_deadline-either,
}
use rathena_client.Session.Fsm.Wire.Loop.{Arrives}
use rathena_client.Session.Fsm.Wire.Received.{bytes_of}
use rathena_client.Session.Fsm.Login.{AuthState}
use rathena_client.Session.Fsm.Char.{decode_panic}
use rathena_client.Session.Fsm.Char.Run.{
  address, CharConfig, CharResult, read_full, char_echoed, char_waiting, char_written, char_dialed,
  run_char_phase,
}
use rathena_client.Session.Fsm.Char.Asks.{Asks, nothing}
use rathena_client.Session.Fsm.Char.Kept.{Zone}
use rathena_client.Session.Lengths.CharTable.{char_table}
use rathena_client.Session.Fsm.Char.Outcomes.{enter_packet, char_echoed-Sound}

module _ {Err : Type 0} (timeout : Err) (cut_short : Err → Err) where
  -- What a full read takes off the reads.
  abbrev Took : ℕ → List (Read Err) → Option Err × List (Read Err) → Type 0
  Took n rs (o, rs') =
      o ≡ none → (bs : Bytes) × (length bs ≡ n) × (bytes_of rs ≡ bs ++ bytes_of rs')

  or_error-Took :
      (n : ℕ) (rs rest : List (Read Err)) (late_by : Err → Err) (o : Option Err)
      (r : Option Err × List (Read Err))
      → Took n rs r
      → Took n rs (elim o [ some err ↦ (some (late_by err), rest) | none ↦ r ])
  or_error-Took n rs rest late_by (some err) r h = λ q. absurd cc
  or_error-Took n rs rest late_by none r h = h

  pub read_full-Took :
      (n : ℕ) (started : Bool) (rs : List (Read Err))
      → Took n rs (read_full timeout cut_short n started rs)
  unfolding read_full
  read_full-Took n started [] = λ q. absurd cc
  read_full-Took n started (r ∷ rs) =
      let more = read_full-Took (n - length r.bytes) (started || ltb 0 (length r.bytes)) rs in
      by_test (Took n (r ∷ rs)) (ltb n (length r.bytes)) _ _
        (λ long q. (
          take n r.bytes,
          ground (arith, length-take n r.bytes),
          ap (λ t. t ++ bytes_of rs) (sym (take-append-drop n r.bytes))
              ∙ append_assoc (take n r.bytes) (drop n r.bytes) (bytes_of rs),
        ))
        (λ short.
          by_test (Took n (r ∷ rs)) (length r.bytes == n) _ _
            (λ all q. (r.bytes, ground arith, refl))
            (λ part. or_error-Took n (r ∷ rs) rs _ r.error _ (λ q.
              let (bs, count, split) = more q in
              (
                r.bytes ++ bs,
                ground (arith, length-append r.bytes bs),
                ap (λ t. r.bytes ++ t) split
                    ∙ sym (
                        append_assoc r.bytes bs (
                          bytes_of
                            (read_full timeout cut_short (n - length r.bytes)
                              (started || ltb 0 (length r.bytes)) rs).1)),
              ))))

module _ {Err W : Type 0} (cfg : CharConfig Err W) (From : ℕ → Bytes → Type 0)
    (Buf : List (Read Err) → Bytes → Type 0)
    (arrives : Arrives (char_table cfg.choice.packetver) char_recv_buf_initial From Buf)
    (framed : (id : ℕ) (data_ : Bytes)
      → From id data_
      → IsFrame (char_table cfg.choice.packetver) id data_)
    (V : Type 0) (timeout : Err) (cut_short : Err → Err) (clock : W → ℕ) where
  -- The request to enter is written, and requests of pages and one slot at most.
  pub record Entered (auth : AuthState) (before c : Conn Err) : Type 0 where
    pub flag : Bool
    pub added : List Bytes
    pub asks : Asks flag added
    pub written : c.written ≡ before.written ++ enter_packet auth ∷ added
    pub quiet : 20201007 ≤ cfg.choice.packetver → flag ≡ false

  -- What holds of every run whose dial gives the connection `before`.
  pub record Ran (auth : AuthState) (before : Conn Err) (r : CharResult Err W) : Type 0 where
    pub conn : Conn Err
    pub at : r.conn ≡ some conn
    pub once : conn.closed ≡ suc before.closed
    pub wrote : (conn.written ≡ before.written) ⊎ Entered auth before conn
    pub found :
        (addr : List ℕ)
        → r.result ≡ inr addr
        → Entered auth before conn
          × ((ip : ℕ) × (port : ℕ) × Zone From cfg.choice.packetver r.auth.char_id ip port
              × (addr ≡ address ip port))
    pub no_panic : r.result ≢ inl decode_panic

  -- The connection after the request to enter.
  record Sent (auth : AuthState) (before conn : Conn Err) : Type 0 where
    pub written : conn.written ≡ before.written ++ enter_packet auth ∷ []
    pub closed : conn.closed ≡ before.closed

  entered :
      (auth : AuthState) (before conn : Conn Err)
      → Sent auth before conn
      → Entered auth before (close conn)
  entered auth before conn s = record {
    flag = false;
    added = [];
    asks = nothing;
    written = s.written;
    quiet = λ n. refl;
  }

  char_echoed-Ran :
      (before : Conn Err) (o : Option Err) (reads : List (Read Err)) (conn : Conn Err)
      (auth : AuthState) (w : W)
      → (o ≡ none → Buf reads [])
      → Sent auth before conn
      → Ran auth before (char_echoed V timeout cut_short clock cfg o reads conn auth w)
  unfolding char_echoed
  char_echoed-Ran before (some err) reads conn auth w b s = record {
    conn = close conn;
    at = refl;
    once = ap suc s.closed;
    wrote = inr (entered auth before conn s);
    found = λ addr q. absurd cc;
    no_panic = λ q. cc;
  }
  char_echoed-Ran before none reads conn auth w b s =
      let h =
        char_echoed-Sound cfg From Buf arrives framed V timeout cut_short clock reads conn auth w
          (b refl) in
      let (c, at, asked) = h.asked in
      let got : Entered auth before (close c) = record {
        flag = h.flag;
        added = asked.added;
        asks = asked.asks;
        written =
            asked.written
            ∙ ap (λ t. t ++ asked.added) s.written
            ∙ append_assoc before.written (enter_packet auth ∷ []) asked.added;
        quiet = h.quiet;
      } in
      record {
        conn = close c;
        at = at;
        once = ap suc (asked.closed ∙ s.closed);
        wrote = inr got;
        found = λ addr q. (got, h.found addr q);
        no_panic = h.no_panic;
      }

  char_waiting-Ran :
      (before : Conn Err) (reads : List (Read Err)) (o : Option Err) (conn : Conn Err)
      (auth : AuthState) (w : W)
      → ((read_full timeout cut_short 4 false reads).0 ≡ none
          → Buf (read_full timeout cut_short 4 false reads).1 [])
      → Sent auth before conn
      → Ran auth before (char_waiting V timeout cut_short clock cfg reads o conn auth w)
  unfolding char_waiting
  char_waiting-Ran before reads (some err) conn auth w b s = record {
    conn = close conn;
    at = refl;
    once = ap suc s.closed;
    wrote = inr (entered auth before conn s);
    found = λ addr q. absurd cc;
    no_panic = λ q. cc;
  }
  char_waiting-Ran before reads none conn auth w b s =
      char_echoed-Ran before (read_full timeout cut_short 4 false reads).0
        (read_full timeout cut_short 4 false reads).1 conn auth w b s

  char_written-Ran :
      (before : Conn Err) (reads : List (Read Err)) (o : Option Err) (conn : Conn Err)
      (auth : AuthState) (w : W)
      → ((read_full timeout cut_short 4 false reads).0 ≡ none
          → Buf (read_full timeout cut_short 4 false reads).1 [])
      → (o ≡ none → conn.written ≡ before.written ++ enter_packet auth ∷ [])
      → (conn.written ≡ before.written) ⊎ (conn.written ≡ before.written ++ enter_packet auth ∷ [])
      → conn.closed ≡ before.closed
      → Ran auth before (char_written V timeout cut_short clock cfg reads o conn auth w)
  unfolding char_written set_deadline
  char_written-Ran before reads (some err) conn auth w b sent (inl same) closed = record {
    conn = close conn;
    at = refl;
    once = ap suc closed;
    wrote = inl same;
    found = λ addr q. absurd cc;
    no_panic = λ q. cc;
  }
  char_written-Ran before reads (some err) conn auth w b sent (inr more) closed = record {
    conn = close conn;
    at = refl;
    once = ap suc closed;
    wrote = inr (entered auth before conn (record { written = more; closed = closed }));
    found = λ addr q. absurd cc;
    no_panic = λ q. cc;
  }
  char_written-Ran before reads none conn auth w b sent either closed =
      char_waiting-Ran before reads (reply conn.replies) (set_deadline conn).1 auth w b
        (record { written = sent refl; closed = closed })

  pub run_char_phase-Ran :
      (d : Dialed Err) (char_addr : List ℕ) (auth : AuthState) (w : W)
      → (cfg.dialer char_addr w).0 ≡ inr d
      → ((read_full timeout cut_short 4 false d.reads).0 ≡ none
          → Buf (read_full timeout cut_short 4 false d.reads).1 [])
      → Ran auth d.conn (run_char_phase V timeout cut_short clock cfg char_addr auth w)
  unfolding run_char_phase char_dialed
  run_char_phase-Ran d char_addr auth w dialed b =
      let sent = write_deadline d.conn (enter_packet auth) in
      rw dialed (
        char_written-Ran d.conn d.reads sent.0 sent.1 auth (cfg.dialer char_addr w).1 b
          (write_deadline-written d.conn (enter_packet auth))
          (write_deadline-either d.conn (enter_packet auth))
          (write_deadline-closed d.conn (enter_packet auth)))
