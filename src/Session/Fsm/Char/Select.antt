-- ===== src/Session/Fsm/Char/Select.antt =====
-- The head of the char phase's loop, where the slot is requested.
use rathena_client.Shared.{
  ℕ, ◌≤◌, ◌≡◌, ◌≢◌, refl, arith, Bool, true, false, not, Option, none, some, ◌&&◌, Bytes,
}
use rathena_client.Session.Core.Callbacks.{by_test}
use rathena_client.Session.Fsm.Wire.{Conn, Turn, stop, fail, go, set_deadline}
use rathena_client.Session.Fsm.Wire.Loop.{Heads}
use rathena_client.Session.Fsm.Char.{CharError, send_charlist_req, decode_panic, CharEnv}
use rathena_client.Session.Fsm.Char.Run.{select_written, send_slot, char_turn}
use rathena_client.Session.Fsm.Char.Asks.{Asked, set_deadline-Asked, select-Asked}
use rathena_client.Session.Fsm.Char.Kept.{Zone, Kept}

module _ {Err W : Type 0} (From : ℕ → Bytes → Type 0) (packetver : ℕ) (before : Conn Err) where
  -- Where the loop is left.
  pub record Left (e : CharEnv Err W) : Type 0 where
    pub flag : Bool
    pub asked : Asked before flag e.conn
    pub sent : flag ≡ true → e.state.res.got_char_list ≡ true
    pub quiet : 20201007 ≤ packetver → e.state.res.got_char_list ≡ false
    pub sound : e.state.res.err ≢ some decode_panic

  abbrev pub Found : CharEnv Err W → Type 0
  Found e =
      e.state.res.err ≡ none
      → Zone From packetver e.state.auth.char_id e.state.res.map_ip e.state.res.map_port

  abbrev Holding : CharEnv Err W → Type 0
  Holding e = Kept From packetver before e

  left : (e : CharEnv Err W) → Holding e → Left e
  left e h = record {
    flag = e.state.slot_sent;
    asked = h.asked;
    sent = h.sent;
    quiet = h.quiet;
    sound = h.sound;
  }

  abbrev TurnKept : Turn (CharEnv Err W) (CharError Err) → Type 0
  TurnKept (stop e) = Holding e × Found e
  TurnKept (fail err e) = Left e × (err ≢ decode_panic)
  TurnKept (go e) = Holding e

  select_written-TurnKept :
      (o : Option Err) (conn : Conn Err) (e : CharEnv Err W)
      → e.state.res.got_char_list ≡ true
      → (o ≡ none → Asked before true conn)
      → (b : Bool) × Asked before b conn
      → Holding e
      → TurnKept (select_written o conn e)
  unfolding select_written
  select_written-TurnKept (some err) conn e got sent (b, tried) h = (
    record { flag = b; asked = tried; sent = λ q. got; quiet = h.quiet; sound = h.sound },
    λ q. cc,
  )
  select_written-TurnKept none conn e got sent tried h = record {
    asked = sent refl;
    sent = λ q. got;
    quiet = h.quiet;
    sound = h.sound;
    zone = h.zone;
  }

  send_slot-TurnKept : (e : CharEnv Err W) → Holding e → TurnKept (send_slot e)
  unfolding send_slot
  send_slot-TurnKept e h =
      let due = e.state.res.got_char_list && not e.state.slot_sent in
      by_test TurnKept due _ (go e)
        (λ now.
          let got : e.state.res.got_char_list ≡ true = ground arith in
          let unsent : e.state.slot_sent ≡ false = ground arith in
          let asked : Asked before false e.conn = rw unsent at h.asked in
          let (sent, b, tried) = select-Asked before e.state.res.selected_slot e.conn asked in
          select_written-TurnKept _ _ e got sent (b, tried) h)
        (λ later. h)

  by_write_err :
      (o : Option Err) (e : CharEnv Err W)
      → Holding e
      → TurnKept (elim o [ none ↦ send_slot e | some err ↦ fail (send_charlist_req err) e ])
  by_write_err none e h = send_slot-TurnKept e h
  by_write_err (some err) e h = (left e h, λ q. cc)

  char_turn-TurnKept : (e : CharEnv Err W) → Holding e → TurnKept (char_turn e)
  unfolding char_turn
  char_turn-TurnKept e h =
      by_test TurnKept e.state.res.done (stop e) _ (λ over. (h, h.zone over))
        (λ on. by_write_err e.state.write_err e h)

  pub char_turn-Heads :
      Heads Holding Left Found (λ err. err ≢ decode_panic) (char_turn {Err = Err} {W = W})
  unfolding set_deadline
  char_turn-Heads = record {
    quiet = λ e h. record {
      asked = set_deadline-Asked before e.state.slot_sent e.conn h.asked;
      sent = h.sent;
      quiet = h.quiet;
      sound = h.sound;
      zone = h.zone;
    };
    stops = λ e e' p h. rw p at (char_turn-TurnKept e h);
    fails = λ e e' err p h. rw p at (char_turn-TurnKept e h);
    leaves = left;
    goes = λ e e' p h. rw p at (char_turn-TurnKept e h);
  }
