-- ===== src/Session/Fsm/Char/Handlers.antt =====
-- pkg/session/fsm.go: the handlers of the char phase.
use rathena_client.Shared.{
  ℕ, zero, suc, true, ◌&&◌, Option, none, some, [], length, get_or, drop, leb, ltb, if◌then◌else◌,
  le_u32, pos,
}
use rathena_client.Session.Core.{HandlerFunc}
use rathena_client.Session.Lengths.{assign}
use rathena_client.Session.Servers.{CharSession, new_char_session, register_handler}
use rathena_client.Session.Fsm.Packets.{fsm_encode_request_character_page}
use rathena_client.Session.Fsm.Wire.{Conn, write_deadline}
use rathena_client.Session.Fsm.Login.{NotifyInfo, phase_char, notify}
use rathena_client.Session.Fsm.Char.{
  SlotInfo, enter_refused, char_ban, zone_too_short, CharChoice, CharEnv, tell_slots, fail_char,
  take_zone, take_domain, pick_char_slot, append_chars, page_counted,
}

module _ {Err : Type 0} where
  -- The loop that asks for `n` pages. The next round is given, and runs where the write has not failed.
  unfoldable pub page_written :
      Option Err → Conn Err → (Conn Err → Option Err × Conn Err) → Option Err × Conn Err
  page_written (some err) conn next = (some err, conn)
  page_written none conn next = next conn

  unfoldable pub request_pages : ℕ → Conn Err → Option Err × Conn Err
  unfolding page_written fsm_encode_request_character_page write_deadline
  request_pages zero conn = (none, conn)
  request_pages (suc n) conn =
      let (failed, conn') = write_deadline conn fsm_encode_request_character_page in
      page_written failed conn' (request_pages n)

  -- An error of an earlier packet stays.
  abbrev pub keep_error : Option Err → Option Err → Option Err
  keep_error (some err) before = some err
  keep_error none before = before

module _ {Err W : Type 0} where
  unfoldable pub on_char_refused : HandlerFunc (CharEnv Err W)
  unfolding fail_char
  on_char_refused data_ pv e =
      let code = if leb 3 (length data_) then get_or data_ 2 0 else 0 in
      record e { state = fail_char (enter_refused code) e.state }

  unfoldable pub on_char_ban : Option (NotifyInfo → W → W) → HandlerFunc (CharEnv Err W)
  unfolding take_zone fail_char
  on_char_ban on_server_notify data_ pv e =
      let code = if leb 3 (length data_) then get_or data_ 2 0 else 0 in
      let told = record (e.state) {
        world = notify on_server_notify (record { phase = phase_char; code = code }) e.state.world;
      } in
      if leb 28 (length data_)
      then record e { state = take_zone data_ e.state }
      else record e { state = fail_char (char_ban code) told }

  unfoldable pub on_zone : HandlerFunc (CharEnv Err W)
  unfolding take_zone take_domain fail_char
  on_zone data_ pv e =
      if ltb (length data_) 28
      then record e { state = fail_char (zone_too_short (length data_)) e.state }
      else record e { state = take_domain data_ (take_zone data_ e.state) }

  unfoldable pub on_slots : Option (SlotInfo → W → W) → HandlerFunc (CharEnv Err W)
  on_slots on_slot_info data_ pv e =
      let info : SlotInfo = record {
        normal = get_or data_ 4 0;
        premium = get_or data_ 5 0;
        billing = get_or data_ 6 0;
        producible = get_or data_ 7 0;
        total = get_or data_ 8 0;
      } in
      if leb 9 (length data_)
      then record e {
        state = record (e.state) { world = tell_slots on_slot_info info e.state.world };
      }
      else e

  -- A slice that starts past the end is tested for, and `drop` gives what the guard gives.
  unfoldable pub on_char_list_packet : CharChoice W → HandlerFunc (CharEnv Err W)
  unfolding pick_char_slot
  on_char_list_packet choice data_ pv e =
      if ltb choice.packetver 20130000
      then record e {
        state = pick_char_slot choice (if ltb 27 (length data_) then drop 27 data_ else []) e.state;
      }
      else if ltb 27 (length data_)
      then record e { state = append_chars (drop 27 data_) e.state }
      else e

  unfoldable pub on_char_list_notify : HandlerFunc (CharEnv Err W)
  unfolding request_pages
  on_char_list_notify data_ pv e =
      let total = le_u32 data_ 2 in
      let (failed, conn') = request_pages total e.conn in
      if ltb (length data_) 6 then e else record {
        conn = conn';
        state = record (e.state) {
          write_err = keep_error failed e.state.write_err;
          res = record (e.state.res) { chars_expected = total; got_09a0 = true };
        };
      }

  unfoldable pub on_page : CharChoice W → HandlerFunc (CharEnv Err W)
  unfolding pick_char_slot
  on_page choice data_ pv e =
      let s = page_counted data_ e.state in
      if s.res.got_09a0 && leb s.res.chars_expected s.res.pages_recv
      then record e { state = pick_char_slot choice s.res.raw_chars s }
      else record e { state = s }

module _ {Err W V : Type 0} where
  -- The session of the phase, with the length of 0x0081 overridden, and its seven handlers.
  unfoldable pub char_session : CharChoice W → CharSession (CharEnv Err W) V
  unfolding new_char_session register_handler on_char_refused on_char_ban on_zone on_slots
      on_char_list_packet on_char_list_notify on_page
  char_session choice =
      let s0 = new_char_session choice.packetver in
      let s1 = record s0 {
        lengths =
            if ltb choice.packetver 20170315 then assign s0.lengths 0x0081 (pos 28) else s0.lengths;
      } in
      let s2 = register_handler s1 0x006C on_char_refused in
      let s3 = register_handler s2 0x0081 (on_char_ban choice.on_server_notify) in
      let s4 = register_handler s3 0x0AC5 on_zone in
      let s5 = register_handler s4 0x082D (on_slots choice.on_slot_info) in
      let s6 = register_handler s5 0x006B (on_char_list_packet choice) in
      let s7 = register_handler s6 0x09A0 on_char_list_notify in
      register_handler s7 0x099D (on_page choice)
