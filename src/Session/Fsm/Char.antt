-- ===== src/Session/Fsm/Char.antt =====
-- pkg/session/fsm.go: the char phase, its state and what its handlers do to it. `W` is all that the caller's
-- callbacks and the dialer reach. Handlers has the handlers, Run the phase around them.
pub mod Handlers
pub mod Run
pub mod Asks
pub mod Kept
pub mod Keeping
pub mod Outcomes
pub mod Ends
pub mod Contract
pub mod Select
mod Tests
use rathena_client.Shared.{
  ℕ, zero, suc, ◌+◌, ◌-◌, ◌*◌, ◌^◌, Bool, true, false, ◌&&◌, Option, none, some, List, [], ◌∷◌,
  ◌++◌, length, get_or, take, drop, leb, ltb, ◌==◌, if◌then◌else◌, Bytes, u32, le_u16, le_u32,
  be_u32, until_null, pos,
}
use rathena_client.Decode.Characters.{CharacterInfoEntry, decode_character_info_list}
use rathena_client.Session.Core.{HandlerFunc}
use rathena_client.Session.Lengths.{assign}
use rathena_client.Session.Servers.{CharSession, new_char_session, register_handler}
use rathena_client.Session.Fsm.Packets.{fsm_encode_request_character_page}
use rathena_client.Session.Fsm.Wire.{Conn, Wired, StepError, write_deadline}
use rathena_client.Session.Fsm.Login.{AuthState, NotifyInfo, phase_char, notify}

pub record SlotInfo : Type 0 where
  pub normal : ℕ
  pub premium : ℕ
  pub billing : ℕ
  pub producible : ℕ
  pub total : ℕ

pub data CharError (Err : Type 0) : Type 0 where
  dial_char : Err → CharError Err
  send_enter : Err → CharError Err
  set_echo_deadline : Err → CharError Err
  read_echo : Err → CharError Err
  enter_refused : (code : ℕ) → CharError Err
  char_ban : (code : ℕ) → CharError Err
  zone_too_short : (len : ℕ) → CharError Err
  send_charlist_req : Err → CharError Err
  send_select : Err → CharError Err
  char_feed : StepError Err → CharError Err
  decode_panic : CharError Err

pub record CharPhaseResult (Err : Type 0) : Type 0 where
  pub map_ip : ℕ
  pub map_port : ℕ
  pub map_domain : Bytes
  pub char_id : ℕ
  pub done : Bool
  pub err : Option (CharError Err)
  pub map_name : Bytes
  pub raw_chars : Bytes
  pub chars_expected : ℕ
  pub pages_recv : ℕ
  pub got_09a0 : Bool
  pub got_char_list : Bool
  pub selected_slot : ℕ

-- The variables that the handlers of the phase capture, and the caller's world.
pub record CharState (Err W : Type 0) : Type 0 where
  pub auth : AuthState
  pub res : CharPhaseResult Err
  pub write_err : Option Err
  pub slot_sent : Bool
  pub world : W

-- The callbacks and the slot that the phase is given.
pub record CharChoice (W : Type 0) : Type 0 where
  pub packetver : ℕ
  pub char_slot : ℕ
  pub on_server_notify : Option (NotifyInfo → W → W)
  pub on_slot_info : Option (SlotInfo → W → W)
  pub on_char_list : Option (List CharacterInfoEntry → W → ℕ × W)

-- `strings.TrimSuffix(s, ".gat")`
abbrev pub trim_gat : Bytes → Bytes
trim_gat [] = []
trim_gat (b ∷ bs) =
    let rest = trim_gat bs in
    if (length bs == 3)
      && (b == 46)
      && (get_or bs 0 0 == 103)
      && (get_or bs 1 0 == 97)
      && (get_or bs 2 0 == 116)
    then []
    else b ∷ rest

abbrev pub CharEnv : Type 0 → Type 0 → Type 0
CharEnv Err W = Wired Err (CharState Err W)

abbrev pub tell_slots : {W : Type 0} → Option (SlotInfo → W → W) → SlotInfo → W → W
tell_slots none info w = w
tell_slots (some f) info w = f info w

module _ {Err W : Type 0} where
  unfoldable pub fail_char : CharError Err → CharState Err W → CharState Err W
  fail_char err s = record s { res = record (s.res) { err = some err; done = true } }

  -- What both zone handlers take from the first 28 bytes.
  unfoldable pub take_zone : Bytes → CharState Err W → CharState Err W
  take_zone data_ s =
      let cid = le_u32 data_ 2 in
      record s {
        auth = record (s.auth) { char_id = cid };
        res = record (s.res) {
          char_id = cid;
          map_ip = be_u32 data_ 22;
          map_port = le_u16 data_ 26;
          map_name = trim_gat (until_null (take 16 (drop 6 data_)));
          done = true;
        };
      }

  -- The domain, where the packet has one and it is not empty.
  unfoldable pub take_domain : Bytes → CharState Err W → CharState Err W
  take_domain data_ s =
      let domain = until_null (take 128 (drop 28 data_)) in
      if leb (28 + 128) (length data_) && ltb 0 (length domain)
      then record s { res = record (s.res) { map_domain = domain } }
      else s

  -- With a callback, the list that it is given, or the panic of the decoder.
  unfoldable pub offer_chars :
      (List CharacterInfoEntry → W → ℕ × W)
      → Option (List CharacterInfoEntry)
      → CharState Err W
      → CharState Err W
  unfolding fail_char
  offer_chars f none s = fail_char decode_panic s
  offer_chars f (some entries) s =
      let (slot, w) = f entries s.world in
      record s { world = w; res = record (s.res) { selected_slot = slot; got_char_list = true } }

  -- `pickCharSlot`, and what both callers do with the slot.
  unfoldable pub pick_char_slot : CharChoice W → Bytes → CharState Err W → CharState Err W
  unfolding offer_chars
  pick_char_slot choice raw s = elim choice.on_char_list [
    | none ↦ record s {
      res = record (s.res) { selected_slot = choice.char_slot; got_char_list = true };
    }
    | some f ↦ offer_chars f (decode_character_info_list raw choice.packetver) s
  ]

  abbrev pub append_chars : Bytes → CharState Err W → CharState Err W
  append_chars raw s = record s { res = record (s.res) { raw_chars = s.res.raw_chars ++ raw } }

  -- After a page is counted.
  abbrev pub page_counted : Bytes → CharState Err W → CharState Err W
  page_counted data_ s =
      let s' = if ltb 4 (length data_) then append_chars (drop 4 data_) s else s in
      record s' { res = record (s'.res) { pages_recv = u32 (s'.res.pages_recv + 1) } }
