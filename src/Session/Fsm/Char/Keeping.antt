-- ===== src/Session/Fsm/Char/Keeping.antt =====
-- The session of the char phase and the head of its loop keep what the phase relies on.
use rathena_client.Shared.{
  ℕ, ◌≤◌, ◌<◌, ◌≡◌, refl, ap, ◌∙◌, arith, Bool, true, false, Option, some, ◌==◌, length, leb, ltb,
  if◌then◌else◌, ◌&&◌, drop, Bytes, ℤ, pos, Bool-cases, inl, inr, le_u32,
}
use rathena_client.Session.Core.{HandlerFunc}
use rathena_client.Session.Core.Callbacks.{Keeps, handled_by, both_branches}
use rathena_client.Session.Lengths.{populate_char_lengths}
use rathena_client.Session.Lengths.Laws.{populate_char_lengths-latest}
use rathena_client.Session.Lengths.CharTable.{char_table, char_table-zone}
use rathena_client.Session.Core.Frames.{IsFrame, HasLength}
use rathena_client.Session.Servers.{new_char_session, register_handler, char_recv_buf_initial}
use rathena_client.Session.Fsm.Wire.{Conn}
use rathena_client.Session.Fsm.Char.{CharChoice, CharEnv, take_zone, page_counted}
use rathena_client.Session.Fsm.Char.Handlers.{
  on_char_refused, on_char_ban, on_zone, on_slots, on_char_list_packet, on_char_list_notify,
  on_page, char_session,
}
use rathena_client.Session.Fsm.Char.Asks.{request_pages-Asked}
use rathena_client.Session.Fsm.Char.Kept.{
  IsZone, Kept, fail_char-Kept, take_zone-Kept, take_domain-Kept, world-Kept, append_chars-Kept,
  page_counted-Kept, pick_char_slot-Kept,
}

char_table-page : (pv : ℕ) → 20201007 ≤ pv → char_table pv 0x099D ≡ pos 0
unfolding populate_char_lengths
char_table-page pv h =
    let new : ltb pv 20170315 ≡ false = ground arith in
    rw new (ap (λ t. t 0x099D) (populate_char_lengths-latest pv h) ∙ refl)

module _ {Err W : Type 0} (From : ℕ → Bytes → Type 0) (choice : CharChoice W) (before : Conn Err)
    (framed : (id : ℕ) (data_ : Bytes)
      → From id data_
      → IsFrame (char_table choice.packetver) id data_) where
  abbrev Holding : CharEnv Err W → Type 0
  Holding e = Kept From choice.packetver before e

  on_char_refused-Kept :
      (data_ : Bytes) (pv : ℕ) (e : CharEnv Err W)
      → Holding e
      → Holding (on_char_refused data_ pv e)
  unfolding on_char_refused
  on_char_refused-Kept data_ pv e h = fail_char-Kept From choice.packetver before _ e (λ q. cc) h

  size_of :
      (id : ℕ) (data_ : Bytes) (z : ℤ)
      → From id data_
      → char_table choice.packetver id ≡ z
      → HasLength z data_
  size_of id data_ z from same = let size = (framed id data_ from).size in rw same at size

  -- A packet under 0x0081 that has the size of an address is one before 20170315.
  old_packet-IsZone :
      (data_ : Bytes) → From 0x0081 data_ → 28 ≤ length data_ → IsZone choice.packetver 0x0081 data_
  old_packet-IsZone data_ from whole = elim (char_table-zone choice.packetver) [
    | inl (old, ban, zone) ↦ inr (old, refl, (size_of 0x0081 data_ (pos 28) from ban).1)
    | inr (new, ban, zone) ↦
        absurd (omega (arith, whole, (size_of 0x0081 data_ (pos 3) from ban).1))
  ]

  new_packet-IsZone : (data_ : Bytes) → From 0x0AC5 data_ → IsZone choice.packetver 0x0AC5 data_
  new_packet-IsZone data_ from = elim (char_table-zone choice.packetver) [
    | inl (old, ban, zone) ↦ absurd (omega (arith, (size_of 0x0AC5 data_ (pos 0) from zone).0))
    | inr (new, ban, zone) ↦ inl (new, refl, (size_of 0x0AC5 data_ (pos 156) from zone).1)
  ]

  on_char_ban-Kept :
      (data_ : Bytes) (pv : ℕ) (e : CharEnv Err W)
      → From 0x0081 data_
      → Holding e
      → Holding (on_char_ban choice.on_server_notify data_ pv e)
  unfolding on_char_ban
  on_char_ban-Kept data_ pv e from h = elim (Bool-cases (leb 28 (length data_))) [
    | inl zone ↦
        let whole : 28 ≤ length data_ = ground arith in
        rw zone (
          take_zone-Kept From choice.packetver before 0x0081 data_ e from
            (old_packet-IsZone data_ from whole) h)
    | inr ban ↦ rw ban (
        fail_char-Kept From choice.packetver before _ _ (λ q. cc)
          (world-Kept From choice.packetver before _ e h))
  ]

  on_zone-Kept :
      (data_ : Bytes) (pv : ℕ) (e : CharEnv Err W)
      → From 0x0AC5 data_
      → Holding e
      → Holding (on_zone data_ pv e)
  unfolding on_zone
  on_zone-Kept data_ pv e from h = elim (Bool-cases (ltb (length data_) 28)) [
    | inl short ↦ rw short (fail_char-Kept From choice.packetver before _ e (λ q. cc) h)
    | inr whole ↦ rw whole (
        take_domain-Kept From choice.packetver before data_
          (record e { state = take_zone data_ e.state })
          (take_zone-Kept From choice.packetver before 0x0AC5 data_ e from
            (new_packet-IsZone data_ from) h))
  ]

  on_slots-Kept :
      (data_ : Bytes) (pv : ℕ) (e : CharEnv Err W)
      → Holding e
      → Holding (on_slots choice.on_slot_info data_ pv e)
  unfolding on_slots
  on_slots-Kept data_ pv e h = elim (Bool-cases (leb 9 (length data_))) [
    | inl whole ↦ rw whole (world-Kept From choice.packetver before _ e h)
    | inr short ↦ rw short h
  ]

  on_char_list_packet-Kept :
      (data_ : Bytes) (pv : ℕ) (e : CharEnv Err W)
      → Holding e
      → Holding (on_char_list_packet choice data_ pv e)
  unfolding on_char_list_packet
  on_char_list_packet-Kept data_ pv e h = elim (Bool-cases (ltb choice.packetver 20130000)) [
    | inl old ↦
        rw old (pick_char_slot-Kept From choice.packetver before choice _ e (ground arith) h)
    | inr new ↦ rw new (
        both_branches Holding (ltb 27 (length data_)) _ e
          (append_chars-Kept From choice.packetver before (drop 27 data_) e h) h)
  ]

  on_char_list_notify-Kept :
      (data_ : Bytes) (pv : ℕ) (e : CharEnv Err W)
      → Holding e
      → Holding (on_char_list_notify data_ pv e)
  unfolding on_char_list_notify
  on_char_list_notify-Kept data_ pv e h =
      both_branches Holding (ltb (length data_) 6) e _ h (record {
        asked = request_pages-Asked before e.state.slot_sent (le_u32 data_ 2) e.conn h.asked;
        sent = h.sent;
        quiet = h.quiet;
        sound = h.sound;
        zone = h.zone;
      })

  on_page-Kept :
      (data_ : Bytes) (pv : ℕ) (e : CharEnv Err W)
      → choice.packetver < 20201007
      → Holding e
      → Holding (on_page choice data_ pv e)
  unfolding on_page
  on_page-Kept data_ pv e old h =
      let s = page_counted data_ e.state in
      let counted = page_counted-Kept From choice.packetver before data_ e h in
      both_branches Holding (s.res.got_09a0 && leb s.res.chars_expected s.res.pages_recv) _
        (record e { state = s })
        (pick_char_slot-Kept From choice.packetver before choice s.res.raw_chars
          (record e { state = s }) old counted)
        counted

  no_page : (data_ : Bytes) → From 0x099D data_ → choice.packetver < 20201007
  no_page data_ from = elim (Bool-cases (ltb choice.packetver 20201007)) [
    | inl old ↦ ground arith
    | inr new ↦
        let none_of = char_table-page choice.packetver (ground arith) in
        absurd (omega (arith, (size_of 0x099D data_ (pos 0) from none_of).0))
  ]

  handled_by_if :
      (b : Bool) (f : HandlerFunc (CharEnv Err W)) (o : Option (HandlerFunc (CharEnv Err W)))
      (data_ : Bytes) (pv : ℕ) (e : CharEnv Err W)
      → (b ≡ true → Holding (f data_ pv e))
      → Holding (handled_by o data_ pv e)
      → Holding (handled_by (if b then some f else o) data_ pv e)
  handled_by_if true f o data_ pv e p q = p refl
  handled_by_if false f o data_ pv e p q = q

  pub char_session-Keeps :
      {V : Type 0}
      → Keeps
          (char_table choice.packetver)
          char_recv_buf_initial
          From
          Holding
          (char_session {Err = Err} {V = V} choice)
  unfolding char_session register_handler new_char_session
  char_session-Keeps = record {
    table = refl;
    room = refl;
    traced = λ ev e p. p;
    reported = λ ev e p. p;
    handled = λ id data_ pv e from h.
        handled_by_if (id == 0x099D) _ _ data_ pv e
          (λ same.
            let page : id ≡ 0x099D = ground arith in
            on_page-Kept data_ pv e (no_page data_ (rw page at from)) h)
          (handled_by_if (id == 0x09A0) _ _ data_ pv e
            (λ same. on_char_list_notify-Kept data_ pv e h)
            (handled_by_if (id == 0x006B) _ _ data_ pv e
              (λ same. on_char_list_packet-Kept data_ pv e h)
              (handled_by_if (id == 0x082D) _ _ data_ pv e (λ same. on_slots-Kept data_ pv e h)
                (handled_by_if (id == 0x0AC5) _ _ data_ pv e
                  (λ same.
                    let zone : id ≡ 0x0AC5 = ground arith in
                    on_zone-Kept data_ pv e (rw zone at from) h)
                  (handled_by_if (id == 0x0081) _ _ data_ pv e
                    (λ same.
                      let ban : id ≡ 0x0081 = ground arith in
                      on_char_ban-Kept data_ pv e (rw ban at from) h)
                    (handled_by_if (id == 0x006C) _ _ data_ pv e
                      (λ same. on_char_refused-Kept data_ pv e h) h))))));
  }
