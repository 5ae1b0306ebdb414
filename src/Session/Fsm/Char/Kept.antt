-- ===== src/Session/Fsm/Char/Kept.antt =====
-- What the handlers of the char phase keep.
use rathena_client.Shared.{
  ℕ, ◌≤◌, ◌<◌, ◌≡◌, ◌≢◌, ◌⊎◌, refl, arith, true, false, Option, none, some, List, length, leb, ltb,
  ◌&&◌, until_null, take, drop, Bytes, le_u16, le_u32, be_u32, u32, ◌+◌,
}
use rathena_client.Decode.Characters.{CharacterInfoEntry, decode_character_info_list}
use rathena_client.Decode.Characters.Entries.{decode_character_info_list-Total}
use rathena_client.Session.Core.Callbacks.{both_branches}
use rathena_client.Session.Fsm.Wire.{Conn}
use rathena_client.Session.Fsm.Char.{
  CharError, decode_panic, CharChoice, CharEnv, fail_char, take_zone, take_domain, offer_chars,
  pick_char_slot, append_chars, page_counted,
}
use rathena_client.Session.Fsm.Char.Asks.{Asked}

-- The id and the size of the packet with the address of the map server, by the version.
abbrev pub IsZone : ℕ → ℕ → Bytes → Type 0
IsZone packetver id data_ =
    (20170315 ≤ packetver) × (id ≡ 0x0AC5) × (length data_ ≡ 156)
    ⊎ (packetver < 20170315) × (id ≡ 0x0081) × (length data_ ≡ 28)

-- The character and the address are those of such a packet from `From`.
pub record Zone (From : ℕ → Bytes → Type 0) (packetver : ℕ) (char_id map_ip map_port : ℕ)
    : Type 0 where
  pub id : ℕ
  pub data_ : Bytes
  pub from : From id data_
  pub is_zone : IsZone packetver id data_
  pub char : char_id ≡ le_u32 data_ 2
  pub ip : map_ip ≡ be_u32 data_ 22
  pub port : map_port ≡ le_u16 data_ 26

decoded : (raw : Bytes) (pv : ℕ) → decode_character_info_list raw pv ≢ none
decoded raw pv q = let (entries, found, count, at) = decode_character_info_list-Total raw pv in cc

module _ {Err W : Type 0} (From : ℕ → Bytes → Type 0) (packetver : ℕ) (before : Conn Err) where
  pub record Kept (e : CharEnv Err W) : Type 0 where
    pub asked : Asked before e.state.slot_sent e.conn
    pub sent : e.state.slot_sent ≡ true → e.state.res.got_char_list ≡ true
    pub quiet : 20201007 ≤ packetver → e.state.res.got_char_list ≡ false
    pub sound : e.state.res.err ≢ some decode_panic
    pub zone :
        e.state.res.done ≡ true
        → e.state.res.err ≡ none
        → Zone From packetver e.state.auth.char_id e.state.res.map_ip e.state.res.map_port

  pub fail_char-Kept :
      (err : CharError Err) (e : CharEnv Err W)
      → err ≢ decode_panic
      → Kept e
      → Kept (record e { state = fail_char err e.state })
  unfolding fail_char
  fail_char-Kept err e ne h = record {
    asked = h.asked;
    sent = h.sent;
    quiet = h.quiet;
    sound = λ q. ne cc;
    zone = λ d q. absurd cc;
  }

  pub take_zone-Kept :
      (id : ℕ) (data_ : Bytes) (e : CharEnv Err W)
      → From id data_
      → IsZone packetver id data_
      → Kept e
      → Kept (record e { state = take_zone data_ e.state })
  unfolding take_zone
  take_zone-Kept id data_ e from is_zone h = record {
    asked = h.asked;
    sent = h.sent;
    quiet = h.quiet;
    sound = h.sound;
    zone = λ d q. record {
      id = id;
      data_ = data_;
      from = from;
      is_zone = is_zone;
      char = refl;
      ip = refl;
      port = refl;
    };
  }

  pub take_domain-Kept :
      (data_ : Bytes) (e : CharEnv Err W)
      → Kept e
      → Kept (record e { state = take_domain data_ e.state })
  unfolding take_domain
  take_domain-Kept data_ e h =
      both_branches (λ s. Kept (record e { state = s }))
        (leb (28 + 128) (length data_) && ltb 0 (length (until_null (take 128 (drop 28 data_)))))
        (record (e.state) {
          res = record (e.state.res) { map_domain = until_null (take 128 (drop 28 data_)) };
        })
        e.state
        (record { asked = h.asked; sent = h.sent; quiet = h.quiet; sound = h.sound; zone = h.zone })
        h

  pub world-Kept :
      (w : W) (e : CharEnv Err W)
      → Kept e
      → Kept (record e { state = record (e.state) { world = w } })
  world-Kept w e h = record {
    asked = h.asked;
    sent = h.sent;
    quiet = h.quiet;
    sound = h.sound;
    zone = h.zone;
  }

  pub append_chars-Kept :
      (raw : Bytes) (e : CharEnv Err W)
      → Kept e
      → Kept (record e { state = append_chars raw e.state })
  append_chars-Kept raw e h = record {
    asked = h.asked;
    sent = h.sent;
    quiet = h.quiet;
    sound = h.sound;
    zone = h.zone;
  }

  pub page_counted-Kept :
      (data_ : Bytes) (e : CharEnv Err W)
      → Kept e
      → Kept (record e { state = page_counted data_ e.state })
  page_counted-Kept data_ e h =
      both_branches
        (λ s. Kept (record e {
          state = record s { res = record (s.res) { pages_recv = u32 (s.res.pages_recv + 1) } };
        }))
        (ltb 4 (length data_)) _ _
        (record { asked = h.asked; sent = h.sent; quiet = h.quiet; sound = h.sound; zone = h.zone })
        (record { asked = h.asked; sent = h.sent; quiet = h.quiet; sound = h.sound; zone = h.zone })

  listed-Kept :
      (slot : ℕ) (w : W) (e : CharEnv Err W)
      → packetver < 20201007
      → Kept e
      → Kept (record e {
        state = record (e.state) {
          world = w;
          res = record (e.state.res) { selected_slot = slot; got_char_list = true };
        };
      })
  listed-Kept slot w e old h = record {
    asked = h.asked;
    sent = λ q. refl;
    quiet = λ new. absurd (omega (arith, old, new));
    sound = h.sound;
    zone = h.zone;
  }

  offer_chars-Kept :
      (f : List CharacterInfoEntry → W → ℕ × W) (o : Option (List CharacterInfoEntry))
      (e : CharEnv Err W)
      → o ≢ none
      → packetver < 20201007
      → Kept e
      → Kept (record e { state = offer_chars f o e.state })
  unfolding offer_chars
  offer_chars-Kept f none e ne old h = absurd (ne refl)
  offer_chars-Kept f (some entries) e ne old h =
      let (slot, w) = f entries e.state.world in listed-Kept slot w e old h

  pub pick_char_slot-Kept :
      (choice : CharChoice W) (raw : Bytes) (e : CharEnv Err W)
      → packetver < 20201007
      → Kept e
      → Kept (record e { state = pick_char_slot choice raw e.state })
  unfolding pick_char_slot
  pick_char_slot-Kept choice raw e old h = pick (choice.on_char_list)
    where
      pick :
          (o : Option (List CharacterInfoEntry → W → ℕ × W))
          → Kept (record e {
            state = elim o [
              | none ↦ record (e.state) {
                res = record (e.state.res) {
                  selected_slot = choice.char_slot;
                  got_char_list = true;
                };
              }
              | some f ↦ offer_chars f (decode_character_info_list raw choice.packetver) e.state
            ];
          })
      pick none = listed-Kept choice.char_slot e.state.world e old h
      pick (some f) = offer_chars-Kept f _ e (decoded raw choice.packetver) old h
