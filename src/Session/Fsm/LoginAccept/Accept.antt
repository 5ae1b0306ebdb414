-- ===== src/Session/Fsm/LoginAccept/Accept.antt =====
-- The accept packet as a whole: a laid out packet, and any bytes at all.
use rathena_client.Shared.{
  ℕ, suc, ◌+◌, ◌/◌, ◌%◌, ◌^◌, ◌<◌, ◌≤◌, ◌≡◌, refl, ap, ◌∙◌, arith, true, false, some, ◌∷◌, ◌++◌,
  map, append_assoc, length, get_elem?, drop, concat, ltb, leb, if◌then◌else◌, Bytes, length-append,
  drop-length_append, Bool-cases, inl, inr, put_u32, le_u32?,
}
use rathena_client.Session.Fsm.LoginAccept.{
  LoginAccept, accepted, header_size, sub_size, parse_servers, parse_login_accept,
}
use rathena_client.Session.Fsm.LoginAccept.Layout.{
  entry_bytes, entry_info, Packet, IsPacket, packet_bytes,
}
use rathena_client.Session.Fsm.LoginAccept.Parse.{get_elem?-append, parse_servers-entries}

pub parse_login_accept_reads :
    (packetver : ℕ) (data_ : Bytes) (a : LoginAccept) (payload : Bytes)
    → header_size packetver ≤ length data_
    → le_u32? data_ 4 ≡ some a.session_id1
    → le_u32? data_ 8 ≡ some a.account_id
    → le_u32? data_ 12 ≡ some a.session_id2
    → get_elem? data_ 46 ≡ some a.sex
    → drop (header_size packetver) data_ ≡ payload
    → parse_servers (suc (length payload)) (sub_size packetver) payload ≡ some a.servers
    → parse_login_accept data_ packetver ≡ some (accepted a)
unfolding parse_login_accept
parse_login_accept_reads packetver data_ a payload h s1 aid s2 sex rest servers =
    let long : ltb (length data_) (header_size packetver) ≡ false = ground arith in
    let inside : leb (header_size packetver) (length data_) ≡ true = ground arith in
    rw (long, s1, aid, s2, sex, inside, rest, servers)

le_u32?_reads :
    (data_ : Bytes) (n v : ℕ)
    → v < 2 ^ 32
    → get_elem? data_ n ≡ some (v % 2 ^ 8)
    → get_elem? data_ (n + 1) ≡ some (v / 2 ^ 8 % 2 ^ 8)
    → get_elem? data_ (n + 2) ≡ some (v / 2 ^ 16 % 2 ^ 8)
    → get_elem? data_ (n + 2 + 1) ≡ some (v / 2 ^ 24 % 2 ^ 8)
    → le_u32? data_ n ≡ some v
le_u32?_reads data_ n v lt a b c d = rw (a, b, c, d) (ap some (omega (arith, lt)))

abbrev ids : Packet → Bytes → Bytes
ids p after = put_u32 p.login_id1 ++ (put_u32 p.aid ++ (put_u32 p.login_id2 ++ after))

length-front :
    (packetver : ℕ) (p : Packet)
    → IsPacket packetver p
    → length (p.packet_header ++ ids p (p.last ++ (p.sex ∷ p.token))) ≡ header_size packetver
unfolding header_size
length-front packetver p h =
    let outer = length-append p.packet_header (ids p (p.last ++ (p.sex ∷ p.token))) in
    let inner = length-append p.last (p.sex ∷ p.token) in
    elim (Bool-cases (leb 20170315 packetver)) [
      | inl new ↦
          let token : length p.token ≡ 17 = rw new at h.token in
          rw new (omega (arith, outer, inner, h.packet_header, h.last, token))
      | inr old ↦
          let token : length p.token ≡ 0 = rw old at h.token in
          rw old (omega (arith, outer, inner, h.packet_header, h.last, token))
    ]

-- The size of an entry at a packet version.
abbrev pub entry_size : ℕ → ℕ
entry_size packetver = if leb 20170315 packetver then 160 else 32

entry_size-sub_size : (packetver : ℕ) → entry_size packetver ≡ sub_size packetver
unfolding sub_size
entry_size-sub_size packetver = refl

-- On every packet that is laid out as the login server writes it, with 17 bytes of token before the
-- char servers and 160 bytes for each from packet version 20170315 on, else with none and 32, whatever
-- the fields that the client does not read, and with a rest too short for a server, the parser
-- returns the three ids, the sex and all the char servers, each with its address, port, user count
-- and name up to the first zero byte.
pub parse_login_accept-packet_bytes :
    (packetver : ℕ) (p : Packet) (rest : Bytes)
    → IsPacket packetver p
    → length rest < entry_size packetver
    → parse_login_accept (packet_bytes p ++ rest) packetver
      ≡ some (
          accepted (record {
            servers = map entry_info p.char_servers;
            account_id = p.aid;
            session_id1 = p.login_id1;
            session_id2 = p.login_id2;
            sex = p.sex;
          }))
parse_login_accept-packet_bytes packetver p rest h short =
    let servers = concat (map entry_bytes p.char_servers) in
    let payload = servers ++ rest in
    let tail = p.last ++ (p.sex ∷ (p.token ++ payload)) in
    let data_ = p.packet_header ++ ids p tail in
    let front = p.packet_header ++ ids p (p.last ++ (p.sex ∷ p.token)) in
    let assoc : packet_bytes p ++ rest ≡ data_ =
      append_assoc p.packet_header (ids p (p.last ++ (p.sex ∷ (p.token ++ servers)))) rest
      ∙ ap (λ t. p.packet_header ++ ids p t)
          (append_assoc p.last (p.sex ∷ (p.token ++ servers)) rest)
      ∙ ap (λ t. p.packet_header ++ ids p (p.last ++ (p.sex ∷ t)))
          (append_assoc p.token servers rest) in
    let split : front ++ payload ≡ data_ =
      append_assoc p.packet_header (ids p (p.last ++ (p.sex ∷ p.token))) payload
      ∙ ap (λ t. p.packet_header ++ ids p t) (append_assoc p.last (p.sex ∷ p.token) payload) in
    let size = length-front packetver p h in
    let at : (i : ℕ) → get_elem? data_ (4 + i) ≡ get_elem? (ids p tail) i =
      λ i. get_elem?-append p.packet_header (ids p tail) 4 i h.packet_header in
    let sex : get_elem? data_ 46 ≡ some p.sex =
      at 42 ∙ get_elem?-append p.last (p.sex ∷ (p.token ++ payload)) 30 0 h.last in
    let rest_of : drop (header_size packetver) data_ ≡ payload =
      rw (← split, ← size) (drop-length_append front payload) in
    let whole : length data_ ≡ header_size packetver + length payload =
      rw (← split, ← size) (length-append front payload) in
    rw assoc (
      parse_login_accept_reads packetver data_ _ payload (omega (arith, whole))
        (le_u32?_reads data_ 4 p.login_id1 h.login_id1 (at 0) (at 1) (at 2) (at 3))
        (le_u32?_reads data_ 8 p.aid h.aid (at 4) (at 5) (at 6) (at 7))
        (le_u32?_reads data_ 12 p.login_id2 h.login_id2 (at 8) (at 9) (at 10) (at 11)) sex rest_of
        (parse_servers-entries packetver (suc (length payload)) p.char_servers rest h.char_servers
          (omega (arith, short, entry_size-sub_size packetver)) (omega arith)))
