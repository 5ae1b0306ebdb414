-- ===== src/Session/Fsm/LoginAccept/Parse.antt =====
-- What the parser makes of a laid out packet, and of any bytes at all.
use rathena_client.Shared.{
  ℕ, zero, suc, ◌+◌, ◌-◌, ◌/◌, ◌%◌, ◌^◌, ◌<◌, ◌≤◌, ◌≡◌, refl, ap, ◌∙◌, arith, true, false, some,
  List, [], ◌∷◌, ◌++◌, map, append_assoc, length, get_elem?, drop, concat, All, ltb, leb, Bytes,
  slice?, length-append, take-length_append, drop-length_append, Bool-cases, inl, inr, put_u16,
  put_u32_be, le_u16?, be_u32?, until_null,
}
use rathena_client.Session.Fsm.LoginAccept.{
  CharServerInfo, fsm_c_str, sub_size, parse_server, parse_servers,
}
use rathena_client.Session.Fsm.LoginAccept.Layout.{Entry, IsEntry, entry_bytes, entry_info}

pub get_elem?-append {ℓ} :
    {A : Type ℓ} (xs ys : List A) (n i : ℕ)
    → length xs ≡ n
    → get_elem? (xs ++ ys) (n + i) ≡ get_elem? ys i
get_elem?-append [] ys n i h = let none_before : n + i ≡ i = omega arith in rw none_before
get_elem?-append (x ∷ xs) ys n i h =
    let one_more : n + i ≡ suc (length xs + i) = omega arith in
    rw one_more (get_elem?-append xs ys (length xs) i refl)

pub parse_server_reads :
    (payload : Bytes) (ip port : ℕ) (name : Bytes) (users : ℕ)
    → be_u32? payload 0 ≡ some ip
    → le_u16? payload 4 ≡ some port
    → slice? payload 6 26 ≡ some name
    → le_u16? payload 26 ≡ some users
    → parse_server payload
      ≡ some (record { ip = ip; port = port; name = until_null name; users = users })
unfolding parse_server fsm_c_str
parse_server_reads payload ip port name users a b c d = rw (a, b, c, d)

pub slice?-append :
    (before middle after : Bytes) (lo n : ℕ)
    → length before ≡ lo
    → length middle ≡ n
    → slice? (before ++ (middle ++ after)) lo (lo + n) ≡ some middle
slice?-append before middle after lo n hb hm =
    let bounds : leb lo (lo + n) ≡ true = ground arith in
    let inside : leb (lo + n) (length (before ++ (middle ++ after))) ≡ true =
      ground (arith, length-append before (middle ++ after), length-append middle after) in
    let start : drop lo (before ++ (middle ++ after)) ≡ middle ++ after =
      rw (← hb) (drop-length_append before (middle ++ after)) in
    let amount : lo + n - lo ≡ length middle = omega arith in
    rw (bounds, inside, start, amount, take-length_append middle after)

parse_server-entry_bytes :
    (packetver : ℕ) (e : Entry) (rest : Bytes)
    → IsEntry packetver e
    → parse_server (entry_bytes e ++ rest) ≡ some (entry_info e)
parse_server-entry_bytes packetver e rest h =
    let before = put_u32_be e.ip ++ put_u16 e.port in
    let tail = put_u16 e.users ++ (e.unread ++ rest) in
    let assoc : entry_bytes e ++ rest ≡ before ++ (e.name_field ++ tail) =
      ap (λ t. before ++ t) (append_assoc e.name_field (put_u16 e.users ++ e.unread) rest) in
    let low : get_elem? (e.name_field ++ tail) 20 ≡ some (e.users % 2 ^ 8) =
      get_elem?-append e.name_field tail 20 0 h.name_field in
    let high : get_elem? (e.name_field ++ tail) 21 ≡ some (e.users / 2 ^ 8 % 2 ^ 8) =
      get_elem?-append e.name_field tail 20 1 h.name_field in
    let ip : be_u32? (before ++ (e.name_field ++ tail)) 0 ≡ some e.ip =
      ap some (omega (arith, h.ip)) in
    let port : le_u16? (before ++ (e.name_field ++ tail)) 4 ≡ some e.port =
      ap some (omega (arith, h.port)) in
    let users : le_u16? (before ++ (e.name_field ++ tail)) 26 ≡ some e.users =
      rw (low, high) (ap some (omega (arith, h.users))) in
    rw assoc (
      parse_server_reads (before ++ (e.name_field ++ tail)) e.ip e.port e.name_field e.users ip port
        (slice?-append before e.name_field tail 6 20 refl h.name_field) users)

length-entry_bytes :
    (packetver : ℕ) (e : Entry) → IsEntry packetver e → length (entry_bytes e) ≡ sub_size packetver
unfolding sub_size
length-entry_bytes packetver e h =
    let outer = length-append e.name_field (put_u16 e.users ++ e.unread) in
    elim (Bool-cases (leb 20170315 packetver)) [
      | inl new ↦
          let unread : length e.unread ≡ 132 = rw new at h.unread in
          rw new (omega (arith, outer, h.name_field, unread))
      | inr old ↦
          let unread : length e.unread ≡ 4 = rw old at h.unread in
          rw old (omega (arith, outer, h.name_field, unread))
    ]

-- One round of the loop, on a payload that an entry is in front of.
pub parse_servers_step :
    (fuel sub : ℕ) (payload after : Bytes) (server : CharServerInfo) (servers : List CharServerInfo)
    → sub ≤ length payload
    → drop sub payload ≡ after
    → parse_server payload ≡ some server
    → parse_servers fuel sub after ≡ some servers
    → parse_servers (suc fuel) sub payload ≡ some (server ∷ servers)
unfolding parse_servers
parse_servers_step fuel sub payload after server servers le h one rest =
    let enough : ltb (length payload) sub ≡ false = ground arith in
    let inside : leb sub (length payload) ≡ true = ground arith in rw (enough, one, inside, h, rest)

pub parse_servers_end :
    (fuel sub : ℕ) (payload : Bytes)
    → length payload < sub
    → parse_servers (suc fuel) sub payload ≡ some []
unfolding parse_servers
parse_servers_end fuel sub payload lt =
    let short : ltb (length payload) sub ≡ true = ground arith in rw short

pub parse_servers-entries :
    (packetver fuel : ℕ) (es : List Entry) (rest : Bytes)
    → All (IsEntry packetver) es
    → length rest < sub_size packetver
    → length (concat (map entry_bytes es) ++ rest) < fuel
    → parse_servers fuel (sub_size packetver) (concat (map entry_bytes es) ++ rest)
      ≡ some (map entry_info es)
parse_servers-entries packetver zero es rest h short fuel = absurd (omega arith)
parse_servers-entries packetver (suc fuel) [] rest h short enough =
    parse_servers_end fuel (sub_size packetver) rest short
parse_servers-entries packetver (suc fuel) (e ∷ es) rest h short enough =
    let after = concat (map entry_bytes es) ++ rest in
    let size = length-entry_bytes packetver e h.0 in
    let assoc : (entry_bytes e ++ concat (map entry_bytes es)) ++ rest ≡ entry_bytes e ++ after =
      append_assoc (entry_bytes e) (concat (map entry_bytes es)) rest in
    let whole : length (entry_bytes e ++ after) ≡ sub_size packetver + length after =
      length-append (entry_bytes e) after ∙ ap (λ t. t + length after) size in
    let nonempty : 0 < sub_size packetver = omega arith in
    let less : length after < fuel = omega (arith, ap length assoc, whole, enough, nonempty) in
    let dropped : drop (sub_size packetver) (entry_bytes e ++ after) ≡ after =
      rw (← size) (drop-length_append (entry_bytes e) after) in
    rw assoc (
      parse_servers_step fuel (sub_size packetver) (entry_bytes e ++ after) after (entry_info e)
        (map entry_info es) (omega (arith, whole)) dropped
        (parse_server-entry_bytes packetver e after h.0)
        (parse_servers-entries packetver fuel es rest h.1 short less))
