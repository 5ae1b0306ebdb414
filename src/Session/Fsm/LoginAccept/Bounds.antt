-- ===== src/Session/Fsm/LoginAccept/Bounds.antt =====
-- The parser on any bytes: its reads are in range, and how many servers it finds.
use rathena_client.Shared.{
  le_u16?_lt, le_u32?_lt, be_u32?_lt, get_elem?_lt, ℕ, zero, suc, ◌-◌, ◌/◌, ◌<◌, ◌≤◌, ◌≡◌, refl, ap,
  sym, ◌∙◌, arith, true, some, List, [], ◌∷◌, ◌⊎◌, length, take, drop, ltb, leb, Bytes, slice?,
  length-drop, Bool-cases, inl, inr, ltb→lt,
}
use rathena_client.Session.Fsm.LoginAccept.{
  CharServerInfo, LoginAccept, too_short, accepted, header_size, sub_size, parse_server,
  parse_servers, parse_login_accept,
}
use rathena_client.Session.Fsm.LoginAccept.Parse.{
  parse_server_reads, parse_servers_step, parse_servers_end,
}
use rathena_client.Session.Fsm.LoginAccept.Accept.{parse_login_accept_reads}

header_size-cases : (packetver : ℕ) → (header_size packetver ≡ 47) ⊎ (header_size packetver ≡ 64)
unfolding header_size
header_size-cases packetver = elim (Bool-cases (leb 20170315 packetver)) [
  | inl new ↦ inr (rw new refl)
  | inr old ↦ inl (rw old refl)
]

sub_size-cases : (packetver : ℕ) → (sub_size packetver ≡ 32) ⊎ (sub_size packetver ≡ 160)
unfolding sub_size
sub_size-cases packetver = elim (Bool-cases (leb 20170315 packetver)) [
  | inl new ↦ inr (rw new refl)
  | inr old ↦ inl (rw old refl)
]

parse_server_lt :
    (payload : Bytes)
    → 28 ≤ length payload
    → (server : CharServerInfo) × (parse_server payload ≡ some server)
parse_server_lt payload h =
    let (ip, a) = be_u32?_lt payload 0 (omega arith) in
    let (port, b) = le_u16?_lt payload 4 (omega arith) in
    let (users, d) = le_u16?_lt payload 26 (omega arith) in
    let inside : leb 26 (length payload) ≡ true = ground arith in
    let name : slice? payload 6 26 ≡ some (take 20 (drop 6 payload)) = rw inside refl in
    (_, parse_server_reads payload ip port (take 20 (drop 6 payload)) users a b name d)

one_more :
    (sub n k m : ℕ)
    → (sub ≡ 32) ⊎ (sub ≡ 160)
    → sub ≤ n
    → m ≡ n - sub
    → k ≡ m / sub
    → suc k ≡ n / sub
one_more sub n k m (inl short) le less eq =
    let k_32 : k ≡ m / 32 = eq ∙ ap (λ t. m / t) short in
    let n_32 : suc k ≡ n / 32 = omega (arith, k_32, less, le, short) in
    n_32 ∙ ap (λ t. n / t) (sym short)
one_more sub n k m (inr long) le less eq =
    let k_160 : k ≡ m / 160 = eq ∙ ap (λ t. m / t) long in
    let n_160 : suc k ≡ n / 160 = omega (arith, k_160, less, le, long) in
    n_160 ∙ ap (λ t. n / t) (sym long)

no_more : (sub n : ℕ) → (sub ≡ 32) ⊎ (sub ≡ 160) → n < sub → 0 ≡ n / sub
no_more sub n (inl short) lt =
    let n_32 : 0 ≡ n / 32 = omega (arith, lt, short) in n_32 ∙ ap (λ t. n / t) (sym short)
no_more sub n (inr long) lt =
    let n_160 : 0 ≡ n / 160 = omega (arith, lt, long) in n_160 ∙ ap (λ t. n / t) (sym long)

parse_servers_total :
    (fuel sub : ℕ) (payload : Bytes)
    → (sub ≡ 32) ⊎ (sub ≡ 160)
    → length payload < fuel
    → (servers : List CharServerInfo) × (parse_servers fuel sub payload ≡ some servers)
      × (length servers ≡ length payload / sub)
parse_servers_total zero sub payload size enough = absurd (omega arith)
parse_servers_total (suc fuel) sub payload size enough =
    let wide : 28 ≤ sub = elim size [ inl a ↦ omega (arith, a) | inr b ↦ omega (arith, b) ] in
    elim (Bool-cases (ltb (length payload) sub)) [
      | inl short ↦
          let lt = ltb→lt (length payload) sub short in
          ([], parse_servers_end fuel sub payload lt, no_more sub (length payload) size lt)
      | inr long ↦
          let le : sub ≤ length payload = ground (arith, long) in
          let cut : length (drop sub payload) ≡ length payload - sub = length-drop sub payload in
          let (server, one) = parse_server_lt payload (omega arith) in
          let (servers, rest, count) =
            parse_servers_total fuel sub (drop sub payload) size (omega arith) in
          (
            server ∷ servers,
            parse_servers_step fuel sub payload (drop sub payload) server servers le refl one rest,
            one_more sub (length payload) (length servers) (length (drop sub payload)) size le cut
                count,
          )
    ]

too_short_lem :
    (packetver : ℕ) (data_ : Bytes)
    → ltb (length data_) (header_size packetver) ≡ true
    → parse_login_accept data_ packetver ≡ some (too_short (length data_) (header_size packetver))
unfolding parse_login_accept
too_short_lem packetver data_ h = rw h refl

-- On any bytes at all no read of the parser is out of range. It returns the error exactly where the
-- header is not complete, with both lengths, and else as many servers as whole entries fit behind
-- the header.
pub parse_login_accept_total :
    (packetver : ℕ) (data_ : Bytes)
    → (length data_ < header_size packetver)
        × (parse_login_accept data_ packetver
            ≡ some (too_short (length data_) (header_size packetver)))
      ⊎ (header_size packetver ≤ length data_)
        × (a : LoginAccept) × (parse_login_accept data_ packetver ≡ some (accepted a))
        × (length a.servers ≡ (length data_ - header_size packetver) / sub_size packetver)
parse_login_accept_total packetver data_ =
    elim (Bool-cases (ltb (length data_) (header_size packetver))) [
      | inl short ↦
          inl (
            ltb→lt (length data_) (header_size packetver) short,
            too_short_lem packetver data_ short,
          )
      | inr long ↦
          let le : header_size packetver ≤ length data_ = ground (arith, long) in
          let wide : 47 ≤ header_size packetver = elim (header_size-cases packetver) [
            | inl a ↦ omega (arith, a)
            | inr b ↦ omega (arith, b)
          ] in
          let payload = drop (header_size packetver) data_ in
          let cut : length payload ≡ length data_ - header_size packetver =
            length-drop (header_size packetver) data_ in
          let (s1, a) = le_u32?_lt data_ 4 (omega arith) in
          let (aid, b) = le_u32?_lt data_ 8 (omega arith) in
          let (s2, c) = le_u32?_lt data_ 12 (omega arith) in
          let (sex, d) = get_elem?_lt data_ 46 (omega arith) in
          let (servers, all_of, count) =
            parse_servers_total (suc (length payload)) (sub_size packetver) payload
              (sub_size-cases packetver) (omega arith) in
          let found : LoginAccept = record {
            servers = servers;
            account_id = aid;
            session_id1 = s1;
            session_id2 = s2;
            sex = sex;
          } in
          inr (
            le,
            found,
            parse_login_accept_reads packetver data_ found payload le a b c d refl all_of,
            count ∙ ap (λ t. t / sub_size packetver) cut,
          )
    ]
