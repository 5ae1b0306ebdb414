-- ===== src/Session/Fsm/Char/Asks.antt =====
-- What the char phase writes after its request to enter.
use rathena_client.Shared.{
  ℕ, zero, suc, ◌≡◌, ap, ◌∙◌, Bool, true, false, Option, none, some, List, [], ◌∷◌, ◌++◌,
  append_assoc, Bytes,
}
use rathena_client.Session.Fsm.Packets.{fsm_encode_request_character_page, fsm_encode_char_login}
use rathena_client.Session.Fsm.Wire.{Conn, set_deadline, write_after, write_deadline}
use rathena_client.Session.Fsm.Char.Handlers.{page_written, request_pages}

-- Requests of pages, and one request of a slot where the flag says so.
pub data Asks : Bool → List Bytes → Type 0 where
  nothing : Asks false []
  page :
      {b : Bool} {xs : List Bytes}
      → Asks b xs
      → Asks b (xs ++ fsm_encode_request_character_page ∷ [])
  select :
      {xs : List Bytes} (slot : ℕ)
      → Asks false xs
      → Asks true (xs ++ fsm_encode_char_login slot ∷ [])

-- What is written since `before`, by a connection that is as open as it was.
pub record Asked {Err : Type 0} (before : Conn Err) (b : Bool) (conn : Conn Err) : Type 0 where
  pub added : List Bytes
  pub asks : Asks b added
  pub written : conn.written ≡ before.written ++ added
  pub closed : conn.closed ≡ before.closed

module _ {Err : Type 0} (before : Conn Err) where
  pub set_deadline-Asked :
      (b : Bool) (conn : Conn Err) → Asked before b conn → Asked before b (set_deadline conn).1
  unfolding set_deadline
  set_deadline-Asked b conn h = record {
    added = h.added;
    asks = h.asks;
    written = h.written;
    closed = h.closed;
  }

  -- One packet more is written.
  more-Asked :
      (b : Bool) (conn : Conn Err) (p : Bytes)
      → (h : Asked before b conn) → (c : Bool) → Asks c (h.added ++ p ∷ [])
      → Asked before c (write_after none conn p).1
  unfolding write_after
  more-Asked b conn p h c k = record {
    added = h.added ++ p ∷ [];
    asks = k;
    written = ap (λ t. t ++ p ∷ []) h.written ∙ append_assoc before.written h.added (p ∷ []);
    closed = h.closed;
  }

  page_after-Asked :
      (b : Bool) (o : Option Err) (conn : Conn Err)
      → Asked before b conn
      → Asked before b (write_after o conn fsm_encode_request_character_page).1
  unfolding write_after
  page_after-Asked b (some err) conn h = h
  page_after-Asked b none conn h =
      more-Asked b conn fsm_encode_request_character_page h b (page h.asks)

  pub page-Asked :
      (b : Bool) (conn : Conn Err)
      → Asked before b conn
      → Asked before b (write_deadline conn fsm_encode_request_character_page).1
  unfolding write_deadline
  page-Asked b conn h =
      page_after-Asked b (set_deadline conn).0 (set_deadline conn).1 (set_deadline-Asked b conn h)

  select_after-Asked :
      (slot : ℕ) (o : Option Err) (conn : Conn Err)
      → Asked before false conn
      → let w = write_after o conn (fsm_encode_char_login slot) in
        (w.0 ≡ none → Asked before true w.1) × (b : Bool) × Asked before b w.1
  unfolding write_after
  select_after-Asked slot (some err) conn h = (λ q. absurd cc, false, h)
  select_after-Asked slot none conn h =
      let sent = more-Asked false conn (fsm_encode_char_login slot) h true (select slot h.asks) in
      (λ q. sent, true, sent)

  -- The slot is requested: once, where the write succeeds.
  pub select-Asked :
      (slot : ℕ) (conn : Conn Err)
      → Asked before false conn
      → let w = write_deadline conn (fsm_encode_char_login slot) in
        (w.0 ≡ none → Asked before true w.1) × (b : Bool) × Asked before b w.1
  unfolding write_deadline
  select-Asked slot conn h =
      select_after-Asked slot (set_deadline conn).0 (set_deadline conn).1
        (set_deadline-Asked false conn h)

  page_written-Asked :
      (b : Bool) (o : Option Err) (conn : Conn Err) (next : Conn Err → Option Err × Conn Err)
      → Asked before b conn
      → ((c : Conn Err) → Asked before b c → Asked before b (next c).1)
      → Asked before b (page_written o conn next).1
  unfolding page_written
  page_written-Asked b (some err) conn next h k = h
  page_written-Asked b none conn next h k = k conn h

  pub request_pages-Asked :
      (b : Bool) (n : ℕ) (conn : Conn Err)
      → Asked before b conn
      → Asked before b (request_pages n conn).1
  unfolding request_pages
  request_pages-Asked b zero conn h = h
  request_pages-Asked b (suc n) conn h =
      page_written-Asked b (write_deadline conn fsm_encode_request_character_page).0
        (write_deadline conn fsm_encode_request_character_page).1 (request_pages n)
        (page-Asked b conn h) (request_pages-Asked b n)
