-- ===== src/Session/Fsm/Wire/Write.antt =====
-- What one write with a deadline does to the connection.
use rathena_client.Shared.{◌⊎◌, inl, inr, ◌≡◌, refl, Option, none, some, [], ◌∷◌, ◌++◌, Bytes}
use rathena_client.Session.Fsm.Wire.{Conn, reply, set_deadline, write_after, write_deadline}

module _ {Err : Type 0} where
  write_after-closed :
      (o : Option Err) (conn : Conn Err) (b : Bytes) → (write_after o conn b).1.closed ≡ conn.closed
  unfolding write_after
  write_after-closed (some err) conn b = refl
  write_after-closed none conn b = refl

  write_after-written :
      (o : Option Err) (conn : Conn Err) (b : Bytes)
      → (write_after o conn b).0 ≡ none
      → (write_after o conn b).1.written ≡ conn.written ++ b ∷ []
  unfolding write_after
  write_after-written (some err) conn b h = absurd cc
  write_after-written none conn b h = refl

  pub write_deadline-closed :
      (conn : Conn Err) (b : Bytes) → (write_deadline conn b).1.closed ≡ conn.closed
  unfolding write_deadline set_deadline
  write_deadline-closed conn b = write_after-closed (reply conn.replies) (set_deadline conn).1 b

  pub write_deadline-written :
      (conn : Conn Err) (b : Bytes)
      → (write_deadline conn b).0 ≡ none
      → (write_deadline conn b).1.written ≡ conn.written ++ b ∷ []
  unfolding write_deadline set_deadline
  write_deadline-written conn b h =
      write_after-written (reply conn.replies) (set_deadline conn).1 b h

  write_after-either :
      (o : Option Err) (conn : Conn Err) (b : Bytes)
      → ((write_after o conn b).1.written ≡ conn.written)
        ⊎ ((write_after o conn b).1.written ≡ conn.written ++ b ∷ [])
  unfolding write_after
  write_after-either (some err) conn b = inl refl
  write_after-either none conn b = inr refl

  -- Whatever fails, `Write` is called once or not at all.
  pub write_deadline-either :
      (conn : Conn Err) (b : Bytes)
      → ((write_deadline conn b).1.written ≡ conn.written)
        ⊎ ((write_deadline conn b).1.written ≡ conn.written ++ b ∷ [])
  unfolding write_deadline set_deadline
  write_deadline-either conn b = write_after-either (reply conn.replies) (set_deadline conn).1 b
