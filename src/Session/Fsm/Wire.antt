-- ===== src/Session/Fsm/Wire.antt =====
-- pkg/session/fsm.go: writing and reading with a deadline, and the loops that feed a session. A
-- `net.Conn` is what its calls return: the reads that arrive in time, and a reply of each
-- `SetDeadline` and `Write` in order. With no read left the deadline passes, and `Read` returns
-- `timeout`. The handlers of a phase write to the connection too, so it stands in their environment.
pub mod Loop
pub mod Write
pub mod Received
use rathena_client.Shared.{
  ℕ, zero, suc, Bool, Option, none, some, List, [], ◌∷◌, ◌++◌, length, ltb, if◌then◌else◌, Bytes,
}
use rathena_client.Session.Core.{SessionCore, FeedError, no_error, err_unknown_packet, panic, feed}

-- The bytes and the error that one call of `Read` returns, not more bytes than it asks for.
pub record Read (Err : Type 0) : Type 0 where
  pub bytes : Bytes
  pub error : Option Err

-- `written` are the arguments of all calls of `Write`, `closed` counts the calls of `Close`.
pub record Conn (Err : Type 0) : Type 0 where
  pub replies : List (Option Err)
  pub written : List Bytes
  pub closed : ℕ

-- What the dialer returns: the connection, and the reads that it will bring, a finite list.
pub record Dialed (Err : Type 0) : Type 0 where
  pub conn : Conn Err
  pub reads : List (Read Err)

-- The environment of a phase's handlers: the connection, and the variables that they capture.
pub record Wired (Err S : Type 0) : Type 0 where
  pub conn : Conn Err
  pub state : S

pub data StepError (Err : Type 0) : Type 0 where
  io : Err → StepError Err
  unknown_id : ℕ → StepError Err
  panicked : StepError Err

module _ {Err : Type 0} where
  -- The error of the next `SetDeadline` or `Write`, and the replies after it.
  abbrev pub reply : List (Option Err) → Option Err
  reply [] = none
  reply (r ∷ rs) = r

  abbrev pub replies_after : List (Option Err) → List (Option Err)
  replies_after [] = []
  replies_after (r ∷ rs) = rs

  unfoldable pub set_deadline : Conn Err → Option Err × Conn Err
  set_deadline conn = (reply conn.replies, record conn { replies = replies_after conn.replies })

  -- The rest of `writeDeadline`, by the error of `SetDeadline`.
  unfoldable pub write_after : Option Err → Conn Err → Bytes → Option Err × Conn Err
  write_after (some err) conn b = (some err, conn)
  write_after none conn b = (
    reply conn.replies,
    record conn { replies = replies_after conn.replies; written = conn.written ++ b ∷ [] },
  )

  unfoldable pub write_deadline : Conn Err → Bytes → Option Err × Conn Err
  unfolding set_deadline write_after
  write_deadline conn b = let (failed, conn') = set_deadline conn in write_after failed conn' b

  abbrev pub close : Conn Err → Conn Err
  close conn = record conn { closed = suc conn.closed }

  -- The error of a step, of what `Feed` returned and of what `Read` did. Each error of `Feed` is an
  -- unknown packet.
  unfoldable pub step_error : FeedError → Option Err → Option (StepError Err)
  step_error (err_unknown_packet id) e = some (unknown_id id)
  step_error panic e = some panicked
  step_error no_error none = none
  step_error no_error (some err) = some (io err)

-- What a step or a loop leaves: the reads to come, the session, its environment, and the error.
pub record Fed (Err S V F : Type 0) : Type 0 where
  pub reads : List (Read Err)
  pub core : SessionCore (Wired Err S) V
  pub env : Wired Err S
  pub error : Option F

-- What the head of a loop decides: to leave it, to return an error, or to go on with a step.
pub data Turn (E F : Type 0) : Type 0 where
  stop : E → Turn E F
  fail : F → E → Turn E F
  go : E → Turn E F

-- The head of `feedUntil`.
abbrev pub until_done : {E F : Type 0} → (E → Bool) → E → Turn E F
until_done done e = if done e then stop e else go e

module _ {Err S V : Type 0} (timeout : Err) (now : Wired Err S → ℕ) where
  unfoldable pub feed_read :
      Read Err
      → List (Read Err)
      → SessionCore (Wired Err S) V
      → Wired Err S
      → Fed Err S V (StepError Err)
  unfolding step_error
  feed_read r rs c e =
      let f = feed now c e r.bytes in
      if ltb 0 (length r.bytes)
      then record { reads = rs; core = f.core; env = f.env; error = step_error f.error r.error }
      else record { reads = rs; core = c; env = e; error = step_error no_error r.error }

  -- The rest of `feedStep`, by the error of `SetDeadline`.
  unfoldable pub after_deadline :
      Option Err
      → List (Read Err)
      → SessionCore (Wired Err S) V
      → Wired Err S
      → Fed Err S V (StepError Err)
  unfolding feed_read
  after_deadline (some err) rs c e = record { reads = rs; core = c; env = e; error = some (io err) }
  after_deadline none [] c e = record { reads = []; core = c; env = e; error = some (io timeout) }
  after_deadline none (r ∷ rs) c e = feed_read r rs c e

  unfoldable pub feed_step :
      List (Read Err) → SessionCore (Wired Err S) V → Wired Err S → Fed Err S V (StepError Err)
  unfolding after_deadline set_deadline
  feed_step rs c e =
      let (failed, conn') = set_deadline e.conn in
      after_deadline failed rs c (record e { conn = conn' })

  module _ {F : Type 0} (wrap : StepError Err → F) where
    -- The loop goes on where the step has no error.
    unfoldable pub go_on :
        Fed Err S V (StepError Err) → Option (StepError Err) → Fed Err S V F → Fed Err S V F
    go_on s none rest = rest
    go_on s (some err) rest = record {
      reads = s.reads;
      core = s.core;
      env = s.env;
      error = some (wrap err);
    }

    unfoldable pub turned :
        Turn (Wired Err S) F
        → List (Read Err)
        → SessionCore (Wired Err S) V
        → (Wired Err S → Fed Err S V F)
        → Fed Err S V F
    turned (stop e) rs c next = record { reads = rs; core = c; env = e; error = none }
    turned (fail err e) rs c next = record { reads = rs; core = c; env = e; error = some err }
    turned (go e) rs c next = next e

    -- The loop: a step takes a read off, or ends in an error.
    unfoldable pub rounds :
        (Wired Err S → Turn (Wired Err S) F)
        → List (Read Err)
        → SessionCore (Wired Err S) V
        → Wired Err S
        → Fed Err S V F
    unfolding feed_step go_on turned
    rounds head [] c e = turned (head e) [] c (λ e'.
        let s = feed_step [] c e' in
        go_on s s.error (record { reads = []; core = s.core; env = s.env; error = none }))
    rounds head (r ∷ rs) c e =
        turned (head e) (r ∷ rs) c
          (λ e'. let s = feed_step (r ∷ rs) c e' in go_on s s.error (rounds head rs s.core s.env))

    unfoldable pub feed_until :
        (Wired Err S → Bool)
        → List (Read Err)
        → SessionCore (Wired Err S) V
        → Wired Err S
        → Fed Err S V F
    unfolding rounds
    feed_until done rs c e = rounds (until_done done) rs c e
