-- ===== src/Session/Fsm/Wire/Loop.antt =====
-- What holds when a loop has ended: what its head and the callbacks keep, and what its head asks for.
use rathena_client.Shared.{
  ℕ, ◌≡◌, ◌≢◌, refl, ap, ◌∙◌, arith, Bool, true, false, Option, none, some, List, [], ◌∷◌, ◌++◌,
  append-nil, length, ltb, Bytes, ℤ, Bool-cases, inl, inr,
}
use rathena_client.Session.Core.{SessionCore, FeedError, no_error, err_unknown_packet, panic, feed}
use rathena_client.Session.Core.Callbacks.{Cuts, Keeps, feed-Holds}
use rathena_client.Session.Fsm.Wire.{
  Read, Wired, StepError, Fed, Turn, stop, fail, go, reply, set_deadline, step_error, feed_read,
  after_deadline, feed_step, go_on, turned, rounds, until_done,
}

-- What is known of the buffer by the reads that are still to come.
pub record Arrives {Err : Type 0} (lengths : ℕ → ℤ) (size : ℕ) (From : ℕ → Bytes → Type 0)
    (Buf : List (Read Err) → Bytes → Type 0) : Type 0 where
  pub cuts : (rs : List (Read Err)) → Cuts lengths size (Buf rs) From
  pub arrive :
      (r : Read Err) (rs : List (Read Err)) (bs : Bytes) → Buf (r ∷ rs) bs → Buf rs (bs ++ r.bytes)

-- What the head of the loop keeps, and what holds where it leaves the loop.
pub record Heads {Err S F : Type 0} (Inv Last Post : Wired Err S → Type 0) (Allowed : F → Type 0)
    (head : Wired Err S → Turn (Wired Err S) F) : Type 0 where
  pub quiet : (e : Wired Err S) → Inv e → Inv (record e { conn = (set_deadline e.conn).1 })
  pub stops : (e e' : Wired Err S) → head e ≡ stop e' → Inv e → Inv e' × Post e'
  pub fails : (e e' : Wired Err S) (err : F) → head e ≡ fail err e' → Inv e → Last e' × Allowed err
  pub leaves : (e : Wired Err S) → Inv e → Last e
  pub goes : (e e' : Wired Err S) → head e ≡ go e' → Inv e → Inv e'

-- The head of `feedUntil`.
pub until-Heads :
    {Err S F : Type 0} (Inv : Wired Err S → Type 0) (done : Wired Err S → Bool)
    → ((e : Wired Err S) → Inv e → Inv (record e { conn = (set_deadline e.conn).1 }))
    → Heads {F = F} Inv Inv (λ e. done e ≡ true) (λ err. Unit) (until_done done)
until-Heads {F} Inv done quiet = record {
  quiet = quiet;
  leaves = λ e h. h;
  stops = λ e e' p h. elim (Bool-cases (done e)) [
    | inl over ↦ let same : e ≡ e' = cc (rw over at p) in (rw (← same) h, rw (← same) over)
    | inr on ↦ absurd (cc (rw on at p))
  ];
  fails = λ e e' err p h. elim (Bool-cases (done e)) [
    | inl over ↦ absurd (cc (rw over at p))
    | inr on ↦ absurd (cc (rw on at p))
  ];
  goes = λ e e' p h. elim (Bool-cases (done e)) [
    | inl over ↦ absurd (cc (rw over at p))
    | inr on ↦ let same : e ≡ e' = cc (rw on at p) in rw (← same) h
  ];
}

step_error-none :
    {Err : Type 0} (f : FeedError) (o : Option Err) → step_error f o ≡ none → f ≡ no_error
unfolding step_error
step_error-none (err_unknown_packet id) o h = absurd cc
step_error-none panic o h = absurd cc
step_error-none no_error o h = refl

length-zero : {A : Type 0} (xs : List A) → ltb 0 (length xs) ≡ false → xs ≡ []
length-zero [] h = refl
length-zero (x ∷ xs) h = ground arith

module _ {Err S V F : Type 0} (timeout : Err) (now : Wired Err S → ℕ) (wrap : StepError Err → F)
    (lengths : ℕ → ℤ) (size : ℕ) (From : ℕ → Bytes → Type 0) (Inv Last Post : Wired Err S → Type 0)
    (Allowed : F → Type 0) (wraps : (err : StepError Err) → Allowed (wrap err))
    (Buf : List (Read Err) → Bytes → Type 0) (arrives : Arrives lengths size From Buf)
    (head : Wired Err S → Turn (Wired Err S) F) (heads : Heads Inv Last Post Allowed head) where
  -- Between two rounds.
  pub record Runs (rs : List (Read Err)) (c : SessionCore (Wired Err S) V) : Type 0 where
    pub sound : c.faulted ≡ false
    pub keeps : Keeps lengths size From Inv c
    pub buffer : Buf rs c.recv_buf

  abbrev Stepped : List (Read Err) → Fed Err S V (StepError Err) → Type 0
  Stepped rs s = Inv s.env × (s.error ≡ none → Runs rs s.core)

  feed_read-Runs :
      (b : Bool) (r : Read Err) (rs : List (Read Err)) (c : SessionCore (Wired Err S) V)
      (e : Wired Err S)
      → ltb 0 (length r.bytes) ≡ b
      → Runs (r ∷ rs) c
      → Inv e
      → Stepped rs (feed_read timeout now r rs c e)
  unfolding feed_read
  feed_read-Runs true r rs c e p h i =
      let (held, sound) =
        feed-Holds lengths size From Inv (Buf rs) (arrives.cuts rs) now c e r.bytes h.sound h.keeps
          i (arrives.arrive r rs c.recv_buf h.buffer) in
      rw p (
        held.inv,
        λ q. record {
          sound = sound (step_error-none (feed now c e r.bytes).error r.error q);
          keeps = held.keeps;
          buffer = held.buffer;
        },
      )
  feed_read-Runs false r rs c e p h i =
      let nothing : c.recv_buf ++ r.bytes ≡ c.recv_buf =
        ap (λ t. c.recv_buf ++ t) (length-zero r.bytes p) ∙ append-nil c.recv_buf in
      rw p (
        i,
        λ q. record {
          sound = h.sound;
          keeps = h.keeps;
          buffer = rw (← nothing) (arrives.arrive r rs c.recv_buf h.buffer);
        },
      )

  after_deadline-Runs :
      (o : Option Err) (r : Read Err) (rs : List (Read Err)) (c : SessionCore (Wired Err S) V)
      (e : Wired Err S)
      → Runs (r ∷ rs) c
      → Inv e
      → Stepped rs (after_deadline timeout now o (r ∷ rs) c e)
  unfolding after_deadline
  after_deadline-Runs (some err) r rs c e h i = (i, λ q. absurd cc)
  after_deadline-Runs none r rs c e h i = feed_read-Runs (ltb 0 (length r.bytes)) r rs c e refl h i

  after_deadline_end :
      (o : Option Err) (c : SessionCore (Wired Err S) V) (e : Wired Err S)
      → Inv e
      → Inv (after_deadline timeout now o [] c e).env
        × ((after_deadline timeout now o [] c e).error ≢ none)
  unfolding after_deadline
  after_deadline_end (some err) c e i = (i, λ q. cc)
  after_deadline_end none c e i = (i, λ q. cc)

  -- At the end of the loop, whatever ended it.
  pub record Ended (s : Fed Err S V F) : Type 0 where
    pub inv : Last s.env
    pub post : s.error ≡ none → Post s.env
    pub allowed : (err : F) → s.error ≡ some err → Allowed err

  go_on-Ended :
      (s : Fed Err S V (StepError Err)) (o : Option (StepError Err)) (rest : Fed Err S V F)
      → Inv s.env
      → (o ≡ none → Ended rest)
      → Ended (go_on timeout now wrap s o rest)
  unfolding go_on
  go_on-Ended s none rest i h = h refl
  go_on-Ended s (some err) rest i h = record {
    inv = heads.leaves s.env i;
    post = λ q. absurd cc;
    allowed = λ err' q. let same : wrap err ≡ err' = cc in rw (← same) (wraps err);
  }

  turned-Ended :
      (t : Turn (Wired Err S) F) (rs : List (Read Err)) (c : SessionCore (Wired Err S) V)
      (e : Wired Err S) (next : Wired Err S → Fed Err S V F)
      → head e ≡ t
      → Inv e
      → ((e' : Wired Err S) → Inv e' → Ended (next e'))
      → Ended (turned timeout now wrap t rs c next)
  unfolding turned
  turned-Ended (stop e') rs c e next p i k =
      let (i', q) = heads.stops e e' p i in
      record { inv = heads.leaves e' i'; post = λ n. q; allowed = λ err n. absurd cc }
  turned-Ended (fail err e') rs c e next p i k =
      let (i', a) = heads.fails e e' err p i in
      record {
        inv = i';
        post = λ n. absurd cc;
        allowed = λ err' n. let same : err ≡ err' = cc in rw (← same) a;
      }
  turned-Ended (go e') rs c e next p i k = k e' (heads.goes e e' p i)

  pub rounds-Ended :
      (rs : List (Read Err)) (c : SessionCore (Wired Err S) V) (e : Wired Err S)
      → Runs rs c
      → Inv e
      → Ended (rounds timeout now wrap head rs c e)
  unfolding rounds feed_step set_deadline
  rounds-Ended [] c e h i = turned-Ended (head e) [] c e _ refl i (λ e' i'.
      let s = feed_step timeout now [] c e' in
      let (i'', ne) =
        after_deadline_end (reply e'.conn.replies) c (record e' { conn = (set_deadline e'.conn).1 })
          (heads.quiet e' i') in
      go_on-Ended s s.error _ i'' (λ q. absurd (ne q)))
  rounds-Ended (r ∷ rs) c e h i = turned-Ended (head e) (r ∷ rs) c e _ refl i (λ e' i'.
      let s = feed_step timeout now (r ∷ rs) c e' in
      let (i'', next) =
        after_deadline-Runs (reply e'.conn.replies) r rs c
          (record e' { conn = (set_deadline e'.conn).1 }) h (heads.quiet e' i') in
      go_on-Ended s s.error _ i'' (λ q. rounds-Ended rs s.core s.env (next q) i''))
