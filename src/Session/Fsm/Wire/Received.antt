-- ===== src/Session/Fsm/Wire/Received.antt =====
-- What a frame has to do with the reads: it is a packet of the length table, and it is a part of the
-- received bytes, if these have room in the buffer.
use rathena_client.Shared.{
  ℕ, ◌≤◌, ◌≡◌, ◌≢◌, sym, ap, ◌∙◌, arith, List, [], ◌∷◌, ◌++◌, append_assoc, length, length-append,
  take, drop, take_of_le, take-append-drop, Bytes, ℤ, pos,
}
use rathena_client.Session.Core.Frames.{IsFrame, next_frame-IsFrame}
use rathena_client.Session.Fsm.Wire.{Read}
use rathena_client.Session.Fsm.Wire.Loop.{Arrives}

abbrev pub AnyBytes : {Err : Type 0} → List (Read Err) → Bytes → Type 0
AnyBytes rs bs = Unit

pub any_arrives :
    {Err : Type 0} (lengths : ℕ → ℤ) (size : ℕ)
    → ((id : ℕ) → lengths id ≢ pos 1)
    → Arrives {Err = Err} lengths size (IsFrame lengths) AnyBytes
any_arrives lengths size no_one = record {
  cuts = λ rs. record {
    cut = λ bs id n b h. next_frame-IsFrame lengths bs id n (no_one id) h;
    rest = λ bs n b. tt;
    empty = λ bs b. tt;
    short = λ bs b. tt;
  };
  arrive = λ r rs bs b. tt;
}

-- All bytes that the reads bring.
abbrev pub bytes_of : {Err : Type 0} → List (Read Err) → Bytes
bytes_of [] = []
bytes_of (r ∷ rs) = r.bytes ++ bytes_of rs

-- The bytes stand one after the other in `total`.
abbrev pub PartOf : Bytes → Bytes → Type 0
PartOf total data_ = (before : Bytes) × (after : Bytes) × (total ≡ before ++ (data_ ++ after))

-- A packet of the table, from the bytes `total`.
abbrev pub Received : Bytes → (ℕ → ℤ) → ℕ → Bytes → Type 0
Received total lengths id data_ = IsFrame lengths id data_ × PartOf total data_

-- The buffer and the bytes to come are the end of `total`.
abbrev pub EndOf : {Err : Type 0} → Bytes → List (Read Err) → Bytes → Type 0
EndOf total rs bs = (before : Bytes) × (total ≡ before ++ (bs ++ bytes_of rs))

module _ {Err : Type 0} (total : Bytes) where
  EndOf-cut :
      (rs : List (Read Err)) (bs : Bytes) (n : ℕ) → EndOf total rs bs → PartOf total (take n bs)
  EndOf-cut rs bs n (before, h) = (
    before,
    drop n bs ++ bytes_of rs,
    h
        ∙ ap (λ t. before ++ (t ++ bytes_of rs)) (sym (take-append-drop n bs))
        ∙ ap (λ t. before ++ t) (append_assoc (take n bs) (drop n bs) (bytes_of rs)),
  )

  EndOf-drop :
      (rs : List (Read Err)) (bs : Bytes) (n : ℕ) → EndOf total rs bs → EndOf total rs (drop n bs)
  unfolding EndOf-cut
  EndOf-drop rs bs n (before, h) =
      let split = (EndOf-cut rs bs n (before, h)).2 in
      (
        before ++ take n bs,
        split ∙ sym (append_assoc before (take n bs) (drop n bs ++ bytes_of rs)),
      )

  EndOf-empty : (rs : List (Read Err)) (bs : Bytes) → EndOf total rs bs → EndOf total rs []
  EndOf-empty rs bs (before, h) = (before ++ bs, h ∙ sym (append_assoc before bs (bytes_of rs)))

  EndOf-take :
      (rs : List (Read Err)) (bs : Bytes) (size : ℕ)
      → length total ≤ size
      → EndOf total rs bs
      → EndOf total rs (take size bs)
  EndOf-take rs bs size room (before, h) =
      let fits : length bs ≤ size = omega (
        arith,
        ap length h,
        length-append before (bs ++ bytes_of rs),
        length-append bs (bytes_of rs),
        room,
      ) in
      (before, rw (take_of_le size bs fits) h)

  pub Received-arrives :
      (lengths : ℕ → ℤ) (size : ℕ)
      → length total ≤ size
      → ((id : ℕ) → lengths id ≢ pos 1)
      → Arrives {Err = Err} lengths size (Received total lengths) (EndOf total)
  Received-arrives lengths size room no_one = record {
    cuts = λ rs. record {
      cut = λ bs id n b h. (next_frame-IsFrame lengths bs id n (no_one id) h, EndOf-cut rs bs n b);
      rest = λ bs n b. EndOf-drop rs bs n b;
      empty = λ bs b. EndOf-empty rs bs b;
      short = λ bs b. EndOf-take rs bs size room b;
    };
    arrive = λ r rs bs (before, h).
        (before, h ∙ ap (λ t. before ++ t) (sym (append_assoc bs r.bytes (bytes_of rs))));
  }
