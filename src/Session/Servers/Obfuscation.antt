-- ===== src/Session/Servers/Obfuscation.antt =====
-- The obfuscated packet ids against the rule of the server: a linear congruential generator that
-- steps once for each packet, of which 15 bits are the key.
use rathena_client.Shared.{
  ℕ, ◌+◌, ◌*◌, ◌/◌, ◌%◌, ◌^◌, ◌<◌, ◌≡◌, refl, ap, ap₂, ◌∙◌, arith, true, List, [], ◌∷◌, All,
  bit_and, bit_xor, bit_and-ones, bit_xor-bit_xor, u16, u32, u64, ◌>>◌,
}
use rathena_client.Session.Servers.{ObfuscationState, enable_obfuscation, encode_packet_id}

module _ (key1 key2 : ℕ) where
  -- The generator, and the key that a state gives.
  pub advance : ℕ → ℕ
  advance s = (s * key1 + key2) % 2 ^ 32

  pub key_of : ℕ → ℕ
  key_of s = s / 2 ^ 16 % 2 ^ 15

  -- The server's side, for a list of packet ids from generator state `s`. The same function hides
  -- and recovers the ids.
  pub keyed : ℕ → List ℕ → List ℕ
  keyed s [] = []
  keyed s (id ∷ ids) = bit_xor id (key_of (advance s)) ∷ keyed (advance s) ids

  key_of-lt : (s : ℕ) → key_of s < 2 ^ 16
  unfolding key_of
  key_of-lt s = omega arith

  -- Keying twice from the same state gives the 16-bit ids back.
  pub keyed-keyed :
      (s : ℕ) (ids : List ℕ) → All (λ id. id < 2 ^ 16) ids → keyed s (keyed s ids) ≡ ids
  unfolding keyed
  keyed-keyed s [] h = refl
  keyed-keyed s (id ∷ ids) h =
      ap₂ ◌∷◌ (bit_xor-bit_xor 16 id (key_of (advance s)) (h.0) (key_of-lt (advance s)))
        (keyed-keyed (advance s) ids (h.1))

-- The ids of the packets of a session, obfuscated one after the other.
pub encode_all : ObfuscationState → List ℕ → List ℕ
encode_all s [] = []
encode_all s (id ∷ ids) = let r = encode_packet_id s id in r.1 ∷ encode_all (r.0) ids

cut_words : (a b c : ℕ) → bit_and (u64 (u64 (a * b) + c)) 0xFFFFFFFF ≡ (a * b + c) % 2 ^ 32
cut_words a b c = bit_and-ones 32 (u64 (u64 (a * b) + c)) ∙ omega arith

rolled : (a b c : ℕ) → u32 (bit_and (u64 (u64 (a * b) + c)) 0xFFFFFFFF) ≡ (a * b + c) % 2 ^ 32
rolled a b c = ap u32 (cut_words a b c) ∙ omega arith

cut_key : (s : ℕ) → u16 (bit_and (s >> 16) 0x7FFF) ≡ s / 2 ^ 16 % 2 ^ 15
cut_key s = omega (arith, bit_and-ones 15 (s >> 16))

-- A state whose first packet is out, with rolling key `r`.
abbrev rolling : ℕ → ℕ → ℕ → ℕ → ℕ → ObfuscationState
rolling first r key0 key1 key2 = record {
  enabled = true;
  first_sent = true;
  first_key = first;
  rolling_key = r;
  key0 = key0;
  key1 = key1;
  key2 = key2;
}

encode_all-rolling :
    (first key0 key1 key2 s : ℕ) (ids : List ℕ)
    → encode_all (rolling first (advance key1 key2 s) key0 key1 key2) ids ≡ keyed key1 key2 s ids
unfolding encode_all encode_packet_id keyed advance key_of
encode_all-rolling first key0 key1 key2 s [] = refl
encode_all-rolling first key0 key1 key2 s (id ∷ ids) =
    ap₂ ◌∷◌ (ap (bit_xor id) (cut_key (advance key1 key2 s))) (
      ap (λ (r : ℕ). encode_all (rolling first r key0 key1 key2) ids)
        (rolled (advance key1 key2 s) key1 key2)
      ∙ encode_all-rolling first key0 key1 key2 (advance key1 key2 s) ids)

-- Once obfuscation is enabled, the ids on the wire are those that the server's generator keys, from
-- its first key on: the precomputed first key and the rolling key are two views of one generator.
pub encode_all-enable_obfuscation :
    (s : ObfuscationState) (key0 key1 key2 : ℕ) (ids : List ℕ)
    → encode_all (enable_obfuscation s key0 key1 key2) ids ≡ keyed key1 key2 key0 ids
unfolding encode_all encode_packet_id enable_obfuscation keyed advance key_of
encode_all-enable_obfuscation s key0 key1 key2 [] = refl
encode_all-enable_obfuscation s key0 key1 key2 (id ∷ ids) =
    let step1 = bit_and (u64 (u64 (key0 * key1) + key2)) 0xFFFFFFFF in
    let stepped : step1 ≡ advance key1 key2 key0 = cut_words key0 key1 key2 in
    let first = u16 (bit_and (step1 >> 16) 0x7FFF) in
    ap₂ ◌∷◌ (ap (bit_xor id) (cut_key step1 ∙ ap (key_of key1 key2) stepped)) (
      ap (λ (r : ℕ). encode_all (rolling first r key0 key1 key2) ids)
        (rolled step1 key1 key2 ∙ ap (advance key1 key2) stepped)
      ∙ encode_all-rolling first key0 key1 key2 (advance key1 key2 key0) ids)

-- A server that runs the generator from the same keys reads back every 16-bit id that the client
-- sends, in order.
pub keyed-encode_all :
    (s : ObfuscationState) (key0 key1 key2 : ℕ) (ids : List ℕ)
    → All (λ id. id < 2 ^ 16) ids
    → keyed key1 key2 key0 (encode_all (enable_obfuscation s key0 key1 key2) ids) ≡ ids
keyed-encode_all s key0 key1 key2 ids h =
    ap (keyed key1 key2 key0) (encode_all-enable_obfuscation s key0 key1 key2 ids)
    ∙ keyed-keyed key1 key2 key0 ids h
