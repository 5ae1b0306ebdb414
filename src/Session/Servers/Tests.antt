-- ===== src/Session/Servers/Tests.antt =====
-- Runs of the obfuscation with the last keys of the table, and the theorems of the sessions at
-- concrete packet versions.
use rathena_client.Shared.{
  ℕ, ◌≡◌, ◌≢◌, inl, inr, refl, arith, Option, none, some, List, [], ◌∷◌, Bytes, concat,
}
use rathena_client.Session.Core.{HandlerFunc, panic, feed, waiting, next_frame, SessionCore}
use rathena_client.Session.Core.Stream.{parse}
use rathena_client.Session.Core.Chunks.{stream, feed_all}
use rathena_client.Session.Servers.{
  no_obfuscation, enable_obfuscation, new_map_session, new_char_session,
}
use rathena_client.Session.Servers.Obfuscation.{
  keyed, encode_all, encode_all-enable_obfuscation, keyed-encode_all,
}
use rathena_client.Session.Lengths.{populate_map_lengths}
use rathena_client.Session.Lengths.Overrides.{apply_map_length_overrides}
use rathena_client.Session.Servers.Keys.{obfuscation_keys_for}
use rathena_client.Session.Servers.Ready.{server_feed-ne-panic, map_session_reads, with_callbacks}

last_keys : obfuscation_keys_for 20180307 ≡ (0x47DA10EB, 0x4B922CCF, 0x765C5055)
unfolding obfuscation_keys_for
last_keys = refl

abbrev three_ids : List ℕ
three_ids = 0x0436 ∷ 0x007D ∷ 0x0360 ∷ []

encode_all-enable_obfuscation_example :
    encode_all (enable_obfuscation no_obfuscation 0x47DA10EB 0x4B922CCF 0x765C5055) three_ids
    ≡ keyed 0x4B922CCF 0x765C5055 0x47DA10EB three_ids
encode_all-enable_obfuscation_example =
    encode_all-enable_obfuscation no_obfuscation 0x47DA10EB 0x4B922CCF 0x765C5055 three_ids

keyed-encode_all_example :
    keyed 0x4B922CCF 0x765C5055 0x47DA10EB
      (encode_all (enable_obfuscation no_obfuscation 0x47DA10EB 0x4B922CCF 0x765C5055) three_ids)
    ≡ three_ids
keyed-encode_all_example =
    keyed-encode_all no_obfuscation 0x47DA10EB 0x4B922CCF 0x765C5055 three_ids (omega arith)

abbrev clock : ℕ → ℕ
clock e = e

abbrev char_core : SessionCore ℕ Unit
char_core = new_char_session 20200401

server_feed-ne-panic_example : (feed clock char_core 0 (0x6b ∷ 0 ∷ 0 ∷ 0 ∷ [])).error ≢ panic
server_feed-ne-panic_example =
    server_feed-ne-panic clock char_core 0 (0x6b ∷ 0 ∷ 0 ∷ 0 ∷ []) (20200401, inr (inl refl))

-- Every frame of id 0x0073 counts.
abbrev counting : ℕ → Option (HandlerFunc ℕ)
counting id = some (λ data_ pv n. n)

abbrev map_core : SessionCore ℕ Unit
map_core = with_callbacks (new_map_session 20200401).core counting none none

abbrev refuse_reads : List Bytes
refuse_reads = (0x74 ∷ []) ∷ (0x00 ∷ 0x03 ∷ 0x81 ∷ []) ∷ []

refuse_waits : (stream map_core (concat refuse_reads)).stop ≡ waiting
unfolding parse next_frame new_map_session apply_map_length_overrides populate_map_lengths
refuse_waits = refl

map_session_reads_example : feed_all clock map_core 0 refuse_reads ≡ (
  (feed clock map_core 0 (concat refuse_reads)).core,
  (feed clock map_core 0 (concat refuse_reads)).env,
)
map_session_reads_example =
    map_session_reads counting none none clock 20200401 0 refuse_reads (omega arith) refuse_waits
