-- ===== src/Encode/Shuffle.antt =====
-- pkg/encode/shuffle_map.go: `shuffledCtoSID`, which id a request has at a packet version of the
-- shuffled years.
pub mod Since20130515
mod Since20130618
mod Since20131223
mod Since20150204
mod Since20150429
mod Since20150826
mod Since20151028
mod Since20151202
mod Since20160120
mod Since20160302
mod Since20160414
mod Since20160525
mod Since20160706
mod Since20160831
mod Since20161012
mod Since20161123
mod Since20170104
mod Since20170215
mod Since20170329
mod Since20170517
mod Since20170628
mod Since20170816
mod Since20170927
mod Since20171108
mod Since20171220
mod Since20180213
pub mod Injective
use rathena_client.Shared.{ℕ, Option, none, some, List, [], ◌∷◌, ◌++◌, ◌==◌, ltb, if◌then◌else◌}
use rathena_client.Encode.Cases.{Cases, case_in}
use rathena_client.Encode.Shuffle.Since20130515.{versions_since_20130515, cases_after_20180307}
use rathena_client.Encode.Shuffle.Since20130618.{versions_since_20130618}
use rathena_client.Encode.Shuffle.Since20131223.{versions_since_20131223}
use rathena_client.Encode.Shuffle.Since20150204.{versions_since_20150204}
use rathena_client.Encode.Shuffle.Since20150429.{versions_since_20150429}
use rathena_client.Encode.Shuffle.Since20150826.{versions_since_20150826}
use rathena_client.Encode.Shuffle.Since20151028.{versions_since_20151028}
use rathena_client.Encode.Shuffle.Since20151202.{versions_since_20151202}
use rathena_client.Encode.Shuffle.Since20160120.{versions_since_20160120}
use rathena_client.Encode.Shuffle.Since20160302.{versions_since_20160302}
use rathena_client.Encode.Shuffle.Since20160414.{versions_since_20160414}
use rathena_client.Encode.Shuffle.Since20160525.{versions_since_20160525}
use rathena_client.Encode.Shuffle.Since20160706.{versions_since_20160706}
use rathena_client.Encode.Shuffle.Since20160831.{versions_since_20160831}
use rathena_client.Encode.Shuffle.Since20161012.{versions_since_20161012}
use rathena_client.Encode.Shuffle.Since20161123.{versions_since_20161123}
use rathena_client.Encode.Shuffle.Since20170104.{versions_since_20170104}
use rathena_client.Encode.Shuffle.Since20170215.{versions_since_20170215}
use rathena_client.Encode.Shuffle.Since20170329.{versions_since_20170329}
use rathena_client.Encode.Shuffle.Since20170517.{versions_since_20170517}
use rathena_client.Encode.Shuffle.Since20170628.{versions_since_20170628}
use rathena_client.Encode.Shuffle.Since20170816.{versions_since_20170816}
use rathena_client.Encode.Shuffle.Since20170927.{versions_since_20170927}
use rathena_client.Encode.Shuffle.Since20171108.{versions_since_20171108}
use rathena_client.Encode.Shuffle.Since20171220.{versions_since_20171220}
use rathena_client.Encode.Shuffle.Since20180213.{versions_since_20180213}

-- The cases of the switch on the packet version.
abbrev pub shuffle_versions : List (ℕ × Cases)
shuffle_versions =
    versions_since_20130515
    ++ (versions_since_20130618
        ++ (versions_since_20131223
            ++ (versions_since_20150204
                ++ (versions_since_20150429
                    ++ (versions_since_20150826
                        ++ (versions_since_20151028
                            ++ (versions_since_20151202
                                ++ (versions_since_20160120
                                    ++ (versions_since_20160302
                                        ++ (versions_since_20160414
                                            ++ (versions_since_20160525
                                                ++ (versions_since_20160706
                                                    ++ (versions_since_20160831
                                                        ++ (versions_since_20161012
                                                            ++ (versions_since_20161123
                                                            ++ (versions_since_20170104
                                                            ++ (versions_since_20170215
                                                            ++ (versions_since_20170329
                                                            ++ (versions_since_20170517
                                                            ++ (versions_since_20170628
                                                            ++ (versions_since_20170816
                                                            ++ (versions_since_20170927
                                                            ++ (versions_since_20171108
                                                            ++ (versions_since_20171220
                                                            ++ (versions_since_20180213)))))))))))))))))))))))))

-- The inner switch at a packet version: without cases where the version has none.
unfoldable pub version_in : List (ℕ × Cases) → ℕ → Cases
version_in [] packetver = []
version_in ((v, cases) ∷ rest) packetver =
    if packetver == v then cases else version_in rest packetver

abbrev pub or_base : Option ℕ → ℕ → ℕ
or_base none base = base
or_base (some wire) base = wire

-- The first switch, and the second where no case of the first returns.
unfoldable pub shuffled_cto_sid : ℕ → ℕ → ℕ
unfolding case_in version_in
shuffled_cto_sid packetver base =
    let second = or_base (case_in (version_in shuffle_versions packetver) base) base in
    if ltb 20180307 packetver then or_base (case_in cases_after_20180307 base) second else second
