-- ===== src/Session/Lengths.antt =====
-- pkg/session/lengths_*.go: the packet length tables, as functions of the packet version.
mod Blocks
mod Login
mod Char
mod MapBase0064
mod MapBase00F4
mod MapBase0182
mod MapBase021D
mod MapSince20040705
mod MapSince20041129
mod MapSince20050718
mod MapSince20060424
mod MapSince20071002
mod MapSince20080401
mod MapSince20080827
mod MapSince20100803
mod MapSince20120410
mod MapSince20130320
mod MapSince20150507
mod MapSince20170419
mod MapSince20190403
mod MapSince20250402
pub mod Overrides
pub mod Laws
pub mod CharTable
use rathena_client.Shared.{ℕ, List, ◌++◌, ℤ, pos}
unfoldable pub use Blocks.{Block, Table, assign, assign_all, populate}
use Login.{login_base_0064, login_since_20120000}
use Char.{char_base_0066, char_since_20040419}
use MapBase0064.{map_base_0064}
use MapBase00F4.{map_base_00f4}
use MapBase0182.{map_base_0182}
use MapBase021D.{map_base_021d}
use MapSince20040705.{map_since_20040705}
use MapSince20041129.{map_since_20041129}
use MapSince20050718.{map_since_20050718}
use MapSince20060424.{map_since_20060424}
use MapSince20071002.{map_since_20071002}
use MapSince20080401.{map_since_20080401}
use MapSince20080827.{map_since_20080827}
use MapSince20100803.{map_since_20100803}
use MapSince20120410.{map_since_20120410}
use MapSince20130320.{map_since_20130320}
use MapSince20150507.{map_since_20150507}
use MapSince20170419.{map_since_20170419}
use MapSince20190403.{map_since_20190403}
use MapSince20250402.{map_since_20250402}

-- The zero value of the Go array: every id unknown.
abbrev pub no_lengths : Table
no_lengths id = pos 0

abbrev pub login_blocks : List Block
login_blocks = login_base_0064 ++ login_since_20120000

abbrev pub char_blocks : List Block
char_blocks = char_base_0066 ++ char_since_20040419

abbrev pub map_blocks : List Block
map_blocks =
    map_base_0064
    ++ (map_base_00f4
        ++ (map_base_0182
            ++ (map_base_021d
                ++ (map_since_20040705
                    ++ (map_since_20041129
                        ++ (map_since_20050718
                            ++ (map_since_20060424
                                ++ (map_since_20071002
                                    ++ (map_since_20080401
                                        ++ (map_since_20080827
                                            ++ (map_since_20100803
                                                ++ (map_since_20120410
                                                    ++ (map_since_20130320
                                                        ++ (map_since_20150507
                                                            ++ (map_since_20170419
                                                            ++ (map_since_20190403
                                                            ++ (map_since_20250402)))))))))))))))))

unfoldable pub populate_login_lengths : ℕ → Table → Table
unfolding populate
populate_login_lengths = populate login_blocks

unfoldable pub populate_char_lengths : ℕ → Table → Table
unfolding populate
populate_char_lengths = populate char_blocks

unfoldable pub populate_map_lengths : ℕ → Table → Table
unfolding populate
populate_map_lengths = populate map_blocks
