-- ===== src/Session/Lengths/Overrides.antt =====
-- pkg/session/lengths_map_overrides.go: corrections on top of the generated map table.
use rathena_client.Shared.{ℕ, ◌&&◌, leb, ltb, ◌==◌, if◌then◌else◌, pos}
use rathena_client.Session.Lengths.Blocks.{Table, assign}

unfoldable pub apply_map_length_overrides : ℕ → Table → Table
apply_map_length_overrides pv t =
    let t1 : Table = if pv == 20130000 then assign t 0x009E (pos 19) else t in
    let t2 : Table = if leb 20110718 pv && ltb pv 20121212 then assign t1 0x08C7 (pos 19) else t1 in
    let t3 : Table = if leb 20181121 pv then assign t2 0x0ADD (pos 24) else t2 in
    assign t3 0x00FD (pos 30)
