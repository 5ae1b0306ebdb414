-- ===== src/Encode/Cases.antt =====
-- The Go switches of pkg/encode: on the packet version, and on a base packet id.
use rathena_client.Shared.{ℕ, Option, none, some, List, [], ◌∷◌, ◌==◌, if◌then◌else◌}

-- The cases of a switch on the base id: the id, and what it returns.
abbrev pub Cases : Type 0
Cases = List (ℕ × ℕ)

unfoldable pub case_in : Cases → ℕ → Option ℕ
case_in [] base = none
case_in ((b, wire) ∷ rest) base = if base == b then some wire else case_in rest base
