-- ===== src/Session/Lengths/Blocks.antt =====
-- A length table and the assignments that build it, in the order of the source. A block is the
-- version from which it applies and its assignments; 0 stands for assignments under no condition.
use rathena_client.Shared.{ℕ, List, [], ◌∷◌, leb, ◌==◌, if◌then◌else◌, ℤ}

abbrev pub Table : Type 0
Table = ℕ → ℤ

abbrev pub Block : Type 0
Block = ℕ × List (ℕ × ℤ)

-- `t[id] = n`
abbrev pub assign : Table → ℕ → ℤ → Table
assign t id n i = if i == id then n else t i

unfoldable pub assign_all : List (ℕ × ℤ) → Table → Table
assign_all [] t = t
assign_all ((id, n) ∷ rest) t = assign_all rest (assign t id n)

-- `if pv >= since { ... }` for each block.
unfoldable pub populate : List Block → ℕ → Table → Table
unfolding assign_all
populate [] pv t = t
populate ((since, entries) ∷ rest) pv t =
    populate rest pv (if leb since pv then assign_all entries t else t)
