-- ===== src/Osada/Tests/Names.antt =====
-- The names and the geometry at examples.
use so_unoficial.Prelude.{ℕ, ◌≡◌, ◌≤◌, refl, List, [], ◌∷◌, arith, ◌+◌, ◌*◌}
use so_unoficial.Osada.State.{osada_block_size}
use so_unoficial.Osada.Names.{set_fname, get_fname}
use so_unoficial.Osada.Names.Laws.{get_fname-set_fname}
use so_unoficial.Osada.Geometry.{read_and_set, read_and_set_tiles}

-- Seventeen bytes without a NUL.
abbrev old : List ℕ
old = 1 ∷ 2 ∷ 3 ∷ 4 ∷ 5 ∷ 6 ∷ 7 ∷ 8 ∷ 9 ∷ 10 ∷ 11 ∷ 12 ∷ 13 ∷ 14 ∷ 15 ∷ 16 ∷ 17 ∷ []

get_fname-set_fname_example : get_fname (set_fname old (b'a' ∷ b'b' ∷ [])) ≡ b'a' ∷ b'b' ∷ []
get_fname-set_fname_example =
    get_fname-set_fname old (b'a' ∷ b'b' ∷ []) refl (omega arith) (omega arith)

read_and_set_tiles_example :
    let g = read_and_set 4096 in
    (g.bitmap_0 ≡ g.header_1 + 1)
    × (g.file_table_0 ≡ g.bitmap_1 + 1)
    × (g.mapping_table_0 ≡ g.file_table_1 + 1)
    × (g.data_0 ≡ g.mapping_table_1 + 1)
    × (g.data_1 + 1 ≡ 4096)
    × (g.data_0 ≤ g.data_1)
    × (g.bm_data_0 ≡ g.data_0)
    × (g.bm_data_1 ≡ g.data_1)
    × (g.data_size * 4 ≤ g.mapping_table_size * osada_block_size)
    × (g.data_size ≤ g.bitmap_size * osada_block_size * 8)
read_and_set_tiles_example = read_and_set_tiles 4096 (omega arith) (omega arith)
