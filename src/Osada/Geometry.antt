-- ===== src/Osada/Geometry.antt =====
-- read_and_set of pokedex-server.c: where each region of the volume lies, in blocks.
use so_unoficial.Prelude.{ℕ, ◌+◌, ◌-◌, ◌*◌, ◌/◌, ◌%◌, ◌^◌, ◌≤◌, ◌<◌, ◌≡◌, arith}
use so_unoficial.Osada.State.{osada_block_size, file_table_size}

pub record Geometry : Type 0 where
  pub header_size : ℕ
  pub bitmap_size : ℕ
  pub mapping_table_size : ℕ
  pub data_size : ℕ
  pub header_0 : ℕ
  pub header_1 : ℕ
  pub bitmap_0 : ℕ
  pub bitmap_1 : ℕ
  pub file_table_0 : ℕ
  pub file_table_1 : ℕ
  pub mapping_table_0 : ℕ
  pub mapping_table_1 : ℕ
  pub data_0 : ℕ
  pub data_1 : ℕ
  pub bm_data_0 : ℕ
  pub bm_data_1 : ℕ

-- uint32_t arithmetic
abbrev pub add32 : ℕ → ℕ → ℕ
add32 a b = (a + b) % 2 ^ 32

abbrev pub sub32 : ℕ → ℕ → ℕ
sub32 a b = (a + 2 ^ 32 - b) % 2 ^ 32

abbrev pub mul32 : ℕ → ℕ → ℕ
mul32 a b = (a * b) % 2 ^ 32

-- The argument is `header_ptr->fs_blocks`. The sizes are unsigned expressions assigned to `int`s;
-- the offsets are sums of `int`s, which do not overflow where the sizes fit the volume.
pub read_and_set : ℕ → Geometry
read_and_set fs_blocks =
    let header_size : ℕ = 1 in
    let bitmap_size = fs_blocks / 8 / osada_block_size in
    let tables = sub32 (sub32 (sub32 fs_blocks header_size) bitmap_size) file_table_size in
    let mapping_table_size = add32 1 (sub32 (mul32 tables 4) 1 / osada_block_size) in
    let data_size = sub32 tables mapping_table_size in
    let bitmap_0 : ℕ = 1 in
    let bitmap_1 = bitmap_0 + bitmap_size - 1 in
    let file_table_0 = bitmap_size + 1 in
    let file_table_1 = file_table_0 + (file_table_size - 1) in
    let mapping_table_0 = file_table_0 + file_table_size in
    let mapping_table_1 = mapping_table_0 + mapping_table_size - 1 in
    let data_0 = mapping_table_0 + mapping_table_size in
    let data_1 = data_0 + data_size - 1 in
    let bm_bitmap_1 = 0 + 1 + bitmap_size - 1 in
    let bm_file_table_1 = bm_bitmap_1 + 1 + (file_table_size - 1) in
    let bm_mapping_table_1 = bm_file_table_1 + 1 + mapping_table_size - 1 in
    let bm_data_0 = bm_mapping_table_1 + 1 in
    record {
      header_size = header_size;
      bitmap_size = bitmap_size;
      mapping_table_size = mapping_table_size;
      data_size = data_size;
      header_0 = 0;
      header_1 = 0;
      bitmap_0 = bitmap_0;
      bitmap_1 = bitmap_1;
      file_table_0 = file_table_0;
      file_table_1 = file_table_1;
      mapping_table_0 = mapping_table_0;
      mapping_table_1 = mapping_table_1;
      data_0 = data_0;
      data_1 = data_1;
      bm_data_0 = bm_data_0;
      bm_data_1 = bm_data_0 + data_size - 1;
    }

-- On a volume of 1,300 to 2^30 - 1 blocks, read_and_set makes the regions follow one another from the header to the last
-- block with neither gap nor overlap; the data region is not empty, and the mapping table and the bitmap have an entry
-- and a bit for each of its blocks.
pub read_and_set_tiles :
    (n : ℕ)
    → 1300 ≤ n
    → n < 2 ^ 30
    → let g = read_and_set n in
      (g.bitmap_0 ≡ g.header_1 + 1)
      × (g.file_table_0 ≡ g.bitmap_1 + 1)
      × (g.mapping_table_0 ≡ g.file_table_1 + 1)
      × (g.data_0 ≡ g.mapping_table_1 + 1)
      × (g.data_1 + 1 ≡ n)
      × (g.data_0 ≤ g.data_1)
      × (g.bm_data_0 ≡ g.data_0)
      × (g.bm_data_1 ≡ g.data_1)
      × (g.data_size * 4 ≤ g.mapping_table_size * osada_block_size)
      × (g.data_size ≤ g.bitmap_size * osada_block_size * 8)
unfolding read_and_set
read_and_set_tiles n lo hi = omega arith
