-- ===== src/Osada/File/Data/RoundTrip.antt =====
-- osada_read after osada_write.
use so_unoficial.Prelude.{
  le32, ℕ, ◌+◌, ◌-◌, ◌*◌, ◌^◌, ◌≤◌, ◌<◌, ◌≡◌, sym, ap, ◌∙◌, List, ◌∷◌, ◌++◌, length, take, drop,
  min, arith,
}
use so_unoficial.Osada.State.{osada_sexe, BitArray, Volume, Env, unlock}
use so_unoficial.Osada.Table.{signal}
use so_unoficial.Osada.Chain.Files.{IsVolume, Owns}
use so_unoficial.Osada.Reply.{Outcome, reply, silent, undefined, endless, answer}
use so_unoficial.Osada.Node.{at, locate_node}
use so_unoficial.Osada.File.Place.{locate_file}
use so_unoficial.Osada.File.Place.Frame.{locate_file-IsRelocked}
use so_unoficial.Osada.File.Data.{osada_read, osada_write}
use so_unoficial.Osada.File.Data.Contents.{file_bytes, AreBlocks, length-file_bytes}
use so_unoficial.Osada.File.Data.Bytes.{slice_splice}
use so_unoficial.Osada.File.Data.Read.{osada_read-file_bytes}
use so_unoficial.Osada.File.Data.Store.{Written, osada_write-Written}

module _ {Bits : Type 0} ⦃ops : BitArray Bits⦄ where
  abbrev left_by : Volume Bits → Outcome Bits → Volume Bits
  left_by v (reply bytes u) = u
  left_by v (silent u) = u
  left_by v undefined = v
  left_by v endless = v

  -- Where osada_write wrote bytes, at least one and so few that a response with them has fewer than 2^31 bytes,
  -- into a file within its size, and the same path leads osada_read to
  -- the same file afterwards, osada_read of as many bytes at the same offset answers success with those bytes, unless
  -- the offset is that of the file's last byte.
  pub osada_write-osada_read :
      (env env' : Env) (path : List ℕ) (offset : ℕ) (bytes : List ℕ) (v w u u' : Volume Bits)
      (pos : ℕ) (bs : List ℕ)
      → IsVolume v
      → locate_file path v ≡ at pos w
      → Owns v pos bs
      → AreBlocks v.blocks v.data_size bs
      → 0 < length bytes
      → 5 + length bytes < 2 ^ 31
      → offset + length bytes ≤ (v.file_table pos).file_size
      → (v.file_table pos).file_size ≤ 64 * length bs
      → (v.file_table pos).file_size < 2 ^ 32
      → offset + 1 < (v.file_table pos).file_size
      → osada_write env path offset bytes v ≡ reply (answer osada_sexe) u
      → locate_node path u ≡ at pos u'
      → osada_read env' path (length bytes) offset u
        ≡ reply (osada_sexe ∷ le32 (length bytes) ++ bytes) (signal unlock pos u')
  osada_write-osada_read env env' path offset bytes v w u u' pos bs f here o a some int inside fits
        small within wrote there =
      let (x, run, k) =
        osada_write-Written env path offset bytes v w pos bs here o a some (omega arith) inside fits
          small in
      let same : x ≡ u = ap (left_by v) (sym run ∙ wrote) in
      let k' : Written w env.now pos offset bytes bs u = rw same at k in
      let moved = locate_file-IsRelocked path v w pos here in
      let size : (u.file_table pos).file_size ≡ (v.file_table pos).file_size =
        ground (arith, k'.table pos, ap (λ y. (y.file_table pos).file_size) moved) in
      let area : u.data_size ≡ v.data_size = k'.data_size ∙ ap (λ y. y.data_size) moved in
      let entries : u.map_entries ≡ v.map_entries =
        k'.map_entries ∙ ap (λ y. y.map_entries) moved in
      let f' : IsVolume u = record {
        bits_fit = rw area f.bits_fit;
        entries_fit = rw (area, entries) f.entries_fit;
        codes_fit = rw area f.codes_fit;
      } in
      let n : min (length bytes) ((u.file_table pos).file_size - offset) ≡ length bytes =
        omega (arith, size, inside) in
      let whole : AreBlocks w.blocks w.data_size bs = rw moved a in
      let back : take (length bytes) (drop offset (file_bytes u.blocks bs)) ≡ bytes =
        ap (λ l. take (length bytes) (drop offset l)) k'.contents
        ∙ slice_splice offset bytes (file_bytes w.blocks bs)
            (omega (arith, length-file_bytes w.blocks w.data_size bs whole, inside, fits)) in
      let read =
        osada_read-file_bytes env' path (length bytes) offset u u' pos bs f' there k'.owns k'.sizes
          (rw size fits) (rw size small) (omega (arith, inside, small)) (rw size within)
          (rw n int) in
      read
      ∙ ap
          (λ i.
            reply (osada_sexe ∷ le32 i ++ take i (drop offset (file_bytes u.blocks bs)))
              (signal unlock pos u'))
          n
      ∙ ap (λ l. reply (osada_sexe ∷ le32 (length bytes) ++ l) (signal unlock pos u')) back
