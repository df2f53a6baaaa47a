-- ===== src/Bytecode/Objects.antt =====
-- vm/rust/lana-bytecode/src/objects.rs: the verification of LABC v6 object descriptors and of
-- the instructions that use them.
pub mod Text
pub mod Descriptor
pub mod Members
pub mod Access
pub mod Declared
pub mod Regions
pub mod Entries
use lana.Prelude.{not, none, [], length, replicate, Result, ok, ◌>>=◌, ◌>>◌, require}
use lana.Bytecode.Chunk.{Chunk}
use Descriptor.{Serde, Checked, invalid, descriptors}
use Members.{names_loop, descriptors_loop}
use Access.{enumerate, sort_entries, starts_at_zero, neighbours_meet, some_entry_free, regions_loop}
use lana.Prelude.{◌&&◌}

unfoldable pub verify : Serde → Chunk → Checked (Unit {0})
verify sd chunk = do
  ds ← descriptors sd chunk
  names ← names_loop [] ds
  owners ← descriptors_loop chunk ds names ds (replicate (length chunk.functions) none)
  let functions = sort_entries (enumerate 0 chunk.functions)
  require (starts_at_zero functions && not (neighbours_meet functions))
      (invalid "v6 requires distinct function entries covering its instructions")
  free ← some_entry_free chunk.entry owners functions
  require free (invalid "object body cannot be the entry point")
  regions_loop chunk ds owners functions
