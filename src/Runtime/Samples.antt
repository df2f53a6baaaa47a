-- ===== src/Runtime/Samples.antt =====
-- Data for the runs of the runtime's model.
use lana.Prelude.{true, none, some, [], Result, err, inl, refl}
use lana.Bytecode.Error.{LanaError}
use lana.Bytecode.Loader.{Utf8}
use lana.Runtime.Store.{Store, read_record}
use lana.Runtime.Journal.{Disk, opened, manifest_of}
use lana.Runtime.Journal.Chain.{recovered}
use lana.Runtime.Journal.Durable.{OnDisk, IsDurable}
use lana.Runtime.Journal.Opening.{restored-IsDurable}

-- Every byte sequence is taken for text.
abbrev pub any_text : Utf8
any_text = record { is_valid = λ bs. true; lossy = λ bs. bs; lossy_valid = λ bs h. refl }

-- No snapshot is loaded in these runs.
abbrev pub no_snapshot : Store → Result LanaError Store
no_snapshot s = err LanaError.corruption

-- A new store on an empty disk.
abbrev pub empty_disk : Disk
empty_disk = record { journal = []; manifest = none }

empty_disk-OnDisk : OnDisk any_text empty_disk []
unfolding read_record
empty_disk-OnDisk = record {
  tail = [];
  journal = refl;
  ends = inl refl;
  chain = tt;
  acknowledged = tt;
}

abbrev pub fresh : Store
fresh = recovered 0 [] (opened none)

abbrev pub fresh_disk : Disk
fresh_disk = record empty_disk { manifest = some (manifest_of fresh) }

pub fresh-IsDurable : IsDurable any_text fresh fresh_disk []
fresh-IsDurable = restored-IsDurable any_text empty_disk [] empty_disk-OnDisk
