-- ===== src/Runtime/Journal/Chain.antt =====
-- The journal of a chain of revisions, in runtime/rust/lana-runtime/src/store.rs.
use lana.Prelude.{ℕ, ◌+◌, ◌^◌, ◌<◌, ◌≤◌, Bool, true, List, [], ◌∷◌, ◌++◌, length, All, ◌≡◌, ◌⊎◌}
use lana.Bytecode.Loader.{Utf8}
use lana.Bytecode.Encoder.{encode_all}
use lana.Runtime.Payload.{mutation_bytes, revision_digest, store_limit}
use lana.Runtime.Payload.Parsing.{FitsMutation}
use lana.Runtime.Store.{Store, Revision, Read, read_record, apply_revisions}
use lana.Runtime.Journal.{record_bytes}

abbrev pub payload_of : Revision → List ℕ
payload_of r = encode_all mutation_bytes r.mutations

-- A revision that follows revision `previous`, and that the journal can hold.
pub record IsLink (u : Utf8) (previous : ℕ) (r : Revision) : Type 0 where
  pub id : r.id ≡ previous + 1
  pub small : r.id < 2 ^ 64
  pub mutations : All (FitsMutation u) r.mutations
  pub count : length r.mutations < 2 ^ 32
  pub payload : length (payload_of r) ≤ store_limit
  pub digest : r.digest ≡ revision_digest r.id previous (length r.mutations) (payload_of r)

abbrev pub Chain : Utf8 → ℕ → List Revision → Type 0
Chain u previous [] = Unit {0}
Chain u previous (r ∷ rs) = IsLink u previous r × Chain u r.id rs

abbrev pub revision_record : ℕ → Revision → List ℕ
revision_record previous r = record_bytes r.id previous (length r.mutations) (payload_of r)

-- The journal of a chain of revisions.
abbrev pub records : ℕ → List Revision → List ℕ
records previous [] = []
records previous (r ∷ rs) = revision_record previous r ++ records r.id rs

abbrev pub last_id : ℕ → List Revision → ℕ
last_id previous [] = previous
last_id previous (r ∷ rs) = last_id r.id rs

-- Whether a record was read, after these.
abbrev pub seen : Bool → List Revision → Bool
seen saw [] = saw
seen saw (r ∷ rs) = seen true rs

-- The store after the revisions of a journal.
unfoldable pub recovered : ℕ → List Revision → Store → Store
recovered previous revs s = record s {
  revisions = s.revisions ++ revs;
  index = apply_revisions revs s.index;
  current_rev = last_id previous revs;
  journal_offset = s.journal_offset + length (records previous revs);
}

-- What may follow the last whole record.
abbrev pub Ends : List ℕ → Type 0
Ends tail = (read_record tail ≡ Read.finished) ⊎ (read_record tail ≡ Read.torn)
