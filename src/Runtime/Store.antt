-- ===== src/Runtime/Store.antt =====
-- The state of a store in runtime/rust/lana-runtime/src/store.rs, its journal file, and reading: the
-- index, the journal's records and `replay`. The `BTreeMap` is an association list in key order. The
-- journal's cursor is the list of the bytes after it.
use lana.Prelude.{
  ℕ, zero, suc, ◌+◌, ◌-◌, ◌*◌, ◌/◌, ◌%◌, ◌^◌, max, Bool, true, false, not, ◌&&◌, ◌||◌, ltb, leb,
  ◌==◌, if◌then◌else◌, Option, none, some, List, [], ◌∷◌, ◌++◌, length, take, drop, Result, ok, err,
  panic, ◌>>=◌, ◌>>◌, require,
}
use lana.Bytecode.Error.{LanaError}
use lana.Bytecode.Objects.Text.{Str, str_eq, lit}
use lana.Bytecode.Loader.{Utf8}
use lana.Runtime.Words.{be_bytes, be_value, slice}
use lana.Runtime.Payload.{Mutation, parse_payload, revision_digest, store_limit}
pub mod Lookup

pub record Revision : Type 0 where
  pub id : ℕ
  pub mutations : List Mutation
  pub digest : List ℕ

abbrev pub Index : Type 0
Index = List (Str × List ℕ)

-- `journal` tells whether the journal file is open. `io_failure` is the uncertainty of the last
-- storage failure.
pub record Store : Type 0 where
  pub index : Index
  pub staged : List Mutation
  pub revisions : List Revision
  pub current_rev : ℕ
  pub snapshot_rev : ℕ
  pub retention_boundary : ℕ
  pub journal : Bool
  pub journal_offset : ℕ
  pub io_failure : Option Bool

-- The order of `String`, by bytes.
unfoldable pub str_lt : Str → Str → Bool
str_lt xs [] = false
str_lt [] (y ∷ ys) = true
str_lt (x ∷ xs) (y ∷ ys) = ltb x y || ((x == y) && str_lt xs ys)

-- `BTreeMap::insert`, `remove` and `get`
unfoldable pub insert_key : Str → List ℕ → Index → Index
unfolding str_eq str_lt
insert_key key value [] = (key, value) ∷ []
insert_key key value ((k, v) ∷ rest) =
    let later = insert_key key value rest in
    if str_eq key k
    then (key, value) ∷ rest
    else (if str_lt key k then (key, value) ∷ (k, v) ∷ rest else (k, v) ∷ later)

unfoldable pub remove_key : Str → Index → Index
unfolding str_eq
remove_key key [] = []
remove_key key ((k, v) ∷ rest) =
    let later = remove_key key rest in if str_eq key k then later else (k, v) ∷ later

unfoldable pub get_key : Str → Index → Option (List ℕ)
unfolding str_eq
get_key key [] = none
get_key key ((k, v) ∷ rest) = if str_eq key k then some v else get_key key rest

-- The loop over a revision's mutations.
unfoldable pub apply_one : Mutation → Index → Index
unfolding insert_key remove_key
apply_one m index = if m.deleted then remove_key m.key index else insert_key m.key m.value index

unfoldable pub apply_all : List Mutation → Index → Index
unfolding apply_one
apply_all [] index = index
apply_all (m ∷ ms) index = apply_all ms (apply_one m index)

-- All the mutations of some revisions.
abbrev pub apply_revisions : List Revision → Index → Index
apply_revisions [] index = index
apply_revisions (r ∷ rs) index = apply_revisions rs (apply_all r.mutations index)

-- The inner loop of `store_get_at`: the last mutation of the key.
unfoldable pub latest_in : Str → List Mutation → Option Mutation → Option Mutation
unfolding str_eq
latest_in key [] latest = latest
latest_in key (m ∷ ms) latest = latest_in key ms (if str_eq m.key key then some m else latest)

-- The loop of `store_get_at` over the revisions, which stops past the one asked for.
unfoldable pub latest_upto : ℕ → Str → List Revision → Option Mutation → Option Mutation
unfolding latest_in
latest_upto revision key [] latest = latest
latest_upto revision key (r ∷ rs) latest =
    let later = latest_upto revision key rs (latest_in key r.mutations latest) in
    if ltb revision r.id then latest else later

-- The bytes that a mutation leaves under its key.
abbrev pub left_by : Option Mutation → Option (List ℕ)
left_by none = none
left_by (some m) = if m.deleted then none else some m.value

abbrev pub found : Option (List ℕ) → Result LanaError (List ℕ)
found none = err LanaError.not_found
found (some bytes) = ok bytes

-- `store_get` and `store_get_at` up to the decoding of the bytes.
unfoldable pub get_bytes : Str → Store → Result LanaError (List ℕ)
unfolding get_key
get_bytes key s = if not s.journal then err LanaError.invalid_state else found (get_key key s.index)

unfoldable pub get_bytes_at : ℕ → Str → Store → Result LanaError (List ℕ)
unfolding get_bytes latest_upto
get_bytes_at revision key s =
    if not s.journal
    then err LanaError.invalid_state
    else (if ltb s.current_rev revision
        then err LanaError.not_found
        else (if ltb revision s.retention_boundary
            then err LanaError.compacted_history
            else (if revision == s.current_rev
                then get_bytes key s
                else found (left_by (latest_upto revision key s.revisions none)))))

-- A record of the journal, as its bytes are cut up.
pub record Raw : Type 0 where
  pub revision : ℕ
  pub previous : ℕ
  pub count : ℕ
  pub digest : List ℕ
  pub payload : List ℕ
  pub magic : List ℕ
  pub commit_revision : ℕ
  pub commit_digest : List ℕ

-- What stands at the cursor: the end, a record that breaks off, an error, or a whole record and the
-- bytes after it.
pub data Read : Type 0 where
  finished : Read
  torn : Read
  corrupt : Read
  whole : Raw → List ℕ → Read

abbrev pub record_size : ℕ → ℕ
record_size payload_length = 64 + payload_length + 44

unfoldable pub raw_of : List ℕ → ℕ → Raw
raw_of rest len = record {
  revision = be_value (slice 4 8 rest);
  previous = be_value (slice 12 8 rest);
  count = be_value (slice 20 4 rest);
  digest = slice 32 32 rest;
  payload = slice 64 len rest;
  magic = slice (64 + len) 4 rest;
  commit_revision = be_value (slice (68 + len) 8 rest);
  commit_digest = slice (76 + len) 32 rest;
}

-- The reads of a round of `replay` after the first magic number. A file that ends in one of them
-- breaks off, and `replay` answers all of those alike.
unfoldable pub read_body : List ℕ → Read
unfolding raw_of
read_body rest =
    let len = be_value (slice 24 8 rest) in
    if not (leb 64 (length rest))
    then Read.torn
    else (if ltb store_limit len
        then Read.corrupt
        else (if not (leb (64 + len) (length rest))
            then Read.torn
            else (if not (leb (68 + len) (length rest))
                then Read.torn
                else (if not (leb (record_size len) (length rest))
                    then Read.torn
                    else Read.whole (raw_of rest len) (drop (record_size len) rest)))))

unfoldable pub read_record : List ℕ → Read
unfolding read_body str_eq
read_record rest =
    if not (leb 4 (length rest))
    then Read.finished
    else (if not (str_eq (take 4 rest) (lit "LREV")) then Read.corrupt else read_body rest)

-- The revision that a record must follow: after a compaction the first one follows the snapshot.
unfoldable pub follows : Store → ℕ → Raw → ℕ
follows s journal_revision r =
    if (journal_revision == 0)
      && (not (s.snapshot_rev == 0)
          && (ltb s.snapshot_rev (2 ^ 64 - 1)
              && ((r.revision == s.snapshot_rev + 1) && (r.previous == s.snapshot_rev))))
    then s.snapshot_rev
    else journal_revision

unfoldable pub linked : ℕ → Raw → Bool
unfolding str_eq
linked journal_revision r =
    str_eq r.magic (lit "LCMT")
    && ((r.commit_revision == r.revision)
        && ((r.previous == journal_revision)
            && (ltb r.previous (2 ^ 64 - 1)
                && ((r.revision == r.previous + 1) && str_eq r.digest r.commit_digest))))

-- The store after a record was accepted.
unfoldable pub accept : Raw → List Mutation → Store → Store
unfolding apply_all
accept r ms s = record s {
  revisions = s.revisions ++ (record { id = r.revision; mutations = ms; digest = r.digest } ∷ []);
  index = if ltb s.snapshot_rev r.revision then apply_all ms s.index else s.index;
  current_rev = if ltb s.snapshot_rev r.revision then r.revision else s.current_rev;
  journal_offset = s.journal_offset + record_size (length r.payload);
}

-- The end of the journal, after `saw` any record.
unfoldable pub at_end : Store → ℕ → Bool → Result LanaError Store
at_end s journal_revision saw =
    if (not saw && not (s.snapshot_rev == 0)) || leb s.snapshot_rev journal_revision
    then ok s
    else err LanaError.corruption

module _ (u : Utf8) where
  unfoldable pub accept_record : ℕ → Raw → Store → Result LanaError (Store × ℕ)
  unfolding follows linked accept str_eq
  accept_record journal_revision r s = do
    require (linked (follows s journal_revision r) r) LanaError.corruption
    require (str_eq (revision_digest r.revision r.previous r.count r.payload) r.digest)
        LanaError.corruption
    ms ← parse_payload u r.payload r.count
    ok (accept r ms s, r.revision)

  -- `replay`, on fuel: a round takes at least 108 bytes.
  unfoldable pub replay_loop : ℕ → Store → ℕ → Bool → List ℕ → Result LanaError Store
  unfolding read_record at_end accept_record
  replay_loop zero s journal_revision saw rest = err LanaError.corruption
  replay_loop (suc fuel) s journal_revision saw rest = elim (read_record rest) [
    | Read.finished ↦ at_end s journal_revision saw
    | Read.torn ↦ ok s
    | Read.corrupt ↦ err LanaError.corruption
    | Read.whole r after ↦ accept_record journal_revision r s >>= λ (s₁, revision).
        replay_loop fuel s₁ revision true after
  ]

  unfoldable pub replay : Store → List ℕ → Result LanaError Store
  unfolding replay_loop
  replay s file = replay_loop (suc (length file)) s 0 false file
