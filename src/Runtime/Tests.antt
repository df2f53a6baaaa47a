-- ===== src/Runtime/Tests.antt =====
-- Runs of the store's model, and the theorems at inputs that meet their hypotheses.
use lana.Prelude.{
  ℕ, ◌≤◌, true, false, none, some, List, [], ◌∷◌, ◌++◌, length, ok, ◌≡◌, inr, refl, arith,
}
use lana.Bytecode.Objects.Text.{lit}
use lana.Bytecode.Encoder.{encode_all}
use lana.Runtime.Samples.{any_text, no_snapshot}
use lana.Runtime.Words.{be_bytes}
use lana.Runtime.Digest.{new, update, sha256}
use lana.Runtime.Digest.Stream.{one_by_one, update_append, new-IsReady}
use lana.Runtime.Payload.{
  Mutation, mutation_bytes, build_payload, parse_payload, revision_digest, store_limit, has_nul,
}
use lana.Runtime.Payload.Parsing.{IsClean, FitsMutation}
use lana.Runtime.Payload.Building.{parse_payload-build_payload}
use lana.Runtime.Store.{
  replay_loop, Store, Revision, read_record, replay, get_key, get_bytes_at, apply_revisions,
  apply_all, insert_key, found,
}
use lana.Runtime.Store.Lookup.{upto}
use lana.Runtime.Journal.{Disk, Write, Replace, opened, manifest_of, store_commit}
use lana.Runtime.Journal.Chain.{Chain, records, recovered, Ends}
use lana.Runtime.Journal.Replay.{replay-records}
use lana.Runtime.Journal.Durable.{OnDisk, IsDurable, IsDurable-aside}
use lana.Runtime.Journal.Writing.{Atomic, next_revision}
use lana.Runtime.Journal.Commit.{store_commit-Atomic}
use lana.Runtime.Journal.Opening.{
  OpensTo, Reopens, restored-IsDurable, open_disk-IsDurable, reopen-store_commit,
}
use lana.Runtime.Journal.History.{get_bytes_at-apply_revisions}
use lana.Runtime.Journal.Rounds.{replay_loop-fuel}

abc :
    sha256 (lit "abc")
    ≡ 0xba ∷ 0x78 ∷ 0x16 ∷ 0xbf ∷ 0x8f ∷ 0x01 ∷ 0xcf ∷ 0xea ∷ 0x41 ∷ 0x41 ∷ 0x40 ∷ 0xde ∷ 0x5d
      ∷ 0xae ∷ 0x22 ∷ 0x23 ∷ 0xb0 ∷ 0x03 ∷ 0x61 ∷ 0xa3 ∷ 0x96 ∷ 0x17 ∷ 0x7a ∷ 0x9c ∷ 0xb4 ∷ 0x10
      ∷ 0xff ∷ 0x61 ∷ 0xf2 ∷ 0x00 ∷ 0x15 ∷ 0xad ∷ []
unfolding sha256
abc = refl

update_append_example :
    (update (lit "ab") new ≡ one_by_one (lit "ab") new)
    × (update (lit "ab" ++ lit "c") new ≡ update (lit "c") (update (lit "ab") new))
update_append_example = update_append (lit "ab") (lit "c") new new-IsReady

-- A value under `a`, and the deletion of `b`.
abbrev put_a : Mutation
put_a = record { key = lit "a"; deleted = false; value = lit "1" }

abbrev delete_b : Mutation
delete_b = record { key = lit "b"; deleted = true; value = [] }

put_a-IsClean : IsClean any_text put_a
unfolding has_nul
put_a-IsClean = record {
  key_some = omega arith;
  key_text = refl;
  key_nul = refl;
  value_nul = refl;
  value_deleted = λ h. cc;
}

put_a-Fits : FitsMutation any_text put_a
put_a-Fits = record { clean = put_a-IsClean; key_short = omega arith; value_short = omega arith }

delete_b-IsClean : IsClean any_text delete_b
unfolding has_nul
delete_b-IsClean = record {
  key_some = omega arith;
  key_text = refl;
  key_nul = refl;
  value_nul = refl;
  value_deleted = λ h. refl;
}

delete_b-Fits : FitsMutation any_text delete_b
delete_b-Fits = record {
  clean = delete_b-IsClean;
  key_short = omega arith;
  value_short = omega arith;
}

abbrev two : List Mutation
two = put_a ∷ delete_b ∷ []

two_built : build_payload two ≡ ok (encode_all mutation_bytes two)
unfolding build_payload encode_all be_bytes sha256
two_built = refl

parse_payload-build_payload_example :
    (parse_payload any_text (encode_all mutation_bytes two) 2 ≡ ok two)
    × (length (encode_all mutation_bytes two) ≤ store_limit)
parse_payload-build_payload_example =
    parse_payload-build_payload any_text two (encode_all mutation_bytes two)
      (put_a-IsClean, (delete_b-IsClean, tt)) two_built

-- A first revision, and a disk that holds it before a record that breaks off.
abbrev first : Revision
first = record {
  id = 1;
  mutations = two;
  digest = revision_digest 1 0 2 (encode_all mutation_bytes two);
}

abbrev torn_record : List ℕ
torn_record = lit "LREV" ++ (0 ∷ 0 ∷ [])

abbrev disk : Disk
disk = record { journal = records 0 (first ∷ []) ++ torn_record; manifest = none }

first-Chain : Chain any_text 0 (first ∷ [])
first-Chain = (
  record {
    id = refl;
    small = omega arith;
    mutations = (put_a-Fits, (delete_b-Fits, tt));
    count = omega arith;
    payload = parse_payload-build_payload_example.1;
    digest = refl;
  },
  tt,
)

torn-Ends : Ends torn_record
unfolding read_record
torn-Ends = inr refl

replay-records_example :
    replay any_text (opened none) (records 0 (first ∷ []) ++ torn_record)
    ≡ ok (recovered 0 (first ∷ []) (opened none))
unfolding opened
replay-records_example =
    replay-records any_text (first ∷ []) torn_record (opened none) refl refl first-Chain torn-Ends

disk-OnDisk : OnDisk any_text disk (first ∷ [])
disk-OnDisk = record {
  tail = torn_record;
  journal = refl;
  ends = torn-Ends;
  chain = first-Chain;
  acknowledged = tt;
}

open_disk-IsDurable_example : OpensTo any_text no_snapshot disk (first ∷ [])
open_disk-IsDurable_example = open_disk-IsDurable any_text disk (first ∷ []) disk-OnDisk no_snapshot

-- The opened store and its disk, and the same with a value staged.
abbrev store : Store
store = recovered 0 (first ∷ []) (opened none)

abbrev store_disk : Disk
store_disk = record disk { manifest = some (manifest_of store) }

store-IsDurable : IsDurable any_text store store_disk (first ∷ [])
store-IsDurable = restored-IsDurable any_text disk (first ∷ []) disk-OnDisk

abbrev staged : Store
staged = record store { staged = put_a ∷ [] }

staged-IsDurable : IsDurable any_text staged store_disk (first ∷ [])
staged-IsDurable =
    IsDurable-aside any_text store store_disk (first ∷ []) (put_a ∷ []) store.io_failure
      store-IsDurable

-- The write of the record breaks off after 70 bytes, and is not rolled back.
store_commit-Atomic_example :
    Atomic any_text
      (first ∷ [])
      (next_revision staged)
      (store_commit (Write.broken 70 false) Replace.replaced staged store_disk)
store_commit-Atomic_example =
    store_commit-Atomic any_text staged store_disk (first ∷ []) staged-IsDurable (put_a-IsClean, tt)
      (Write.broken 70 false) Replace.replaced

reopen-store_commit_example :
    Reopens any_text no_snapshot
      (first ∷ [])
      (next_revision staged)
      (store_commit (Write.broken 70 false) Replace.replaced staged store_disk)
reopen-store_commit_example =
    reopen-store_commit any_text no_snapshot staged store_disk (first ∷ []) staged-IsDurable
      (put_a-IsClean, tt) (Write.broken 70 false) Replace.replaced

get_bytes_at-apply_revisions_example :
    get_bytes_at 1 (lit "a") store
    ≡ found (get_key (lit "a") (apply_revisions (upto 1 (first ∷ [])) []))
unfolding opened recovered
get_bytes_at-apply_revisions_example =
    get_bytes_at-apply_revisions any_text store store_disk (first ∷ []) store-IsDurable 1 (lit "a")
      (omega arith) (omega arith)

read_a : get_bytes_at 1 (lit "a") store ≡ ok (lit "1")
unfolding opened recovered get_bytes_at insert_key apply_all
read_a = refl

-- A key of one NUL byte.
abbrev put_nul : Mutation
put_nul = record { key = 0 ∷ []; deleted = false; value = lit "1" }

replay_loop-fuel_example :
    replay_loop any_text 200 (opened none) 0 false torn_record
    ≡ replay_loop any_text 7 (opened none) 0 false torn_record
replay_loop-fuel_example =
    replay_loop-fuel any_text 200 7 (opened none) 0 false torn_record (omega arith) (omega arith)
