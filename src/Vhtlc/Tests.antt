-- ===== src/Vhtlc/Tests.antt =====
-- The migration of internal/core/application/vhtlc_migration.go at work: the SQLite store, a contract manager that tracks what it imports, and keys that are bytes.
use fulmine.Sqlite.{insert_vhtlc}
use fulmine.Sqlite.{select_vhtlc}
use fulmine.Sqlite.{get_legacy}
use fulmine.Sqlite.{has_legacy}
use fulmine.Base.{
  ◌≡◌, refl, ℕ, Bool, true, false, ◌⊎◌, ◌||◌, String, Text, List, [], ◌∷◌, none, some, Result, ok,
  All, text_discrete, same, same_refl, codes_discrete, if◌then◌else◌,
}
use fulmine.Base.Int.{pos}
use fulmine.Vhtlc.{LegacyVhtlc}
use fulmine.Vhtlc.Args.{Keys, KeyRef, ContractArgs, build_vhtlc_contract_args}
use fulmine.Vhtlc.Args.Made.{IsMade, build_vhtlc_contract_args-IsMade}
use fulmine.Vhtlc.Migration.{Importer, State, migrate_rows, run_migration}
use fulmine.Vhtlc.Migration.Recorded.{IsRecorded}
use fulmine.Vhtlc.Migration.Lossless.{migrate_rows-again, run_migration-records}
use fulmine.Sqlite.{Tables, where_id}
use fulmine.Sqlite.Instance.{sqlite_repository, sqlite_repository-ReadsSucceed}

tracked_if :
    (t : Bool) (k c : String) (cs : List String)
    → ◌≡◌ {A = Result String (List String)} (if t then ok (k ∷ []) else ok []) (ok (c ∷ cs))
    → t ≡ true
tracked_if true k c cs e = refl
tracked_if false k c cs e = cc

or_true : (t : Bool) → t || true ≡ true
or_true true = refl
or_true false = refl

-- The manager's contracts are their scripts.
abbrev manager : Importer
manager = record {
  Contract = String;
  script = λ c. c;
  State = String → Bool;
  get_contracts = λ k s. if s k then ok (k ∷ []) else ok [];
  import_contract = λ c s. (none, λ k. same text_discrete c k || s k);
  tracks = λ s k. s k;
  get_contracts_done = λ k s c cs e. tracked_if (s k) k c cs e;
  import_done = λ c s e. rw (same_refl text_discrete c c refl) refl;
  import_keeps = λ c s k h. rw h (or_true _);
}

abbrev byte_keys : Keys
byte_keys = record {
  PubKey = List ℕ;
  parse_pub_key = λ bytes. some bytes;
  serialize_compressed = λ key. key;
}

abbrev our_key : KeyRef byte_keys
our_key = record { id = "our key"; pub_key = 171 ∷ [] }

-- "ab", "cd" and "0F" in hexadecimal digits.
abbrev ab : Text
ab = 97 ∷ 98 ∷ []

abbrev row_ours : LegacyVhtlc
row_ours = record {
  preimage_hash = 48 ∷ 70 ∷ [];
  sender = ab;
  receiver = 99 ∷ 100 ∷ [];
  server = ab;
  refund_locktime = pos 840000;
  unilateral_claim_delay_type = pos 0;
  unilateral_claim_delay_value = pos 512;
  unilateral_refund_delay_type = pos 0;
  unilateral_refund_delay_value = pos 1024;
  unilateral_refund_without_receiver_delay_type = pos 1;
  unilateral_refund_without_receiver_delay_value = pos 144;
}

abbrev row_bad : LegacyVhtlc
row_bad = record row_ours { server = 120 ∷ [] }

abbrev hash_of : List ℕ → String
hash_of bytes = if same codes_discrete bytes (15 ∷ 171 ∷ 205 ∷ []) then "id of 0f" else "another id"

abbrev builds : ContractArgs byte_keys → Result String String
builds args = ok args.sender_key_id

-- The tables of a wallet of an older version.
abbrev old_tables : Tables
old_tables = record { vhtlc = []; vhtlc_legacy = some (row_ours ∷ []) }

abbrev before : State sqlite_repository manager
unfolding sqlite_repository
before = record { store = old_tables; importer = λ k. false }

abbrev after : State sqlite_repository manager
after =
    run_migration byte_keys sqlite_repository manager hash_of false (some our_key) (some builds)
      before

dropped : sqlite_repository.legacy after.store ≡ none
unfolding sqlite_repository run_migration codes_discrete has_legacy get_legacy select_vhtlc
    insert_vhtlc
dropped = refl

recorded :
    sqlite_repository.row after.store "id of 0f"
    ≡ some (record { id = "id of 0f"; script = "our key" })
unfolding sqlite_repository run_migration codes_discrete where_id has_legacy get_legacy select_vhtlc
    insert_vhtlc
recorded = refl

abbrev before_bad : State sqlite_repository manager
unfolding sqlite_repository
before_bad = record {
  store = record old_tables { vhtlc_legacy = some (row_ours ∷ row_bad ∷ []) };
  importer = λ k. false;
}

-- A row that is skipped keeps the old table.
kept :
    sqlite_repository.legacy
      (run_migration byte_keys sqlite_repository manager hash_of false
        (some our_key)
        (some builds)
        before_bad).store
    ≡ some (row_ours ∷ row_bad ∷ [])
unfolding sqlite_repository run_migration codes_discrete has_legacy get_legacy select_vhtlc
    insert_vhtlc
kept = refl

run_migration-records_example :
    ((row_ours ∷ []) ≡ [])
    ⊎ ((key_ref : KeyRef byte_keys) × (some our_key ≡ some key_ref)
        × All
            (λ row. IsRecorded byte_keys sqlite_repository manager hash_of key_ref row after)
            (row_ours ∷ []))
unfolding sqlite_repository
run_migration-records_example =
    run_migration-records byte_keys sqlite_repository manager hash_of false (some our_key)
      (some builds) before (row_ours ∷ []) refl dropped

abbrev pass : (ℕ × ℕ) × State sqlite_repository manager
pass =
    migrate_rows byte_keys sqlite_repository manager hash_of our_key builds (row_ours ∷ []) (0, 0)
      before

none_skipped : pass.0.1 ≡ 0
unfolding sqlite_repository migrate_rows codes_discrete select_vhtlc insert_vhtlc
none_skipped = refl

migrate_rows-again_example :
    migrate_rows byte_keys sqlite_repository manager hash_of our_key builds
      (row_ours ∷ [])
      (0, 0)
      pass.1
    ≡ ((0, 0), pass.1)
migrate_rows-again_example =
    migrate_rows-again byte_keys sqlite_repository manager hash_of our_key builds (row_ours ∷ [])
      (0, 0) (0, 0) before sqlite_repository-ReadsSucceed none_skipped

abbrev ours_args : ContractArgs byte_keys
ours_args = record {
  sender = 171 ∷ [];
  receiver = 205 ∷ [];
  signer = 171 ∷ [];
  sender_key_id = "our key";
  receiver_key_id = "";
  preimage_hash = 15 ∷ [];
  refund_locktime = 840000;
  unilateral_claim_delay = record { kind = 0; value = 512 };
  unilateral_refund_delay = record { kind = 0; value = 1024 };
  unilateral_refund_without_receiver_delay = record { kind = 1; value = 144 };
}

built : build_vhtlc_contract_args byte_keys hash_of row_ours our_key ≡ ok (ours_args, "id of 0f")
unfolding build_vhtlc_contract_args codes_discrete
built = refl

build_vhtlc_contract_args-IsMade_example :
    IsMade byte_keys hash_of row_ours our_key ours_args "id of 0f"
build_vhtlc_contract_args-IsMade_example =
    build_vhtlc_contract_args-IsMade byte_keys hash_of row_ours our_key ours_args "id of 0f" built
