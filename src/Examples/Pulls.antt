-- ===== src/Examples/Pulls.antt =====
-- The theorems on pulled records, on the books and a server of two pages.
use expensesapp.Prelude.{
  ℕ, ◌≡◌, refl, true, false, Option, none, some, [], ◌∷◌, arith, is_some, if◌then◌else◌,
}
use expensesapp.Prelude.Fields.{Fields, field_get}
use expensesapp.Prelude.Int.{pos, neg, ◌+ℤ◌, ◌-ℤ◌, ℤ}
use expensesapp.Prelude.Text.{Text, text, text_eq}
use expensesapp.Models.{Account, AccountType}
use expensesapp.Validation.{transaction_schema, is_date, account_schema, is_color}
use expensesapp.Storage.ListStore.{add, add_at, write, next_key, next_after}
use expensesapp.Ledger.Database.{set_balance}
use expensesapp.Ledger.Delta.{get_balance_delta}
use expensesapp.Storage.Keyed.{insert, modify, lookup}
use expensesapp.Ledger.Opening.{opening}
use expensesapp.Sync.Identity.{get_mapping_by_uuid, upsert_mapping_from_pull}
use expensesapp.Sync.Outbox.{Runtime, SyncStore}
use expensesapp.Sync.Pull.{apply_transaction_balance, resolve_local_id_for_uuid}
use expensesapp.Sync.Pull.Accounts.{KeepsBalances, LeavesBalance, pulled_account-KeepsBalances}
use expensesapp.Sync.Pull.Balances.{pulled_transaction-opening}
use expensesapp.Sync.Pull.Drained.{IsDraining, pull_since-terminates}
use expensesapp.Sync.Pull.Pages.{PullAnswer, PullServer, page, apply_records, pull_since}
use expensesapp.Sync.Pull.Prefix.{IsPrefix, apply_records-IsPrefix}
use expensesapp.Sync.Pull.Redelivery.{SameBalances, upsert_pulled_transaction-again}
use expensesapp.Sync.Pull.Upsert.{
  upsert_pulled_account, Origin, map_row, state_of, upsert_pulled_transaction,
}
use expensesapp.Sync.Pull.Write.{Device, PulledRecord, Reading, type_of, write_decrypted_record}
use expensesapp.Sync.Tables.{SyncDb}
use expensesapp.Examples.Tables.{dexie, sync_dexie}
use expensesapp.Examples.Books.{account_of, dinner, lunch, mapping, plain_runtime, synced, today}

-- A number is the text of one code unit.
abbrev number_of : Text → Option ℕ
number_of [] = none
number_of (k ∷ []) = some k
number_of (k ∷ c ∷ s) = none

abbrev runtime : Runtime Unit
runtime = record plain_runtime { number = number_of; string = λ k. k ∷ [] }

-- An update without a balance renames the account, and one with a balance resets it.
abbrev overlay : Fields Unit → Account → Account
overlay payload a =
    if is_some (field_get (text "balance") payload)
    then record a { balance = pos 0 }
    else record a { name = text "bank" }

overlay-LeavesBalance : LeavesBalance sync_dexie runtime today overlay
unfolding LeavesBalance
overlay-LeavesBalance payload a h = rw h refl

abbrev reading : Reading Unit
reading = record {
  formats = record {
    is_uuid = λ s. true;
    is_positive_number = λ s. true;
    is_unit_number = λ s. true;
  };
  transaction_of = λ o. some dinner;
  account_of = λ o. some (account_of 1 AccountType.regular (pos 7));
  category_of = λ o. none;
  budget_of = λ o. none;
  overlay = overlay;
  setting_of = λ o. none;
}

abbrev device : Device sync_dexie
device = record { db = synced; cache = [] }

abbrev pulled : Text → Text → ℕ → PulledRecord
pulled type record_id seq = record {
  record_id = record_id;
  record_type = type;
  blob = [];
  version = 1;
  family_seq = seq;
  updated_at_map = [];
  deleted_at = none;
  added_by_user = text "u";
  edited_by_user = text "u";
}

-- The record `a` is that of the lunch.
pulled_transaction-opening_example :
    opening dexie 2
      (state_of (
        write_decrypted_record sync_dexie runtime reading today []
          (pulled (text "transaction") (text "a") 1)
          device)).db.ledger
    ≡ opening dexie 2 synced.ledger
unfolding type_of text_eq
pulled_transaction-opening_example =
    pulled_transaction-opening sync_dexie runtime today reading []
      (pulled (text "transaction") (text "a") 1) device refl 2

pulled_account-KeepsBalances_example :
    KeepsBalances dexie synced.ledger
      (state_of (
        write_decrypted_record sync_dexie runtime reading today
          ((text "balance", tt) ∷ [])
          (pulled (text "account") (text "c") 2)
          device)).db.ledger
unfolding type_of text_eq
pulled_account-KeepsBalances_example =
    pulled_account-KeepsBalances sync_dexie runtime today reading ((text "balance", tt) ∷ [])
      (pulled (text "account") (text "c") 2) device overlay-LeavesBalance refl

-- One page from the start and one after it.
abbrev answer_of : Option Text → PullAnswer
answer_of none = page (record {
  records = pulled (text "transaction") (text "a") 1 ∷ [];
  next_cursor = text "1";
  has_more = true;
})
answer_of (some cursor) = page (record { records = []; next_cursor = text "2"; has_more = false })

abbrev two_pages : PullServer
two_pages = record {
  World = Unit;
  pull_records = λ w cursor. (answer_of cursor, w);
  decrypt = λ bytes meta. some bytes;
  syntax_error = [];
}

abbrev remaining : Option Text → ℕ
remaining none = 1
remaining (some cursor) = 0

two_pages-IsDraining : IsDraining two_pages remaining
unfolding IsDraining
two_pages-IsDraining w w' none response h more = omega arith
two_pages-IsDraining w w' (some cursor) response h more = cc

apply_records-IsPrefix_example :
    IsPrefix sync_dexie runtime reading two_pages today
      (text "f")
      (pulled (text "transaction") (text "a") 1 ∷ [])
      (none, device)
      (apply_records sync_dexie runtime reading two_pages today
        (text "f")
        (pulled (text "transaction") (text "a") 1 ∷ [])
        (none, device))
apply_records-IsPrefix_example =
    apply_records-IsPrefix sync_dexie runtime reading two_pages today (text "f")
      (pulled (text "transaction") (text "a") 1 ∷ []) (none, device)

abbrev idle : SyncStore
idle = record { is_syncing = false; last_error = none; last_sync_at = none }

pull_since-terminates_example :
    (answer : PullAnswer) × (d' : Device sync_dexie) × (s' : SyncStore) × (w' : Unit) × (pull_since
        sync_dexie runtime reading two_pages today
        (text "f")
        2
        none
        device
        idle
        tt
      ≡ some (answer, d', s', w'))
    × (s'.is_syncing ≡ false)
pull_since-terminates_example =
    pull_since-terminates sync_dexie runtime reading two_pages today (text "f") remaining 2 none
      device idle tt two_pages-IsDraining (omega arith)

-- The record `a` is that of the row 1, the lunch, which is now the dinner.
abbrev mapped : SyncDb sync_dexie
mapped = record synced { mappings = record mapping { local_id = 1 ∷ [] } ∷ [] }

abbrev edited : Origin
edited = record { uuid = text "a"; creator_user_id = text "v"; version = 3 }

abbrev delivered : SyncDb sync_dexie
delivered = state_of (upsert_pulled_transaction sync_dexie runtime today dinner edited mapped)

upsert_pulled_transaction-again_example :
    SameBalances sync_dexie runtime today delivered
      (state_of (upsert_pulled_transaction sync_dexie runtime today dinner edited delivered))
unfolding upsert_pulled_transaction resolve_local_id_for_uuid get_mapping_by_uuid text_eq map_row
    upsert_mapping_from_pull lookup
upsert_pulled_transaction-again_example =
    upsert_pulled_transaction-again sync_dexie runtime today dinner edited mapped delivered
      (λ i. refl) refl refl

-- A device without accounts pulls an account with the balance of 7, which holds an expense of 20,
-- and then that expense: it is taken from the balance a second time.
abbrev counted : Reading Unit
counted = record reading { transaction_of = λ o. some (record lunch { id = none }) }

abbrev fresh : Device sync_dexie
fresh = record {
  db = record synced {
    ledger = record { accounts = ([], tt); transactions = ([], tt) };
    mappings = [];
  };
  cache = [];
}

abbrev with_account : Device sync_dexie
with_account = state_of (
    write_decrypted_record sync_dexie runtime counted today []
      (pulled (text "account") (text "c") 1) fresh)

abbrev with_expense : Device sync_dexie
with_expense = state_of (
    write_decrypted_record sync_dexie runtime counted today []
      (pulled (text "transaction") (text "d") 2) with_account)

balance_of : Option Account → Option ℤ
balance_of none = none
balance_of (some a) = some a.balance

counted_twice :
    balance_of (dexie.accounts.get 1 with_expense.db.ledger.accounts) ≡ some (neg (pos 13))
unfolding balance_of write_decrypted_record lookup text_eq transaction_schema is_date account_schema
    is_color upsert_pulled_transaction upsert_pulled_account resolve_local_id_for_uuid
    get_mapping_by_uuid type_of add add_at write next_key next_after insert map_row
    upsert_mapping_from_pull apply_transaction_balance set_balance get_balance_delta modify ◌+ℤ◌
    ◌-ℤ◌
counted_twice = refl
