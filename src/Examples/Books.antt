-- ===== src/Examples/Books.antt =====
-- A ledger of two accounts and an outbox of one edit.
use expensesapp.Prelude.{ℕ, true, false, Option, none, some, [], ◌∷◌, arith}
use expensesapp.Prelude.Int.{pos, ℤ}
use expensesapp.Prelude.Text.{Text, text}
use expensesapp.Models.{Account, AccountType, Transaction, TransactionType, TransferDirection}
use expensesapp.Ledger.Database.{Db, Faults}
use expensesapp.Sync.Records.{PendingUpload, RecordMapping, RecordType}
use expensesapp.Sync.Tables.{SyncDb}
use expensesapp.Sync.Outbox.{Engine, Runtime, Server, object}
use expensesapp.Examples.Tables.{dexie, sync_dexie}

abbrev pub account_of : ℕ → AccountType → ℤ → Account
account_of k type balance = record {
  id = some k;
  name = text "cash";
  type = type;
  color = text "oklch(60% 0.1 20)";
  icon = text "wallet";
  currency = text "EUR";
  description = [];
  balance = balance;
  starting_balance = pos 0;
  include_in_total = true;
  is_trashed = false;
  savings_goal = none;
  savings_interest_rate = none;
  debt_original_amount = none;
  mortgage_loan_amount = none;
  mortgage_start_date = none;
  mortgage_term_years = none;
  mortgage_interest_rate = none;
  auto_accrue_interest = none;
  created_at = text "2026-01-01";
  updated_at = text "2026-01-01";
}

abbrev pub transaction_of :
    Option ℕ → TransactionType → ℕ → ℤ → Option Text → Option TransferDirection → Transaction
transaction_of id type account_id amount group direction = record {
  id = id;
  type = type;
  date = text "2026-01-02";
  timestamp = text "2026-01-02T10:00";
  display_order = pos 1;
  account_id = account_id;
  category_id = none;
  currency = text "EUR";
  amount = amount;
  amount_main_currency = amount;
  exchange_rate = text "1";
  note = [];
  is_trashed = none;
  transfer_group_id = group;
  transfer_direction = direction;
  to_account_id = none;
  interest_amount = none;
  principal_amount = none;
  is_overpayment = none;
  recurring_rule = none;
  created_at = text "2026-01-02";
  updated_at = text "2026-01-02";
}

abbrev pub lunch : Transaction
lunch = transaction_of (some 1) TransactionType.expense 1 (pos 20) none none

abbrev pub dinner : Transaction
dinner = transaction_of none TransactionType.expense 2 (pos 35) none none

abbrev pub lent : Transaction
lent =
    transaction_of none TransactionType.transfer 1 (pos 10) (some (text "g"))
      (some TransferDirection.outward)

abbrev pub borrowed : Transaction
borrowed =
    transaction_of none TransactionType.transfer 2 (pos 10) (some (text "g"))
      (some TransferDirection.inward)

abbrev pub books : Db dexie
books = record {
  accounts = (
    (1, account_of 1 AccountType.regular (pos 80))
        ∷ (2, account_of 2 AccountType.savings (pos 500))
        ∷ [],
    (omega arith, (omega arith, tt)),
  );
  transactions = ((1, lunch) ∷ [], (omega arith, tt));
}

abbrev pub no_failure : Faults dexie
no_failure = record { write = λ db. none; push = λ p. none }

abbrev pub today : Text
today = text "2026-01-03"

abbrev pub upload_of : ℕ → Text → PendingUpload
upload_of k record_id = record {
  id = some k;
  record_id = record_id;
  record_type = RecordType.transaction;
  blob = text "AAAA";
  updated_at_map = [];
  deleted_at = none;
  parent_version = 0;
  plaintext_byte_count = 3;
  attempts = 0;
  last_failed_at = none;
  family_id = text "f";
  added_by_user_id = some (text "u");
  edited_by_user_id = some (text "u");
  terminal = none;
}

abbrev pub mapping : RecordMapping
mapping = record {
  record_type = RecordType.transaction;
  local_id = text "1";
  uuid = text "a";
  last_server_version = 0;
  creator_user_id = text "u";
}

-- The outbox holds the edits of the records `a` and `b`.
abbrev pub synced : SyncDb sync_dexie
synced = record {
  ledger = books;
  categories = ([], tt);
  budgets = ([], tt);
  uploads = (
    (1, upload_of 1 (text "a")) ∷ (2, upload_of 2 (text "b")) ∷ [],
    (omega arith, (omega arith, tt)),
  );
  mappings = mapping ∷ [];
  cursors = [];
  settings = [];
}

-- A platform on which encryption changes nothing, and JSON and base64 know the empty text alone.
abbrev pub plain_runtime : Runtime Unit
plain_runtime = record {
  encrypt = λ bytes meta. some (bytes, 0);
  decrypt = λ bytes meta. some bytes;
  payload_bytes = λ p. [];
  json_bytes = λ o. [];
  parse_json = λ bytes. some (object []);
  btoa = λ bytes. bytes;
  atob = λ s. some s;
  get_time = λ s. none;
  undefined = tt;
  number = λ s. none;
  string = λ k. [];
}

abbrev pub engine_of : {sv : Server} → sv.World → SyncDb sync_dexie → Engine sync_dexie sv
engine_of world db = record {
  db = db;
  world = world;
  store = record { is_syncing = false; last_error = none; last_sync_at = none };
  flush_in_progress = false;
  pending_flush_requested = false;
  retry_delay = none;
}
