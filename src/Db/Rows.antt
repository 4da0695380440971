-- ===== src/Db/Rows.antt =====
-- The tables of control/app/db.py (SCHEMA and MIGRATIONS), one record for each kind of row. Text
-- that the program only compares (identifiers, addresses, domains) is a number, money is in cents,
-- and a time is in seconds. Columns that are only shown (names, bodies, `updated`, `error`) are
-- left out.
use boathouse_cloud.Prelude.{ℕ, ◌≡◌, Bool, true, ◌&&◌, Option, List, arith, ◌==◌}
use boathouse_cloud.Prelude.Int.{ℤ}
use boathouse_cloud.Prelude.Table.{Table}

pub record Workspace : Type 0 where
  pub balance_cents : ℤ
  pub paused : Bool
  pub autorefill_cents : ℕ
  pub autorefill_cap_cents : ℕ
  pub stripe_customer : Option ℕ
  pub stripe_pm : Option ℕ
  pub owner_email : Option ℕ
  pub referred_by : Option ℕ
  pub discount_until : Option ℕ

-- What stands before the identifier in `ledger.ref`: `stripe:`, `organization-meter:`, `meter:`,
-- `domain:`, `domain-release:`, `domain-renewal:`, `domain-renewal-release:`, or anything else.
pub data Prefix : Type 0 where
  stripe organization_meter meter domain domain_release renewal renewal_release other : Prefix

abbrev pub prefix_code : Prefix → ℕ
prefix_code Prefix.stripe = 0
prefix_code Prefix.organization_meter = 1
prefix_code Prefix.meter = 2
prefix_code Prefix.domain = 3
prefix_code Prefix.domain_release = 4
prefix_code Prefix.renewal = 5
prefix_code Prefix.renewal_release = 6
prefix_code Prefix.other = 7

-- `day` is 0 where the text of the reference has no date.
pub record Ref : Type 0 where
  pub prefix : Prefix
  pub name : ℕ
  pub day : ℕ

abbrev pub ref_eq : Ref → Ref → Bool
ref_eq r s = prefix_code r.prefix == prefix_code s.prefix && (r.name == s.name && r.day == s.day)

pub ref_eq_refl : (r : Ref) → ref_eq r r ≡ true
ref_eq_refl r = ground arith

pub data Kind : Type 0 where
  charge topup payment_return pending_purchase purchase_release pending_renewal renewal_release
        credit :
      Kind

-- The memos that queries look at: `…: running day D`, `auto-refill M`; `plain` is any other text.
pub data Memo : Type 0 where
  running_day auto_refill : ℕ → Memo
  plain : Memo

pub record Line : Type 0 where
  pub workspace_id : ℕ
  pub ts : ℕ
  pub kind : Kind
  pub amount_cents : ℤ
  pub balance_after : ℤ
  pub memo : Memo
  pub ref : Option Ref

pub data PaymentKind : Type 0 where
  manual auto : PaymentKind

pub data PaymentStatus : Type 0 where
  quoted pending unknown succeeded failed : PaymentStatus

-- The body of the one provider write of a payment, stored before it is sent.
pub record Payload : Type 0 where
  pub amount : ℕ
  pub customer : ℕ
  pub payment_method : Option ℕ
  pub operation : ℕ

pub record PaymentOperation : Type 0 where
  pub workspace_id : ℕ
  pub kind : PaymentKind
  pub cents : ℕ
  pub status : PaymentStatus
  pub created : ℕ
  pub expires : ℕ
  pub created_by : ℕ
  pub month : Option ℕ
  pub customer : Option ℕ
  pub payment_method : Option ℕ
  pub provider_id : Option ℕ
  pub submitted : Option ℕ
  pub payload : Option Payload
  pub checkout_id : Option ℕ
  pub checkout_payload : Option Payload

pub record PaymentReturn : Type 0 where
  pub workspace_id : ℕ
  pub refunded_cents : ℕ
  pub disputed_cents : ℕ
  pub held_cents : ℕ

pub record Revenue : Type 0 where
  pub referrer_email : ℕ
  pub basis_cents : ℕ
  pub revision : ℕ

-- `legacy_paid` is `paid_at IS NOT NULL`; the reference is `partner:{workspace}:{revision}`.
pub record Earning : Type 0 where
  pub referrer_email : ℕ
  pub workspace_id : ℕ
  pub cents : ℤ
  pub revision : ℕ
  pub legacy_paid : Bool

pub data PayoutStatus : Type 0 where
  prepared paid cancelled : PayoutStatus

pub record Payout : Type 0 where
  pub email : ℕ
  pub cents : ℕ
  pub status : PayoutStatus
  pub payout_ref : Option ℕ

-- What the registrar returns for a purchase or a renewal, field by field as the program reads it:
-- a field is `none` where it is missing or of another type.
pub record Proof : Type 0 where
  pub success : Bool
  pub pending : Bool
  pub domain : Option ℕ
  pub order_id : Option ℕ
  pub dry_run : Bool
  pub has_cost : Bool
  pub cost : Option ℕ
  pub expiration : Option ℕ

pub data PurchaseState : Type 0 where
  quoted processing uncertain purchased failed : PurchaseState

pub record DomainOperation : Type 0 where
  pub workspace_id : ℕ
  pub domain : ℕ
  pub state : PurchaseState
  pub registrar_cents : ℕ
  pub margin_cents : ℕ
  pub total_cents : ℕ
  pub renewal_cents : ℕ
  pub sandbox : Bool
  pub provider_fingerprint : ℕ
  pub created : ℕ
  pub expires : ℕ
  pub created_by : ℕ
  pub started : Option ℕ
  pub lease_until : ℕ
  pub provider_result : Option Proof

-- A row of `domains`, under its domain, which is UNIQUE.
pub record Attachment : Type 0 where
  pub workspace_id : ℕ
  pub active : Bool
  pub is_primary : Bool
  pub cost_cents : ℕ
  pub order_id : Option ℕ

pub record RenewalSetting : Type 0 where
  pub workspace_id : ℕ
  pub enabled : Bool
  pub max_cost_cents : ℕ
  pub expires_at : ℕ
  pub managed : Bool
  pub provider_fingerprint : ℕ
  pub sandbox : Bool

pub data RenewalState : Type 0 where
  waiting processing uncertain renewed failed cancelled : RenewalState

pub record Renewal : Type 0 where
  pub workspace_id : ℕ
  pub domain : ℕ
  pub expires_at : ℕ
  pub registrar_cents : ℕ
  pub margin_cents : ℕ
  pub total_cents : ℕ
  pub years : ℕ
  pub state : RenewalState
  pub provider_fingerprint : ℕ
  pub sandbox : Bool
  pub started : Option ℕ
  pub lease_until : ℕ
  pub provider_result : Option Proof

-- What a `notice_key` begins with.
pub data KeyHead : Type 0 where
  policy enrolled problem host_problem advance expiring receipt registrar_low : KeyHead

abbrev pub head_code : KeyHead → ℕ
head_code KeyHead.policy = 0
head_code KeyHead.enrolled = 1
head_code KeyHead.problem = 2
head_code KeyHead.host_problem = 3
head_code KeyHead.advance = 4
head_code KeyHead.expiring = 5
head_code KeyHead.receipt = 6
head_code KeyHead.registrar_low = 7

-- The text of a `notice_key`: its head and up to three parts, 0 where it has fewer.
pub record NoticeKey : Type 0 where
  pub head : KeyHead
  pub name : ℕ
  pub first : ℕ
  pub second : ℕ

abbrev pub notice_key_eq : NoticeKey → NoticeKey → Bool
notice_key_eq k l =
    head_code k.head == head_code l.head
    && (k.name == l.name && (k.first == l.first && k.second == l.second))

-- `is_host` is `kind='host'`.
pub record Notice : Type 0 where
  pub notice_key : NoticeKey
  pub email : ℕ
  pub workspace_id : Option ℕ
  pub is_host : Bool
  pub sent_at : Option ℕ
  pub lease_until : ℕ

-- A row of `referral_customers`, under the customer's address.
pub record Customer : Type 0 where
  pub referrer_email : ℕ
  pub code : ℕ
  pub created : ℕ
  pub discount_until : ℕ

pub record Accrual : Type 0 where
  pub workspace_id : ℕ
  pub resource_key : ℕ
  pub month : ℕ
  pub byte_cent_days : ℕ
  pub charged_cents : ℕ

-- `start_rowid` is the one row of `referral_program`, `codes` has each partner's address under his
-- code, `accounts` the addresses with a password, `owners` a workspace and an address for each row of
-- `users` with the role owner, and `worker_lease` the one row of `domain_renewal_worker`.
pub record Db : Type 0 where
  pub workspaces : Table Workspace
  pub ledger : List Line
  pub payments : Table PaymentOperation
  pub returns : Table PaymentReturn
  pub start_rowid : ℕ
  pub revenue : Table Revenue
  pub earnings : List Earning
  pub payouts : Table Payout
  pub purchases : Table DomainOperation
  pub domains : Table Attachment
  pub allocations : Table ℕ
  pub settings : Table RenewalSetting
  pub renewals : Table Renewal
  pub notices : List Notice
  pub owners : List (ℕ × ℕ)
  pub worker_lease : ℕ
  pub accruals : List Accrual
  pub codes : Table ℕ
  pub customers : Table Customer
  pub accounts : List ℕ
