-- ===== src/Wallet/Once.antt =====
-- Idempotency by reference: what has been done under a reference is not done again.
use richpayment.Base.{◌≡◌, true, false, arith}
use richpayment.Base.Table.{exists_row}
use richpayment.Base.Result.{Result, ok}
use richpayment.Decimal.{Decimal, is_positive}
use richpayment.Wallet.Types.{Db, WalletService, Request, Error, Outage}
use richpayment.Wallet.Lock.{Redis}
use richpayment.Wallet.Repo.{Column, is_reference, ledger_entry_exists_by_ref}
use richpayment.Wallet.Service.{
  Method, credits, debits, holds, releases, credit, debit, hold, release, once_locked, tx_of, serve,
}
use richpayment.Wallet.Outcome.{Ending, failed, skipped, done, serve-Ending}
use richpayment.Wallet.Posting.{Posts, tx_of-Posts}

module _ {D : Type 0} ⦃d : Decimal D⦄ ⦃column : Column D⦄ where
  Posts-logged :
      (m : Method) (r : Request D) (db db' : Db D)
      → Posts m r db db'
      → exists_row (is_reference r.reference_id) db'.ledger ≡ true
  Posts-logged m r db db' p = rw p.after (ground arith)

  -- After a success the reference is in the ledger.
  pub Ending-logged :
      (m : Method) (outage : Outage) (r : Request D) (db : Db D)
      {q : Result Error (Unit {0}) × Db D}
      → Ending r (tx_of m outage r) db q
      → q.0 ≡ ok tt
      → exists_row (is_reference r.reference_id) q.1.ledger ≡ true
  Ending-logged m outage r db (failed _) h = cc
  Ending-logged m outage r db (skipped _ old) h = old
  Ending-logged m outage r db (done db' _ _ ran) h =
      Posts-logged m r db db' (tx_of-Posts m outage r db db' ran)

module _ {D R : Type 0} ⦃d : Decimal D⦄ ⦃column : Column D⦄ ⦃redis : Redis R⦄ where
  -- An operation whose reference is in the ledger returns nil and changes nothing at all.
  pub serve_logged :
      (m : Method) (outage : Outage) (r : Request D) (s : WalletService D R)
      → is_positive r.amount ≡ true
      → outage.exists_query ≡ false
      → exists_row (is_reference r.reference_id) s.db.ledger ≡ true
      → serve m outage r s ≡ (ok tt, s)
  unfolding serve credit debit hold release once_locked ledger_entry_exists_by_ref
  serve_logged credits outage r s pos up old = ground arith
  serve_logged debits outage r s pos up old = ground arith
  serve_logged holds outage r s pos up old = ground arith
  serve_logged releases outage r s pos up old = ground arith

  -- Once any operation has succeeded under a reference, every later operation under it, of whatever
  -- kind, amount and wallet, returns nil and changes neither tables nor locks (its amount being
  -- positive and its look-up of the reference answered).
  pub serve_once :
      (m n : Method) (outage again : Outage) (r t : Request D) (s : WalletService D R)
      → (serve m outage r s).0 ≡ ok tt
      → t.reference_id ≡ r.reference_id
      → is_positive t.amount ≡ true
      → again.exists_query ≡ false
      → serve n again t (serve m outage r s).1 ≡ (ok tt, (serve m outage r s).1)
  serve_once m n outage again r t s h same pos up =
      serve_logged n again t (serve m outage r s).1 pos up
        (rw same (Ending-logged m outage r s.db (serve-Ending m outage r s) h))
