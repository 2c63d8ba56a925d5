-- ===== src/TxPool/Tests.antt =====
-- core/tx_pool.go on a pool of two transactions of one account.
use kkchain.Base.{ℕ, ◌+◌, [], none, some, Bool, true, false, ◌≡◌, ◌≢◌, refl, pos}
use kkchain.Pool.SortedMap.{Transaction, cost, find_entry, put_entry, heap_push, get, put}
use kkchain.Pool.TxList.{new_tx_list, is_refused, add}
use kkchain.TxPool.Priced.{put_priced}
use kkchain.TxPool.Defs.{
  TxPool, Signer, list_of, discard_old, know, know_from, promote_tx, add_pooled, remove_pooled,
}
use kkchain.TxPool.Places.{Fresh}
use kkchain.TxPool.Moves.{place}
use kkchain.TxPool.Complete.{Complete-more}
use kkchain.TxPool.Sound.{places, Whole}
use kkchain.TxPool.Remove.{Removal, remove_pooled-Removal}
use kkchain.TxPool.Add.{Stored, add_pooled-Stored}
use kkchain.TxPool.Promote.{Promoted, promote_tx-Promoted}

abbrev pay : ℕ → Transaction
pay n = record {
  nonce = n;
  gas_price = pos 1;
  gas_limit = 21000;
  receiver = some 2;
  amount = pos 5;
  payload = [];
  hash = n + 100;
  sender = 1;
}

abbrev blank : TxPool
blank = record {
  config = record { price_bump = 10; global_slots = 4096; global_queue = 1024 };
  gas_price = pos 1;
  nonce_of = λ a. 0;
  balance_of = λ a. pos 1000000;
  pending_nonce = λ a. 0;
  max_gas = 8000000;
  locals = λ a. false;
  journal = none;
  pending = λ a. none;
  queue = λ a. none;
  beats = λ a. none;
  all = [];
  priced = record { items = []; stales = pos 0 };
}

abbrev signer : Signer
signer = record { size = λ tx. 120; is_signed = λ tx. true }

blank-Whole : Whole blank
unfolding find_entry
blank-Whole = record {
  agrees = record {
    sees = record {
      sorted = tt;
      keyed = λ h t e. cc;
      known = λ b a n t e. nowhere b a n t e;
      apart = λ a n t u e f. cc;
    };
    of_pending = λ a. tt;
    of_queue = λ a. tt;
  };
  complete = λ h t e. cc;
  loose = λ a. tt;
}
  where
    nowhere :
        (b : Bool) (a n : ℕ) (t : Transaction)
        → places blank.pending blank.queue b a n ≡ some t
        → {P : Type 0} → P
    nowhere true a n t e = cc
    nowhere false a n t e = cc

add_pooled-Stored_example : Stored blank (pay 7) (add_pooled signer blank (pay 7) false)
add_pooled-Stored_example = add_pooled-Stored signer blank (pay 7) false blank-Whole

-- A transaction that is new to a pool may be on its way to a list.
promote_tx-Promoted_example : Promoted blank (pay 0) (promote_tx blank 1 (pay 0) 50)
unfolding find_entry
promote_tx-Promoted_example =
    promote_tx-Promoted blank (pay 0) 50 blank-Whole.agrees
      (Complete-more (places blank.pending blank.queue) blank.all (pay 0) [] blank-Whole.complete)
      blank-Whole.loose (λ u e. cc) refl (λ e. cc)

abbrev one : TxPool
one = (promote_tx blank 1 (pay 0) 50).0

one-Whole : Whole one
unfolding find_entry
one-Whole =
    (promote_tx-Promoted blank (pay 0) 50 blank-Whole.agrees
      (Complete-more (places blank.pending blank.queue) blank.all (pay 0) [] blank-Whole.complete)
      blank-Whole.loose (λ u e. cc) refl (λ e. cc)).whole

abbrev two : TxPool
two = (promote_tx one 1 (pay 1) 60).0

-- The next transaction is new to the pool of one.
one-pay :
    Fresh (pay 1) one.all
    × (place (one.queue 1) 1 ≡ none)
    × (place (one.pending 1) 1 ≢ some (pay 1))
unfolding promote_tx list_of discard_old know know_from add is_refused new_tx_list get put
    find_entry put_entry heap_push put_priced cost
one-pay = (λ u e. cc, refl, λ e. cc)

two-Whole : Whole two
two-Whole =
    let (a, b, c) = one-pay in
    (promote_tx-Promoted one (pay 1) 60 one-Whole.agrees
      (Complete-more (places one.pending one.queue) one.all (pay 1) [] one-Whole.complete)
      one-Whole.loose a b c).whole

remove_pooled-Removal_example : Removal two (remove_pooled two 100 true) 100
remove_pooled-Removal_example = remove_pooled-Removal two 100 true two-Whole
