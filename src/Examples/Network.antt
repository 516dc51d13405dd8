-- ===== src/Examples/Network.antt =====
-- A payment of the client that the contract carries out, and a deployment, at concrete values.
use wagr.Common.{
  ℕ, ◌+◌, ◌-◌, ◌/◌, ◌≤◌, ◌<◌, ◌≡◌, ◌⊎◌, refl, String, List, [], All, length, some, none, ◌===◌,
  if◌then◌else◌, arith, replicate, push,
}
use wagr.Js.Effects.{ok}
use wagr.Js.Text.{codes}
use wagr.Evm.{Outcome, done, revert, uint256_limit}
use wagr.Escrow.{Chain, fresh, transact, execute, run_pay_entry_fee, pay_entry_fee}
use wagr.Escrow.MockUsdc.{MockUsdc, mock_erc20, mock_erc20-IsErc20, transfer_from, move}
use wagr.Escrow.Client.{CanPay}
use wagr.Escrow.Client.Page.{replay, handle_pay-performed}
use wagr.Hedera.{Transaction, pay_entry_fee_usdc, claim_refund_usdc}
use wagr.Overview.{initial}
use wagr.Overview.Pay.{send, handle_pay}
use wagr.Overview.Pay.Laws.{begun, Unconfirmed, Settled}
use wagr.Overview.Submitted.{submitted}
use wagr.Examples.Payment.{paying, claiming}
use wagr.Overview.Refund.{handle_claim_refund}
use wagr.Escrow.Client.Refund.{handle_claim_refund-performed}
use wagr.Escrow.Reached.{Reached, created, called}
use wagr.Escrow.Events.{distributed}
use wagr.Hedera.Encoding.Words.{league_word}
use wagr.Examples.Contract.{escrow, tokens}
use wagr.Examples.{wallet, strategy, context, page, instructions}
use wagr.Deploy.{
  Env, World, Request, create_file, create_contract, deployed, chunk, slice, upload, deploy,
}
use wagr.Deploy.Upload.{IsUpload, contents, carried, upload_done}
use wagr.Deploy.Laws.{deploy_done}

-- The addresses of the accounts 0.0.5, 0.0.77 and 0.0.429274.
abbrev address : String → ℕ
address account =
    if account === "0.0.5"
    then 5
    else if account === "0.0.77"
    then 77
    else if account === "0.0.429274"
    then 429274
    else 0

abbrev unknown : Transaction → Outcome (Chain (ℕ → MockUsdc))
unknown tx = revert "no such contract"

can_page : CanPay mock_erc20 escrow 5 (league_word "7") 50_000_000 (fresh tokens)
unfolding uint256_limit
can_page = record {
  member_other = λ e. absurd (omega arith);
  contract_known = refl;
  positive = omega arith;
  enough = omega arith;
  held_fits = omega arith;
  payment_fits = omega arith;
  total_fits = omega arith;
}

nothing_sent :
    replay mock_erc20 escrow address unknown 5 (submitted page.trace) (fresh tokens)
    ≡ done (fresh tokens)
unfolding replay submitted initial
nothing_sent = refl

accepted :
    (send context strategy wallet paying (begun context paying page)).0
    ≡ ok "0.0.5@1700000000.000000001"
unfolding send pay_entry_fee_usdc
accepted = refl

handle_pay-performed_example :
    let q = handle_pay context paying page in
    (c' : Chain (ℕ → MockUsdc)) × (replay mock_erc20 escrow address unknown 5
        (submitted q.trace)
        (fresh tokens)
      ≡ done c')
    × (c'.payments (league_word "7") 5 ≡ 0 + 50_000_000)
    × (mock_erc20.balance_of 429274 5 c'.tokens + 50_000_000 ≡ 100_000_000)
    × (Unconfirmed context paying "0.0.5@1700000000.000000001" page q
        ⊎ Settled context paying "0.0.5@1700000000.000000001" page q)
handle_pay-performed_example =
    handle_pay-performed mock_erc20 escrow address mock_erc20-IsErc20 unknown context paying
      strategy wallet (record { status = 200; text = ok ""; json = ok instructions }) instructions
      "0.0.5@1700000000.000000001" page 5 (fresh tokens) (fresh tokens) refl refl refl refl refl
      accepted refl refl refl nothing_sent can_page

-- The member has paid, and claims the payment back.
abbrev pledged : Chain (ℕ → MockUsdc)
pledged = transact mock_erc20 escrow 5 (pay_entry_fee (league_word "7") 50_000_000) (fresh tokens)

pledged-Reached : Reached mock_erc20 escrow pledged
pledged-Reached =
    called 5 (pay_entry_fee (league_word "7") 50_000_000) (fresh tokens) (λ e. absurd (omega arith))
      (λ amount e. cc) (created tokens)

pledged-payments : pledged.payments (league_word "7") 5 ≡ 50_000_000
unfolding transact execute run_pay_entry_fee transfer_from move uint256_limit
    wagr.Hedera.Encoding.league_id_bytes32 wagr.Js.Number.parse_int wagr.Js.Number.digit_in
pledged-payments = refl

pledged-balance : mock_erc20.balance_of 429274 5 pledged.tokens ≡ 50_000_000
unfolding transact execute run_pay_entry_fee transfer_from move uint256_limit
pledged-balance = refl

pledged-distributed : distributed (league_word "7") pledged.events ≡ 0
unfolding transact execute run_pay_entry_fee transfer_from move distributed uint256_limit
pledged-distributed = refl

pledged-sent :
    replay mock_erc20 escrow address unknown 5 (submitted page.trace) pledged ≡ done pledged
unfolding replay submitted initial
pledged-sent = refl

claimed :
    (wagr.Overview.Refund.send context strategy wallet "0.0.77" claiming
      (wagr.Overview.Refund.Laws.begun context claiming page)).0
    ≡ ok "0.0.5@1700000000.000000001"
unfolding wagr.Overview.Refund.send claim_refund_usdc
claimed = refl

pledged-room : 50_000_000 + 50_000_000 < uint256_limit
unfolding uint256_limit
pledged-room = omega arith

handle_claim_refund-performed_example :
    let q = handle_claim_refund context claiming page in
    (c' : Chain (ℕ → MockUsdc)) × (replay mock_erc20 escrow address unknown 5
        (submitted q.trace)
        pledged
      ≡ done c')
    × (c'.payments (league_word "7") 5 ≡ 0)
    × (mock_erc20.balance_of 429274 5 c'.tokens
        ≡ mock_erc20.balance_of 429274 5 pledged.tokens + pledged.payments (league_word "7") 5)
    × (wagr.Overview.Refund.Laws.Unconfirmed context claiming "0.0.5@1700000000.000000001" page q
        ⊎ wagr.Overview.Refund.Laws.Settled context claiming "0.0.5@1700000000.000000001" page q)
handle_claim_refund-performed_example =
    handle_claim_refund-performed mock_erc20 escrow address mock_erc20-IsErc20 unknown context
      claiming strategy wallet "0.0.77" "0.0.5@1700000000.000000001" page 5 pledged pledged refl
      refl refl refl refl claimed refl pledged-sent pledged-Reached pledged-distributed
      (λ e. absurd (omega arith)) (omega (arith, pledged-payments)) refl
      (omega (arith, pledged-payments, pledged-balance, pledged-room))

-- A complete environment, and a network that answers everything.
abbrev env : Env
env = record {
  operator_id = some "0.0.2";
  operator_key = some "3030";
  network = none;
  usdc_evm_address = some "0x68cda";
}

abbrev answers : World
answers = record {
  output = record { errors = none; bytecode = ok "6080" };
  utf8 = codes;
  set_operator = λ network format key id. ok tt;
  receipt = λ request. ok "0.0.9";
}

abbrev bytecode : List ℕ
bytecode = replicate 5000 1

upload_done_example :
    let (result, asked) = upload answers bytecode [] in
    (result ≡ ok "0.0.9")
    × (contents asked ≡ bytecode)
    × All (λ request. length (carried request) ≤ 4096) asked
    × (length asked ≡ 1 + (length bytecode - 1) / 4096)
upload_done_example = upload_done answers bytecode (λ request. refl)

deploy_done_example :
    (file contract : String) × (sent : List Request) × (deploy env answers []
      ≡ (ok (deployed contract), push sent (create_contract file "0x68cda")))
    × (answers.receipt (create_contract file "0x68cda") ≡ ok contract)
    × (answers.receipt (create_file (slice 0 chunk (codes "6080"))) ≡ ok file)
    × (contents sent ≡ codes "6080")
    × IsUpload file sent
deploy_done_example = deploy_done env answers "6080" refl refl refl (λ request. refl)
