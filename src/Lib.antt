-- ===== src/Lib.antt =====
-- WAGR's web client, its escrow contract, the deployment of the contract, and the payments and
-- payouts of its league service, as a model.
--
-- The client (src/web/src) shows the fantasy leagues of a user, lets the user pay an entry fee in
-- USDC and claim a refund through a Hedera wallet, and lets a commissioner set the payouts. Its
-- parts are pages (React components whose state is set by handlers), the session of the user, and
-- the strategy object that talks to the wallet. The pages read the session, the league page calls
-- the strategy, and all of them call the API of the server. The escrow contract
-- (contracts/src/LeagueEscrow.sol) holds the fees: the strategy's transactions are calls of it,
-- and contracts/scripts/deploy.mjs puts it on the network. The league service
-- (src/internal/league) answers the pages: it reads the contract through a mirror node before it
-- marks a member as paid or refunded, and its jobs keep the statuses of leagues and pay out the
-- places at the end of a season through the contract.
--
-- Where what is modelled:
-- - Types: src/web/src/types/league.ts and types/wallet.d.ts, interfaces as records.
-- - Payouts: the functions at the top of pages/LeagueSettings.tsx (normalizeEntries, totalPayout,
--   ordinalLabel, placeOptions, formatDollars).
-- - Settings: the state of that page, fetchSettings and handleSave; Settings.Form: the handlers of
--   its form, which `act` applies where the page shows the control.
-- - Hedera: payEntryFeeUSDC and claimRefund of strategies/HederaStrategy.ts; Hedera.Encoding:
--   uint8ArrayToHex and the bytes of a league; Hedera.Signing: signMessage; Hedera.Connection:
--   connect, disconnect and fetchPublicKeyFromMirrorNode, where the promise of connect is the
--   function `wait` on the events of its timer, its session and its polling, before and after the
--   modal has opened.
-- - Session: providers/WalletProvider.tsx (fetchCurrentUser, authenticateWith, connect,
--   authenticate, disconnect); Session.Wallets: detectWallets; Session.Overlap: the same
--   authentication, cut at its awaits.
-- - Overview: the state of pages/LeagueOverview.tsx; Overview.Load: fetchAll; Overview.Confirm:
--   confirmPaymentWithRetry and confirmRefundWithRetry; Overview.Pay: handlePay and
--   handleRetryConfirm; Overview.Refund: handleClaimRefund, handleRetryRefundConfirm and
--   handleDismissPendingRefund; Overview.Cancel: handleCancelLeague and handleReactivateLeague;
--   Overview.Panel: the early returns, the payment panel and the order of the teams;
--   Overview.Submitted: the transactions of the page’s trace; Overview.Sync and Overview.Reload:
--   local storage against the state of the page.
-- - Leagues: fetchLeagues and handleDelete of pages/Leagues.tsx; Import:
--   components/ImportLeagueModal.tsx, whose `act` applies an event where the dialog shows its
--   control.
-- - Overview.Display: the header, the rows of the teams and the texts of money of the league page;
--   Leagues.View: what the list of leagues shows; Home: pages/Home.tsx; Navbar:
--   components/Navbar.tsx with its two wallet controls; ConnectWallet:
--   components/ConnectWallet.tsx over the session, with hooks/useWallet.ts; Select: the two
--   drop-down lists of components/PlaceSelect.tsx, and Settings.Form.Places: the one of a row's
--   place; Settings.View: what the page of settings shows.
-- - Escrow: the functions of contracts/src/LeagueEscrow.sol over a token that is the interface
--   Escrow.Token, where a holder can be sent the token only if it `receives` it (is associated
--   with it), which Escrow.MockUsdc (contracts/src/mocks/MockUSDC.sol) implements; Escrow.Calls:
--   calls that do not revert; Escrow.Events and Escrow.Accounting: what the events account for;
--   Escrow.Solvency, Escrow.Backing and Escrow.Reached: what the contract holds in every state
--   that it can reach; Escrow.Claims: when payments and claims go through; Escrow.Payouts: when a
--   payout goes through, and to whom; Escrow.Pots: the contract as one pot for each league;
--   Escrow.Client: the transactions of the client, performed by the contract, with the words of
--   Hedera.Encoding.Words; Escrow.Client.Page and Escrow.Client.Refund: the two buttons of the
--   page, from the press to the contract. Evm: outcomes of calls, checked arithmetic and mappings.
-- - Deploy: contracts/scripts/deploy.mjs; Deploy.Upload: its chunks; Deploy.Laws: how it ends.
-- - Service: what src/internal/league/service.go does for payments; Service.Encoding:
--   uuidToBytes32; Service.Mirror: getAccountEVMAddress, hederaAccountToEVM and
--   readContractPayment; Service.Payments: InitiatePayment, ConfirmPayment and ConfirmRefund over
--   the tables of Database; Service.Payments.Commissioner: CancelLeague and ReactivateLeague;
--   Service.Payments.Handlers: their routes in handlers.go; Service.Payments.Client: the page’s
--   retries, answered by these routes.
-- - Oracle: the jobs of src/internal/league/service_oracle.go; Oracle.Status:
--   RefreshLeagueStatuses; Oracle.SeasonEnd: settleSeasonEnd, whose reads are `plan`;
--   Oracle.SeasonEnd.Runs: its writes and the contract’s call as stages of a run, and any number
--   of runs over one row; Oracle.SeasonEnd.Funded: its payouts at the contract of Escrow;
--   Oracle.SeasonEnd.Wiring: the deps of seasonEndDeps that read through the mirror node;
--   Oracle.Weekly: processWeeklyPayoutsForLeague over the table of its events, with
--   Oracle.Weekly.Qualifiers: weeklyQualifiers.
-- - Go: results with errors and the arithmetic of int64, as far as the services use them.
--   Database: the columns of the tables (src/internal/database/migrations) that the services read
--   and write here.
-- - Js: promises that reject, fetch responses, local storage, decimal and hexadecimal numbers, and
--   searching in text, as far as the client uses them. Common: lists, Boolean tests and integers.
-- - Examples: concrete values at which the theorems apply.
--
-- How state and effects are written: a handler is a function from what the outside answers and the
-- state to the state; an async function is an `Action`, which keeps what was written before a
-- throw. A handler runs from its call to its end, as the buttons are disabled while it runs;
-- overlapping runs are modelled only for an authentication and disconnect (Session.Overlap). What
-- the server, the wallet, the SDK of Hedera, the mirror node and the clock answer is a parameter;
-- each page records what it asks in `trace`.
--
-- The contract is a function from the sender, the call and the chain to a new chain or the reason
-- of a revert, after which nothing has changed; a state that it can reach comes from its creation
-- by calls of others than itself and by whatever the tokens do elsewhere without taking from it,
-- where the owner has not withdrawn the fees' own token.
--
-- An operation of the service is a function from the tables to a result, or an error, and the
-- tables after it; a query that fails, a write that the database refuses and what the mirror node,
-- the platforms and the contract answer are in its `World`. A run of the season-end job is a
-- stage, which one step takes on, so that runs interleave as sequences of steps; between them a
-- run may die and other jobs may rewrite the league’s status.
--
-- Bounds: the confirmation loop has the eight rounds of the source, so it needs no other fuel; the
-- upload has the number of the bytes as its fuel, of which each round uses 4096. Sums of the
-- contract panic past the largest uint256; those of the service wrap around at 64 bits. Numbers
-- are exact integers; the source's are doubles, which are exact below 2 to the 53. Lower case is
-- that of ASCII, with the Kelvin sign.
--
-- Not modelled: the markup, styles and routing, the initials of an avatar and the timer of the
-- copied link; the stubs transferHBAR and transferHTS; tokens that call the contract back; of the
-- league service the import, the listing and the settings of leagues, and the queries by which the
-- jobs select leagues; authentication, the clients of the fantasy platforms and the SDK’s call of
-- the contract, whose answers are parameters; the infrastructure.
pub mod Common
pub mod Js
pub mod Types
pub mod Payouts
pub mod Settings
pub mod Hedera
pub mod Overview
pub mod Session
pub mod Leagues
pub mod Import
pub mod Examples
pub mod Evm
pub mod Escrow
pub mod Deploy
pub mod ConnectWallet
pub mod Home
pub mod Go
pub mod Database
pub mod Oracle
pub mod Service
pub mod Navbar
pub mod Select
