-- ===== src/Deploy.antt =====
-- src/contracts/scripts/deploy.mjs: the guards on the environment, the errors of the compiler, the
-- upload of the bytecode in chunks and the creation of the contract.
pub mod Upload
pub mod Laws
use wagr.Common.{
  ℕ, zero, suc, ◌+◌, ◌-◌, String, Bool, true, false, not, ◌||◌, Option, none, some, List, [], ◌∷◌,
  push, drop, take, length, keep_if, ltb, or_default, truthy, if◌then◌else◌, ◌===◌, map, min,
}
use wagr.Js.Effects.{
  Result, ok, throw, Thrown, error, Action, pure, await, modify, raise, ◌>>=◌, ◌>>◌,
}
use wagr.Js.Text.{codes, lower, begins}

-- `process.env`
pub record Env : Type 0 where
  pub operator_id : Option String
  pub operator_key : Option String
  pub network : Option String
  pub usdc_evm_address : Option String

pub record Diagnostic : Type 0 where
  pub severity : String
  pub formatted_message : String

-- What the compiler answers: its diagnostics, and the bytecode of the contract in hexadecimal.
pub record Output : Type 0 where
  pub errors : Option (List Diagnostic)
  pub bytecode : Result String

pub data ClientNetwork : Type 0 where
  mainnet : ClientNetwork
  testnet : ClientNetwork

pub data KeyFormat : Type 0 where
  der : KeyFormat
  ecdsa : KeyFormat

-- What the network is asked, with what it is given.
pub data Request : Type 0 where
  create_file : (contents : List ℕ) → Request
  append_file : (file : String) (contents : List ℕ) → Request
  create_contract : (file usdc : String) → Request

-- The compiler, the parsing of a key and of the operator, the bytes of a text, and the receipts of the
-- network, each of which may fail.
pub record World : Type 0 where
  pub output : Output
  pub utf8 : String → List ℕ
  pub set_operator : ClientNetwork → KeyFormat → (key id : String) → Result (Unit {0})
  pub receipt : Request → Result String

-- How the script ends: `process.exit(1)` with what it has printed, or a contract.
pub data Ending : Type 0 where
  exited : List String → Ending
  deployed : String → Ending

-- `CHUNK`
abbrev pub chunk : ℕ
chunk = 4096

-- `bytes.slice(start, end)`
abbrev pub slice : (start stop : ℕ) → List ℕ → List ℕ
slice start stop bytes = take (stop - start) (drop start bytes)

-- A request, and what the network answers.
abbrev pub ask : World → Request → Action (List Request) String
ask w request = modify (λ asked. push asked request) >>= λ _. await (w.receipt request)

-- The loop over `offset`, whose fuel is the number of the bytes.
unfoldable pub append_from :
    (fuel : ℕ) → World → String → ℕ → List ℕ → Action (List Request) (Unit {0})
append_from zero w file offset bytes = pure tt
append_from (suc fuel) w file offset bytes = elim (ltb offset (length bytes)) [
  | true ↦
      ask w (append_file file (slice offset (min (offset + chunk) (length bytes)) bytes)) >>= λ _.
      append_from fuel w file (offset + chunk) bytes
  | false ↦ pure tt
]

unfoldable pub upload : World → List ℕ → Action (List Request) String
upload w bytes = do
  file ← ask w (create_file (slice 0 chunk bytes))
  append_from (length bytes) w file chunk bytes
  pure file

-- DER-encoded keys start with 30.
abbrev pub key_format : String → KeyFormat
key_format key = if begins (codes "30") (map lower (codes key)) then der else ecdsa

abbrev pub compile_errors : List Diagnostic → List Diagnostic
compile_errors diagnostics = keep_if (λ e. e.severity === "error") diagnostics

-- The network of the client, whose default is the test network.
abbrev pub client_network : Option String → ClientNetwork
client_network network =
    if (if truthy network then or_default network "" else "testnet") === "mainnet"
    then mainnet
    else testnet

-- From the client on.
unfoldable pub publish :
    World → Option String → (id key usdc : String) → Action (List Request) Ending
publish w network id key usdc = do
  bytecode ← await w.output.bytecode
  await (w.set_operator (client_network network) (key_format key) key id)
  file ← upload w (w.utf8 bytecode)
  contract ← ask w (create_contract file usdc)
  pure (deployed contract)

unfoldable pub compile_and_publish :
    World → Option String → (id key usdc : String) → Action (List Request) Ending
compile_and_publish w network id key usdc = elim (compile_errors (or_default w.output.errors [])) [
  | [] ↦ publish w network id key usdc
  | e ∷ errors ↦ pure (exited ("Compilation errors:" ∷ map (λ d. d.formatted_message) (e ∷ errors)))
]

unfoldable pub deploy : Env → World → Action (List Request) Ending
deploy env w =
    if not (truthy env.operator_id) || not (truthy env.operator_key)
    then pure (exited ("Missing HEDERA_OPERATOR_ID or HEDERA_OPERATOR_KEY" ∷ []))
    else if not (truthy env.usdc_evm_address)
    then pure (
        exited (
          "Missing HEDERA_USDC_EVM_ADDRESS (e.g. 0x0000000000000000000000000000000000456858)" ∷ []))
    else compile_and_publish w env.network (or_default env.operator_id "")
        (or_default env.operator_key "") (or_default env.usdc_evm_address "")
