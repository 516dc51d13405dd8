-- ===== src/Deploy/Laws.antt =====
-- How src/contracts/scripts/deploy.mjs ends.
use wagr.Common.{
  String, Bool, true, false, not, ◌&&◌, List, [], ◌∷◌, push, ◌≡◌, inl, inr, truthy, or_default,
  arith,
}
use wagr.Js.Effects.{Result, Result-cases, ok, is_throw}
use wagr.Deploy.{
  Env, World, Request, create_file, create_contract, Ending, exited, deployed, chunk, slice, upload,
  client_network, key_format, compile_errors, publish, compile_and_publish, deploy,
}
use wagr.Deploy.Upload.{contents, IsUpload, upload_done, upload-IsUpload}

abbrev pub is_exited : Result Ending → Bool
is_exited (ok (exited messages)) = true
is_exited _ = false

abbrev pub is_empty {ℓ} : {A : Type ℓ} → List A → Bool
is_empty [] = true
is_empty (x ∷ xs) = false

-- Whether the environment has what the script needs, and the compiler reports no error.
abbrev pub is_ready : Env → World → Bool
is_ready env w =
    truthy env.operator_id
    && truthy env.operator_key
    && truthy env.usdc_evm_address
    && is_empty (compile_errors (or_default w.output.errors []))

-- The script exits exactly if the operator, its key or the token’s address is missing, or the compiler
-- reports an error, and then it has asked the network for nothing.
pub deploy-is_exited :
    (env : Env) (w : World)
    → let (result, asked) = deploy env w [] in
      (is_exited result ≡ not (is_ready env w)) × (is_ready env w ≡ false → asked ≡ [])
unfolding deploy compile_and_publish publish
deploy-is_exited env w = (ground arith, ground arith)

-- If the environment is complete, the compiler reports no error and makes the bytecode, the operator
-- is accepted and the network answers every request, then the script ends with the contract that it
-- asked for last, of one file, for the token’s address. Before it, that file was created, and every
-- other request has appended to it; their contents together are the bytecode.
pub deploy_done :
    (env : Env) (w : World) (bytecode : String)
    → is_ready env w ≡ true
    → w.output.bytecode ≡ ok bytecode
    → w.set_operator
        (client_network env.network)
        (key_format (or_default env.operator_key ""))
        (or_default env.operator_key "")
        (or_default env.operator_id "")
      ≡ ok tt
    → ((request : Request) → is_throw (w.receipt request) ≡ false)
    → (file contract : String) × (sent : List Request) × (deploy env w [] ≡ (
      ok (deployed contract),
      push sent (create_contract file (or_default env.usdc_evm_address "")),
    ))
      × (w.receipt (create_contract file (or_default env.usdc_evm_address "")) ≡ ok contract)
      × (w.receipt (create_file (slice 0 chunk (w.utf8 bytecode))) ≡ ok file)
      × (contents sent ≡ w.utf8 bytecode)
      × IsUpload file sent
unfolding deploy compile_and_publish publish
deploy_done env w bytecode ready made accepted answers =
    let first = create_file (slice 0 chunk (w.utf8 bytecode)) in
    let (resolves, whole, _, _) = upload_done w (w.utf8 bytecode) answers in
    elim (Result-cases (w.receipt first)) [
      | inl (e, refused) ↦ absurd (ground (arith, answers first))
      | inr (file, stored) ↦
          let last = create_contract file (or_default env.usdc_evm_address "") in
          elim (Result-cases (w.receipt last)) [
            | inl (e, refused) ↦ absurd (ground (arith, answers last))
            | inr (contract, created) ↦ (
              file,
              contract,
              (upload w (w.utf8 bytecode) []).1,
              ground arith,
              created,
              stored,
              whole,
              upload-IsUpload w (w.utf8 bytecode) file answers stored,
            )
          ]
    ]
