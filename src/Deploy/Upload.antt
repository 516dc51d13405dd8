-- ===== src/Deploy/Upload.antt =====
-- What the upload of src/contracts/scripts/deploy.mjs sends.
use wagr.Common.{
  ℕ, zero, suc, ◌+◌, ◌-◌, ◌≤◌, ◌<◌, String, false, List, [], ◌∷◌, ◌++◌, All, All-append, push, take,
  drop, length, length-append, ltb, ◌≡◌, ◌⊎◌, inl, inr, refl, sym, subst, ap, ◌∙◌, arith,
  Bool-cases, min, ◌/◌,
}
use mathlib.Core.List.{append-nil, append_assoc}
use wagr.Js.Effects.{Result-cases, Result, ok, is_throw}
use wagr.Deploy.{
  World, Request, create_file, append_file, create_contract, chunk, slice, append_from, upload,
}

-- What one request carries, and what several do, one behind the other.
abbrev pub carried : Request → List ℕ
carried (create_file bytes) = bytes
carried (append_file file bytes) = bytes
carried (create_contract file usdc) = []

abbrev pub contents : List Request → List ℕ
contents [] = []
contents (request ∷ asked) = carried request ++ contents asked

contents-push :
    (asked : List Request) (request : Request)
    → contents (push asked request) ≡ contents asked ++ carried request
contents-push [] r = append-nil (carried r)
contents-push (x ∷ asked) r =
    ap (carried x ++◌) (contents-push asked r)
    ∙ sym (append_assoc (carried x) (contents asked) (carried r))

take-append-drop : (n : ℕ) (xs : List ℕ) → take n xs ++ drop n xs ≡ xs
take-append-drop zero xs = refl
take-append-drop (suc n) [] = refl
take-append-drop (suc n) (x ∷ xs) = ap (x ∷◌) (take-append-drop n xs)

drop-drop : (m n k : ℕ) (xs : List ℕ) → k ≡ m + n → drop n (drop m xs) ≡ drop k xs
drop-drop zero n k xs e = ap (λ j. drop j xs) (omega arith)
drop-drop (suc m) n zero xs e = absurd (omega arith)
drop-drop (suc m) zero (suc k) [] e = refl
drop-drop (suc m) (suc n) (suc k) [] e = refl
drop-drop (suc m) n (suc k) (x ∷ xs) e = drop-drop m n k xs (omega arith)

length-drop : (n : ℕ) (xs : List ℕ) → length (drop n xs) ≡ length xs - n
length-drop zero xs = omega arith
length-drop (suc n) [] = omega arith
length-drop (suc n) (x ∷ xs) = omega (arith, length-drop n xs)

take_all : (n : ℕ) (xs : List ℕ) → length xs ≤ n → take n xs ≡ xs
take_all zero [] le = refl
take_all zero (x ∷ xs) le = absurd (omega arith)
take_all (suc n) [] le = refl
take_all (suc n) (x ∷ xs) le = ap (x ∷◌) (take_all n xs (omega arith))

-- Cutting short of the end or past it.
take-min :
    (n k : ℕ) (xs : List ℕ) → (k ≡ n) ⊎ ((length xs ≤ k) × (length xs ≤ n)) → take k xs ≡ take n xs
take-min n k xs (inl e) = ap (λ j. take j xs) e
take-min n k xs (inr (le, le')) = take_all k xs le ∙ sym (take_all n xs le')

length-take_le : (n : ℕ) (xs : List ℕ) → length (take n xs) ≤ n
length-take_le zero xs = omega arith
length-take_le (suc n) [] = omega arith
length-take_le (suc n) (x ∷ xs) = omega (arith, length-take_le n xs)

slice-drop :
    (offset n : ℕ) (bytes : List ℕ)
    → slice offset (min (offset + n) (length bytes)) bytes ++ drop (offset + n) bytes
      ≡ drop offset bytes
slice-drop offset n bytes =
    let left = length-drop offset bytes in
    rw
      (
        take-min n (min (offset + n) (length bytes) - offset) (drop offset bytes)
            (ground (arith, left)),
        sym (drop-drop offset n (offset + n) bytes refl),
      )
      (take-append-drop n (drop offset bytes))

drop_all : (n : ℕ) (xs : List ℕ) → length xs ≤ n → drop n xs ≡ []
drop_all zero [] le = refl
drop_all zero (x ∷ xs) le = absurd (omega arith)
drop_all (suc n) [] le = refl
drop_all (suc n) (x ∷ xs) le = drop_all n xs (omega arith)

-- The chunk of one round.
abbrev pub chunk_at : String → ℕ → List ℕ → Request
chunk_at file offset bytes =
    append_file file (slice offset (min (offset + chunk) (length bytes)) bytes)

append_from_step :
    (fuel : ℕ) (w : World) (file : String) (offset : ℕ) (bytes : List ℕ) (asked : List Request)
    → ((request : Request) → is_throw (w.receipt request) ≡ false)
    → offset < length bytes
    → append_from (suc fuel) w file offset bytes asked
      ≡ append_from fuel w file (offset + chunk) bytes (push asked (chunk_at file offset bytes))
unfolding append_from
append_from_step fuel w file offset bytes asked answers more =
    ground (arith, answers (chunk_at file offset bytes))

append_from_end :
    (fuel : ℕ) (w : World) (file : String) (offset : ℕ) (bytes : List ℕ) (asked : List Request)
    → length bytes ≤ offset
    → append_from fuel w file offset bytes asked ≡ (ok tt, asked)
unfolding append_from
append_from_end zero w file offset bytes asked over = refl
append_from_end (suc fuel) w file offset bytes asked over = ground arith

-- What the loop has to send.
record IsSent (offset : ℕ) (bytes : List ℕ) (asked : List Request)
    (ended : Result (Unit {0}) × List Request) : Type 0 where
  pub resolves : ended.0 ≡ ok tt
  pub sent : contents ended.1 ≡ contents asked ++ drop offset bytes
  pub count : length ended.1 ≡ length asked + (length bytes - offset + 4095) / 4096
  pub small : All (λ request. length (carried request) ≤ 4096) ended.1

end-IsSent :
    (fuel : ℕ) (w : World) (file : String) (offset : ℕ) (bytes : List ℕ) (asked : List Request)
    → length bytes ≤ offset
    → All (λ request. length (carried request) ≤ 4096) asked
    → IsSent offset bytes asked (append_from fuel w file offset bytes asked)
end-IsSent fuel w file offset bytes asked over small =
    rw (append_from_end fuel w file offset bytes asked over) (record {
      resolves = refl;
      sent = rw (drop_all offset bytes over) (sym (append-nil (contents asked)));
      count = omega arith;
      small = small;
    })

contents-round :
    (file : String) (offset : ℕ) (bytes : List ℕ) (asked : List Request)
    → contents (push asked (chunk_at file offset bytes)) ++ drop (offset + chunk) bytes
      ≡ contents asked ++ drop offset bytes
contents-round file offset bytes asked =
    let request = chunk_at file offset bytes in
    ap (◌++ drop (offset + chunk) bytes) (contents-push asked request)
    ∙ append_assoc (contents asked) (carried request) (drop (offset + chunk) bytes)
    ∙ ap (contents asked ++◌) (slice-drop offset chunk bytes)

chunk_at-small :
    (file : String) (offset : ℕ) (bytes : List ℕ)
    → length (carried (chunk_at file offset bytes)) ≤ 4096
chunk_at-small file offset bytes =
    ground
      (arith, length-take_le (min (offset + chunk) (length bytes) - offset) (drop offset bytes))

-- The loop ends within its fuel, and if the network answers every request, then it has sent what is
-- behind the offset, in as many chunks as are needed.
append_from-IsSent :
    (fuel : ℕ) (w : World) (file : String) (offset : ℕ) (bytes : List ℕ) (asked : List Request)
    → ((request : Request) → is_throw (w.receipt request) ≡ false)
    → length bytes ≤ offset + fuel
    → All (λ request. length (carried request) ≤ 4096) asked
    → IsSent offset bytes asked (append_from fuel w file offset bytes asked)
append_from-IsSent zero w file offset bytes asked answers enough small =
    end-IsSent zero w file offset bytes asked (omega arith) small
append_from-IsSent (suc fuel) w file offset bytes asked answers enough small =
    let request = chunk_at file offset bytes in
    let rest =
      append_from-IsSent fuel w file (offset + chunk) bytes (push asked request) answers
        (omega arith)
        (All-append _ asked (request ∷ []) small (chunk_at-small file offset bytes, tt)) in
    elim (Bool-cases (ltb offset (length bytes))) [
      | inl more ↦
          rw (append_from_step fuel w file offset bytes asked answers (ground arith)) (record {
            resolves = rest.resolves;
            sent = rest.sent ∙ contents-round file offset bytes asked;
            count = ground (arith, length-append asked (request ∷ []), rest.count);
            small = rest.small;
          })
      | inr over ↦ end-IsSent (suc fuel) w file offset bytes asked (ground arith) small
    ]

first_chunk :
    (bytes : List ℕ) → contents (create_file (slice 0 chunk bytes) ∷ []) ++ drop chunk bytes ≡ bytes
first_chunk bytes =
    append_assoc (take chunk bytes) [] (drop chunk bytes) ∙ take-append-drop chunk bytes

-- A request that appends to the file, and an upload to it: first the file is created, and everything
-- else is appended to it.
abbrev pub IsAppend : String → Request → Type 0
IsAppend file (create_file bytes) = ⊥
IsAppend file (append_file target bytes) = target ≡ file
IsAppend file (create_contract target usdc) = ⊥

abbrev pub IsUpload : String → List Request → Type 0
IsUpload file [] = ⊥
IsUpload file (create_file bytes ∷ rest) = All (IsAppend file) rest
IsUpload file (append_file target bytes ∷ rest) = ⊥
IsUpload file (create_contract target usdc ∷ rest) = ⊥

IsUpload-push :
    (file : String) (asked : List Request) (request : Request)
    → IsUpload file asked
    → IsAppend file request
    → IsUpload file (push asked request)
IsUpload-push file [] request h p = absurd h
IsUpload-push file (create_file bytes ∷ rest) request h p =
    All-append (IsAppend file) rest (request ∷ []) h (p, tt)
IsUpload-push file (append_file target bytes ∷ rest) request h p = absurd h
IsUpload-push file (create_contract target usdc ∷ rest) request h p = absurd h

append_from-IsUpload :
    (fuel : ℕ) (w : World) (file : String) (offset : ℕ) (bytes : List ℕ) (asked : List Request)
    → ((request : Request) → is_throw (w.receipt request) ≡ false)
    → IsUpload file asked
    → IsUpload file (append_from fuel w file offset bytes asked).1
unfolding append_from
append_from-IsUpload zero w file offset bytes asked answers h = h
append_from-IsUpload (suc fuel) w file offset bytes asked answers h =
    let request = append_file file (slice offset (min (offset + chunk) (length bytes)) bytes) in
    elim (Bool-cases (ltb offset (length bytes))) [
      | inl more ↦ rw (append_from_step fuel w file offset bytes asked answers (ground arith)) (
          append_from-IsUpload fuel w file (offset + chunk) bytes (push asked request) answers
            (IsUpload-push file asked request h refl))
      | inr over ↦ rw (append_from_end (suc fuel) w file offset bytes asked (ground arith)) h
    ]

-- If the network answers every request, then the upload resolves to the file that it created, and its
-- requests together carry the bytecode, each at most 4096 bytes, in one request and as many more as
-- what is left needs.
pub upload_done :
    (w : World) (bytes : List ℕ)
    → ((request : Request) → is_throw (w.receipt request) ≡ false)
    → let (result, asked) = upload w bytes [] in
      (result ≡ w.receipt (create_file (slice 0 chunk bytes)))
      × (contents asked ≡ bytes)
      × All (λ request. length (carried request) ≤ 4096) asked
      × (length asked ≡ 1 + (length bytes - 1) / 4096)
unfolding upload
upload_done w bytes answers =
    let first = create_file (slice 0 chunk bytes) in
    elim (Result-cases (w.receipt first)) [
      | inl (e, refused) ↦ absurd (ground (arith, answers first))
      | inr (file, made) ↦
          let sent =
            append_from-IsSent (length bytes) w file chunk bytes (first ∷ []) answers (omega arith)
              (length-take_le chunk bytes, tt) in
          let ended = append_from (length bytes) w file chunk bytes (first ∷ []) in
          let whole : upload w bytes [] ≡ (ok file, ended.1) =
            ground (arith, made, sent.resolves) in
          rw (whole, made)
            (refl, sent.sent ∙ first_chunk bytes, sent.small, ground (arith, sent.count))
    ]

-- If the network answers every request, then the upload creates a file, and appends everything else to
-- the file that was created.
pub upload-IsUpload :
    (w : World) (bytes : List ℕ) (file : String)
    → ((request : Request) → is_throw (w.receipt request) ≡ false)
    → w.receipt (create_file (slice 0 chunk bytes)) ≡ ok file
    → IsUpload file (upload w bytes []).1
unfolding upload
upload-IsUpload w bytes file answers made =
    let first = create_file (slice 0 chunk bytes) in
    let (resolves, _, _, _) = upload_done w bytes answers in
    let (r, q) = append_from (length bytes) w file chunk bytes (first ∷ []) in
    let sent : (upload w bytes []).1 ≡ q = elim (Result-cases r) [
      | inl (e, failed) ↦ ground (arith, made, failed)
      | inr (u, went) ↦ ground (arith, made, went)
    ] in
    subst (IsUpload file) (sym sent)
      (append_from-IsUpload (length bytes) w file chunk bytes (first ∷ []) answers tt)
