-- ===== src/Hedera/Connection/Keys.antt =====
-- The key that `fetchPublicKeyFromMirrorNode` reads.
use Prim.Native.String.{◌++◌}
use wagr.Common.{
  ◌≡◌, ◌⊎◌, inl, inr, ap, ◌∙◌, String, Option, none, some, true, false, truthy, arith, Option-cases,
  Bool-cases,
}
use wagr.Js.Effects.{Response, is_ok, ok, Result-cases}
use wagr.Hedera.Connection.{
  World, MirrorKey, mirror_url, key_in, read_mirror, fetch_public_key_from_mirror_node,
}

-- The mirror node has answered with success, and in the body is a key that is not empty. A key whose type
-- is not said is an Ed25519 key.
pub record KeyGiven (w : World) (account network : String) (key : String × String) : Type 0 where
  pub response : Response (Option MirrorKey)
  pub status_text : String
  pub body : MirrorKey
  pub answered :
      w.mirror (mirror_url network ++ ("/api/v1/accounts/" ++ account)) ≡ ok (response, status_text)
  pub accepted : is_ok response ≡ true
  pub read : response.json ≡ ok (some body)
  pub key_there : truthy body.key ≡ true
  pub key_given : body.key ≡ some (key.0)
  pub key_type_given :
      ((truthy body.key_type ≡ true) × (body.key_type ≡ some (key.1)))
      ⊎ ((truthy body.key_type ≡ false) × (key.1 ≡ "ED25519"))

key_in-given :
    (body : MirrorKey) (key : String × String)
    → key_in (some body) ≡ ok key
    → (truthy body.key ≡ true)
      × (body.key ≡ some (key.0))
      × (((truthy body.key_type ≡ true) × (body.key_type ≡ some (key.1)))
          ⊎ ((truthy body.key_type ≡ false) × (key.1 ≡ "ED25519")))
key_in-given body key found = elim (Option-cases body.key) [
  | inl missing ↦ absurd (ground (arith, found, missing))
  | inr (k, there) ↦ elim (Bool-cases (truthy (some k))) [
    | inr empty ↦ absurd (ground (arith, found, there, empty))
    | inl real ↦ (
      ground (arith, there, real),
      ground (arith, found, there, real),
      elim (Option-cases body.key_type) [
        | inl untyped ↦ inr (ground (arith, untyped), ground (arith, found, there, real, untyped))
        | inr (t, typed) ↦ elim (Bool-cases (truthy (some t))) [
          | inl said ↦
              inl (ground (arith, typed, said), ground (arith, found, there, real, typed, said))
          | inr unsaid ↦
              inr (ground (arith, typed, unsaid), ground (arith, found, there, real, typed, unsaid))
        ]
      ],
    )
  ]
]

pub fetch-KeyGiven :
    (w : World) (account network : String) (key : String × String)
    → fetch_public_key_from_mirror_node w account network ≡ ok key
    → KeyGiven w account network key
unfolding fetch_public_key_from_mirror_node read_mirror
fetch-KeyGiven w account network key found =
    elim (Result-cases (w.mirror (mirror_url network ++ ("/api/v1/accounts/" ++ account)))) [
      | inl (e, failed) ↦ absurd (ground (arith, found, failed))
      | inr ((response, status_text), answered) ↦ elim (Bool-cases (is_ok response)) [
        | inr refused ↦ absurd (ground (arith, found, answered, refused))
        | inl accepted ↦ elim (Result-cases response.json) [
          | inl (e, failed) ↦ absurd (ground (arith, found, answered, accepted, failed))
          | inr (none, read) ↦ absurd (ground (arith, found, answered, accepted, read))
          | inr (some body, read) ↦ elim (Result-cases (key_in (some body))) [
            | inl (e, failed) ↦ absurd (ground (arith, found, answered, accepted, read, failed))
            | inr (k, given) ↦
                let same : k ≡ key = ground (arith, found, answered, accepted, read, given) in
                let (there, name, type) = key_in-given body key (given ∙ ap ok same) in
                record {
                  response = response;
                  status_text = status_text;
                  body = body;
                  answered = answered;
                  accepted = accepted;
                  read = read;
                  key_there = there;
                  key_given = name;
                  key_type_given = type;
                }
          ]
        ]
      ]
    ]
