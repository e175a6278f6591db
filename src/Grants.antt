-- ===== src/Grants.antt =====
-- backend/writai/grants.py: grants as signed tokens. The base64, HMAC, UTF-8 and JSON of the standard
-- library are a parameter; `b64encode` stands for `urlsafe_b64encode`.
pub mod Tokens
use Prim.Native.Char.{Char, code}
use Prim.Native.String.{count, String.[], String.◌∷◌}
use writ_ai.Prelude.{
  ℕ, zero, suc, ◌+◌, ◌-◌, ◌*◌, ◌%◌, String, Bool, true, false, ◌&&◌, ◌==◌, List, [], ◌∷◌, Option,
  none, some, ltb, eqb, is_empty, not, if◌then◌else◌,
}
use writ_ai.Prelude.Decimal.{append_text}
use writ_ai.Exec.{Result, ok, err, and_then, value_error, type_error}
use writ_ai.Domain.{AgentPlan, GrantPayload, SignedGrant, Verdict}
use writ_ai.Authority.{Platform}

abbrev pub Bytes : Type 0
Bytes = List ℕ

-- What the signer calls in the standard library and in pydantic. `loads` is `json.loads` with the
-- validation of the payload, `authorization_id` makes the random identifier.
pub record Codec : Type 0 where
  pub b64encode : Bytes → String
  pub b64decode : String → Result Bytes
  pub hmac_sha256 : Bytes → Bytes → Bytes
  pub utf8_encode : String → Bytes
  pub utf8_decode : Bytes → Result String
  pub dumps : GrantPayload → String
  pub loads : String → Result GrantPayload
  pub authorization_id : String → String

pub record GrantSigner : Type 0 where
  pub secret : Bytes
  pub ttl_seconds : ℕ

-- `str.encode("ascii")`, by characters: `none` for a character beyond ASCII.
unfoldable pub ascii_bytes : String → Option Bytes
ascii_bytes [] = some []
ascii_bytes (c ∷ s) = elim (ascii_bytes s) [
  | none ↦ none
  | some bs ↦ if ltb (code c) 128 then some (code c ∷ bs) else none
]

-- A `UnicodeEncodeError` is a `ValueError`.
abbrev pub encode_ascii : String → Result Bytes
encode_ascii s = elim (ascii_bytes s) [ none ↦ err (value_error "ascii") | some bs ↦ ok bs ]

-- `"=" * n`
abbrev pub equal_signs : ℕ → String
equal_signs zero = ""
equal_signs (suc n) = "=" ∷ equal_signs n

-- `s.rstrip("=")`
unfoldable pub strip_equal_signs : String → String
strip_equal_signs [] = []
strip_equal_signs (c ∷ s) = elim (strip_equal_signs s) [
  | [] ↦ if eqb (code c) 61 then [] else c ∷ []
  | d ∷ t ↦ c ∷ d ∷ t
]

-- `token.split(".", 1)`, if it has two parts.
unfoldable pub split_dot : String → Option (String × String)
split_dot [] = none
split_dot (c ∷ s) =
    let rest = split_dot s in
    if eqb (code c) 46
    then some ([], s)
    else elim rest [ none ↦ none | some (body, signature) ↦ some (c ∷ body, signature) ]

module _ (codec : Codec) where
  -- `GrantSigner(secret, ttl_seconds)`
  unfoldable pub grant_signer : String → ℕ → Result GrantSigner
  grant_signer secret ttl_seconds =
      if secret == ""
      then err (value_error "Grant secret must not be empty")
      else ok (record { secret = codec.utf8_encode secret; ttl_seconds = ttl_seconds })

  -- `_b64`
  unfoldable pub b64 : Bytes → String
  unfolding strip_equal_signs
  b64 bytes = strip_equal_signs (codec.b64encode bytes)

  -- `_unb64`; The remainder that Python gives for a negative number is not negative.
  unfoldable pub unb64 : String → Result Bytes
  unb64 body = codec.b64decode (append_text body (equal_signs ((4 - count body % 4) % 4)))

  -- The signature of a body.
  unfoldable pub sign : GrantSigner → String → Result String
  unfolding b64 ascii_bytes
  sign signer body =
      and_then (encode_ascii body) λ bytes. ok (b64 (codec.hmac_sha256 signer.secret bytes))

  -- The payload that `issue` makes.
  unfoldable pub payload_of :
      GrantSigner → Verdict → ℕ → String → String → String → String → String → GrantPayload
  payload_of signer verdict now fresh_id run_id task_id decision_snapshot plan_hash = record {
    authorization_id = codec.authorization_id fresh_id;
    run_id = run_id;
    task_id = task_id;
    decision_snapshot = decision_snapshot;
    plan_hash = plan_hash;
    verdict = verdict;
    issued_at = now;
    expires_at = now + signer.ttl_seconds * 1000000;
  }

  unfoldable pub issue :
      GrantSigner → Verdict → ℕ → String → String → String → String → String → Result SignedGrant
  unfolding payload_of sign b64
  issue signer verdict now fresh_id run_id task_id decision_snapshot plan_hash =
      let payload =
        payload_of signer verdict now fresh_id run_id task_id decision_snapshot plan_hash in
      let body = b64 (codec.utf8_encode (codec.dumps payload)) in
      and_then (sign signer body)
        λ signature. ok (record { payload = payload; token = append_text body ("." ∷ signature) })

  -- `hmac.compare_digest` refuses texts beyond ASCII.
  unfoldable pub compare_digest : String → String → Result Bool
  unfolding ascii_bytes
  compare_digest s t = elim (ascii_bytes s) [
    | none ↦ err type_error
    | some _ ↦ elim (ascii_bytes t) [ none ↦ err type_error | some _ ↦ ok (s == t) ]
  ]

  unfoldable pub decode : GrantSigner → String → Result GrantPayload
  unfolding split_dot sign compare_digest unb64
  decode signer token = elim (split_dot token) [
    | none ↦ err (value_error "Malformed grant token")
    | some (body, signature) ↦ and_then (sign signer body) λ expected.
        and_then (compare_digest signature expected) λ same.
          if not same
          then err (value_error "Invalid grant signature")
          else and_then (unb64 body)
              λ raw. and_then (codec.utf8_decode raw) λ json. codec.loads json
  ]

  -- The engine with this signer; it relies on the default `verdict=Verdict.ALLOW`.
  abbrev pub signed_platform : GrantSigner → (AgentPlan → String) → (String → String) → Platform
  signed_platform signer stable_hash casefold = record {
    issue = issue signer Verdict.allow;
    decode = decode signer;
    stable_hash = stable_hash;
    casefold = casefold;
  }
