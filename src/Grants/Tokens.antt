-- ===== src/Grants/Tokens.antt =====
-- The theorems about grant tokens.
use Prim.Native.Char.{Char, code}
use Prim.Native.String.{count, String.[], String.◌∷◌}
use writ_ai.Prelude.{
  ℕ, zero, suc, ◌+◌, ◌*◌, subst, ◌-◌, ◌%◌, String, Bool, true, ◌&&◌, ◌||◌, ◌≡◌, refl, sym, [], ◌∷◌,
  ◌∙◌, ap, some, arith, eqb, leb, eq_refl,
}
use writ_ai.Prelude.Decimal.{append_text}
use writ_ai.Exec.{ok, and_then}
use writ_ai.Domain.{GrantPayload, SignedGrant, Verdict}
use writ_ai.Grants.{
  Bytes, Codec, GrantSigner, ascii_bytes, equal_signs, strip_equal_signs, split_dot, b64, unb64,
  sign, payload_of, compare_digest, issue, decode,
}

-- The alphabet of URL-safe base64: digits, letters, `-` and `_`.
abbrev pub is_url_safe : ℕ → Bool
is_url_safe n =
    (leb 48 n && leb n 57)
    || (leb 65 n && leb n 90)
    || (leb 97 n && leb n 122)
    || eqb n 45
    || eqb n 95

abbrev pub UrlSafe : String → Type 0
UrlSafe [] = Unit
UrlSafe (c ∷ s) = (is_url_safe (code c) ≡ true) × UrlSafe s

-- Base64: text of the alphabet, filled up with `=` to a multiple of four characters.
abbrev pub Padded : Codec → Type 0
Padded codec =
    (bytes : Bytes)
    → (core : String) × (codec.b64encode bytes
        ≡ append_text core (equal_signs ((4 - count core % 4) % 4)))
      × UrlSafe core

-- The library reads back what it wrote for this payload.
pub record ReadsBack (codec : Codec) (p : GrantPayload) : Type 0 where
  pub base64 :
      codec.b64decode (codec.b64encode (codec.utf8_encode (codec.dumps p)))
      ≡ ok (codec.utf8_encode (codec.dumps p))
  pub utf8 : codec.utf8_decode (codec.utf8_encode (codec.dumps p)) ≡ ok (codec.dumps p)
  pub json : codec.loads (codec.dumps p) ≡ ok p

ascii-UrlSafe : (s : String) → UrlSafe s → (bs : Bytes) × (ascii_bytes s ≡ some bs)
unfolding ascii_bytes
ascii-UrlSafe [] h = (_, refl)
ascii-UrlSafe (c ∷ s) h = let (bs, e) = ascii-UrlSafe s h.1 in (code c ∷ bs, ground (arith, e, h.0))

strip-equal_signs : (n : ℕ) → strip_equal_signs (equal_signs n) ≡ ""
unfolding strip_equal_signs
strip-equal_signs zero = refl
strip-equal_signs (suc n) = rw (strip-equal_signs n) refl

strip-last :
    (c : Char) (s : String)
    → strip_equal_signs s ≡ ""
    → is_url_safe (code c) ≡ true
    → strip_equal_signs (c ∷ s) ≡ c ∷ ""
unfolding strip_equal_signs
strip-last c s h safe = rw h (ground (arith, safe))

strip-append :
    (core : String) (n : ℕ)
    → UrlSafe core
    → strip_equal_signs (append_text core (equal_signs n)) ≡ core
unfolding strip_equal_signs
strip-append [] n h = strip-equal_signs n
strip-append (c ∷ []) n h = strip-last c (equal_signs n) (strip-equal_signs n) h.0
strip-append (c ∷ d ∷ s) n h = ground (arith, strip-append (d ∷ s) n h.1)

split_dot-append :
    (body signature : String)
    → UrlSafe body
    → split_dot (append_text body ("." ∷ signature)) ≡ some (body, signature)
unfolding split_dot
split_dot-append [] signature h = refl
split_dot-append (c ∷ body) signature h = ground (arith, h.0, split_dot-append body signature h.1)

-- What a payload says that was issued; its id is made by the library.
pub record IsIssued (p : GrantPayload) (codec : Codec) (signer : GrantSigner) (verdict : Verdict)
    (now : ℕ) (fresh_id run_id task_id snapshot hash : String) : Type 0 where
  pub id : p.authorization_id ≡ codec.authorization_id fresh_id
  pub run : p.run_id ≡ run_id
  pub task : p.task_id ≡ task_id
  pub version : p.decision_snapshot ≡ snapshot
  pub plan : p.plan_hash ≡ hash
  pub decided : p.verdict ≡ verdict
  pub issued : p.issued_at ≡ now
  pub expires : p.expires_at ≡ now + signer.ttl_seconds * 1000000

module _ (codec : Codec) (padded : Padded codec) where
  b64_lem :
      (bytes : Bytes)
      → UrlSafe (b64 codec bytes)
        × (unb64 codec (b64 codec bytes) ≡ codec.b64decode (codec.b64encode bytes))
  unfolding b64 unb64
  b64_lem bytes =
      let (core, e, safe) = padded bytes in
      let stripped : b64 codec bytes ≡ core = ap strip_equal_signs e ∙ strip-append core _ safe in
      (rw stripped safe, rw stripped (ap codec.b64decode (sym e)))

  sign_returns :
      (signer : GrantSigner) (body : String)
      → UrlSafe body
      → (signature : String) × (sign codec signer body ≡ ok signature) × UrlSafe signature
  unfolding sign
  sign_returns signer body h =
      let (bs, e) = ascii-UrlSafe body h in
      (b64 codec (codec.hmac_sha256 signer.secret bs), ground (arith, e), (b64_lem _).0)

  compare_digest-same : (s : String) → UrlSafe s → compare_digest codec s s ≡ ok true
  unfolding compare_digest
  compare_digest-same s h = let (bs, e) = ascii-UrlSafe s h in ground (arith, e, eq_refl s)

  decode_reads :
      (signer : GrantSigner) (token body signature : String) (raw : Bytes) (json : String)
      (p : GrantPayload)
      → split_dot token ≡ some (body, signature)
      → sign codec signer body ≡ ok signature
      → UrlSafe signature
      → unb64 codec body ≡ ok raw
      → codec.utf8_decode raw ≡ ok json
      → codec.loads json ≡ ok p
      → decode codec signer token ≡ ok p
  unfolding decode
  decode_reads signer token body signature raw json p parts signed safe read utf8 loaded =
      ground (arith, parts, signed, compare_digest-same signature safe, read, utf8, loaded)

  pub issue_returns :
      (signer : GrantSigner) (verdict : Verdict) (now : ℕ)
      (fresh_id run_id task_id snapshot hash : String)
      → (g : SignedGrant) × (issue codec signer verdict now fresh_id run_id task_id snapshot hash
          ≡ ok g)
  unfolding issue
  issue_returns signer verdict now fresh_id run_id task_id snapshot hash =
      let p = payload_of codec signer verdict now fresh_id run_id task_id snapshot hash in
      let body = b64 codec (codec.utf8_encode (codec.dumps p)) in
      let (signature, signed, _) =
        sign_returns signer body (b64_lem (codec.utf8_encode (codec.dumps p))).0 in
      (record { payload = p; token = append_text body ("." ∷ signature) }, ground (arith, signed))

  -- The grant that is issued, and what its token decodes to.
  pub issue_decodes :
      (signer : GrantSigner) (verdict : Verdict) (now : ℕ)
      (fresh_id run_id task_id snapshot hash : String)
      → ReadsBack codec (payload_of codec signer verdict now fresh_id run_id task_id snapshot hash)
      → (g : SignedGrant) × (issue codec signer verdict now fresh_id run_id task_id snapshot hash
          ≡ ok g)
        × (g.payload ≡ payload_of codec signer verdict now fresh_id run_id task_id snapshot hash)
        × (decode codec signer g.token ≡ ok g.payload)
  unfolding issue
  issue_decodes signer verdict now fresh_id run_id task_id snapshot hash back =
      let p = payload_of codec signer verdict now fresh_id run_id task_id snapshot hash in
      let bytes = codec.utf8_encode (codec.dumps p) in
      let (safe, read) = b64_lem bytes in
      let (signature, signed, safe') = sign_returns signer (b64 codec bytes) safe in
      (
        record { payload = p; token = append_text (b64 codec bytes) ("." ∷ signature) },
        ground (arith, signed),
        refl,
        decode_reads signer _ (b64 codec bytes) signature bytes (codec.dumps p) p
            (split_dot-append (b64 codec bytes) signature safe) signed safe' (read ∙ back.base64)
            back.utf8 back.json,
      )

  -- Issuing a grant succeeds, and its token decodes to its payload, which names the run, the task, the
  -- version, the plan's hash and the verdict it was issued for and the time of issue, and expires the
  -- signer's number of seconds after it. It needs of the library that base64 is padded text of its
  -- alphabet, and that it reads back what it wrote for this payload.
  pub decode-issue :
      (signer : GrantSigner) (verdict : Verdict) (now : ℕ)
      (fresh_id run_id task_id snapshot hash : String)
      → ReadsBack codec (payload_of codec signer verdict now fresh_id run_id task_id snapshot hash)
      → (g : SignedGrant) × (issue codec signer verdict now fresh_id run_id task_id snapshot hash
          ≡ ok g)
        × IsIssued g.payload codec signer verdict now fresh_id run_id task_id snapshot hash
        × (decode codec signer g.token ≡ ok g.payload)
  unfolding payload_of
  decode-issue signer verdict now fresh_id run_id task_id snapshot hash back =
      let (g, issued, same, decoded) =
        issue_decodes signer verdict now fresh_id run_id task_id snapshot hash back in
      let bound = λ (p : GrantPayload).
        IsIssued p codec signer verdict now fresh_id run_id task_id snapshot hash in
      (
        g,
        issued,
        subst bound (sym same) (record {
          id = refl;
          run = refl;
          task = refl;
          version = refl;
          plan = refl;
          decided = refl;
          issued = refl;
          expires = refl;
        }),
        decoded,
      )

-- What a token is that decodes: a body and the signature of that body under the signer's secret.
pub record Signed (codec : Codec) (signer : GrantSigner) (token : String) (p : GrantPayload)
    : Type 0 where
  pub body : String
  pub signature : String
  pub parts : split_dot token ≡ some (body, signature)
  pub genuine : sign codec signer body ≡ ok signature
  pub reads :
      and_then (unb64 codec body) (λ raw. and_then (codec.utf8_decode raw) codec.loads) ≡ ok p
