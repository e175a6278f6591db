-- ===== src/Examples/Signer.antt =====
-- A codec that writes one payload, and reads it back.
use Prim.Native.String.{count, String.[], String.◌∷◌}
use writ_ai.Prelude.{◌-◌, ◌%◌, String, [], ◌∷◌, refl}
use writ_ai.Prelude.Decimal.{append_text}
use writ_ai.Exec.{ok}
use writ_ai.Domain.{GrantPayload, Verdict}
use writ_ai.Authority.{Platform}
use writ_ai.Grants.{Bytes, Codec, GrantSigner, equal_signs, signed_platform}
use writ_ai.Grants.Tokens.{Padded, ReadsBack, UrlSafe}

abbrev letters : Bytes → String
letters [] = ""
letters (n ∷ bytes) = "A" ∷ letters bytes

letters-UrlSafe : (bytes : Bytes) → UrlSafe (letters bytes)
letters-UrlSafe [] = tt
letters-UrlSafe (n ∷ bytes) = (refl, letters-UrlSafe bytes)

abbrev pub one_payload : GrantPayload → Codec
one_payload p = record {
  b64encode =
      λ bytes. append_text (letters bytes) (equal_signs ((4 - count (letters bytes) % 4) % 4));
  b64decode = λ _. ok (5 ∷ []);
  hmac_sha256 = λ key message. 7 ∷ 8 ∷ [];
  utf8_encode = λ s. count s ∷ [];
  utf8_decode = λ _. ok "grant";
  dumps = λ _. "grant";
  loads = λ _. ok p;
  authorization_id = λ id. id;
}

pub one_payload-Padded : (p : GrantPayload) → Padded (one_payload p)
one_payload-Padded p bytes = (letters bytes, refl, letters-UrlSafe bytes)

pub one_payload-ReadsBack : (p : GrantPayload) → ReadsBack (one_payload p) p
one_payload-ReadsBack p = record { base64 = refl; utf8 = refl; json = refl }

abbrev pub signer : GrantSigner
signer = record { secret = 1 ∷ []; ttl_seconds = 300 }

-- The grant of run `r` for ticket `T1` at a version.
abbrev pub ticket_grant : String → GrantPayload
ticket_grant snapshot = record {
  authorization_id = "x";
  run_id = "r";
  task_id = "T1";
  decision_snapshot = snapshot;
  plan_hash = "h";
  verdict = Verdict.allow;
  issued_at = 1000;
  expires_at = 300001000;
}

abbrev pub codec : Codec
codec = one_payload (ticket_grant "graph-v3")

abbrev pub signing : Platform
signing = signed_platform codec signer (λ _. "h") (λ s. s)
