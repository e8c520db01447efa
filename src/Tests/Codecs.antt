-- ===== src/Tests/Codecs.antt =====
-- Small codecs that stand in for `serde_json`: each reads back what it writes.
use vm_auth_scope.Base.{
  zero, suc, ◌≡◌, refl, sym, ap, ◌∙◌, [], ◌∷◌, ◌++◌, Bytes, codes, length, take, drop, take-length,
  drop-length,
}
use mathlib.Core.Logic.{ite, if_pos, if_neg}
use vm_auth_scope.Base.Result.{Result, ok, err}
use vm_auth_scope.Base.Result.Laws.{ok_injective}
use vm_auth_scope.Io.{JsonError}
use vm_auth_scope.Proto.Json.{Json, IsJson}
use vm_auth_scope.Proto.Wire.{CertRequest, CertResponse, issued, error}

abbrev pub malformed : JsonError
malformed = record { shown = codes "malformed" }

abbrev pub write_request : CertRequest → Bytes
write_request q =
    q.version ∷ length q.vm_name ∷ length q.entity ∷ (q.vm_name ++ (q.entity ++ q.csr_pem))

abbrev pub read_request : Bytes → Result JsonError CertRequest
read_request (version ∷ n ∷ m ∷ rest) = ok (record {
  version = version;
  vm_name = take n rest;
  entity = take m (drop n rest);
  csr_pem = drop m (drop n rest);
})
read_request _ = err malformed

pub read-write_request : (q : CertRequest) → read_request (write_request q) ≡ ok q
read-write_request q =
    rw (take-length q.vm_name, drop-length q.vm_name, take-length q.entity, drop-length q.entity)

abbrev pub request_json : Json CertRequest
request_json = record { to_vec = λ q. ok (write_request q); from_slice = read_request }

pub request_json-IsJson : IsJson request_json
request_json-IsJson = record {
  from_slice-to_vec = λ v b h. ap read_request (sym (ok_injective h)) ∙ read-write_request v;
}

abbrev pub write_response : CertResponse → Bytes
write_response (issued cert ca) = 1 ∷ length cert ∷ (cert ++ ca)
write_response (error message) = 0 ∷ message

abbrev pub read_response : Bytes → Result JsonError CertResponse
read_response [] = err malformed
read_response (zero ∷ rest) = ok (error rest)
read_response (suc _ ∷ []) = err malformed
read_response (suc _ ∷ n ∷ rest) = ok (issued (take n rest) (drop n rest))

read-write_response : (r : CertResponse) → read_response (write_response r) ≡ ok r
read-write_response (issued cert ca) = rw (take-length cert, drop-length cert)
read-write_response (error message) = refl

abbrev pub response_json : Json CertResponse
response_json = record { to_vec = λ r. ok (write_response r); from_slice = read_response }

pub response_json-IsJson : IsJson response_json
response_json-IsJson = record {
  from_slice-to_vec = λ v b h. ap read_response (sym (ok_injective h)) ∙ read-write_response v;
}

-- A codec that knows one value.
abbrev pub only : {T : Type 0} → Discrete T → T → Json T
only same v = record {
  to_vec = λ w. ite (same w v) (ok (7 ∷ [])) (err malformed);
  from_slice = λ b. ok v;
}

pub only-to_vec : {T : Type 0} (same : Discrete T) (v : T) → (only same v).to_vec v ≡ ok (7 ∷ [])
only-to_vec same v = if_pos (same v v) refl _ _

pub only-IsJson : {T : Type 0} (same : Discrete T) (v : T) → IsJson (only same v)
only-IsJson same v = record {
  from_slice-to_vec = λ w b h. elim (same w v) [
    | yes e ↦ ap ok (sym e)
    | no n ↦ absurd (cc (rw (if_neg (same w v) n) at h))
  ];
}
