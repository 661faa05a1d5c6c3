-- ===== src/Api/Idempotency/Once.antt =====
-- A request with a key runs once.
use evorule_rule.Prelude.{ℕ, ◌+◌, ◌≤◌, String, ◌≡◌, false, str_eq}
use evorule_rule.Api.Error.{ApiError, conflict}
use evorule_rule.Api.Idempotency.{done, Response, IdemEntry, Cache, idem_ttl_secs, admit, finish}

-- What happens between two moments, nothing of it after the time `until`: other requests come and
-- are completed, and the request is repeated with any body, not after the time `repeats`.
pub data Between (key : String) (repeats until : ℕ) (cache : Cache) : Cache → Type 0 where
  nothing : Between key repeats until cache cache
  repeated :
      {c : Cache} (body : String) (t : ℕ)
      → Between key repeats until cache c
      → t ≤ repeats
      → t ≤ until
      → Between key repeats until cache (admit key body t c).1
  admitted :
      {c : Cache} (other body : String) (t : ℕ)
      → Between key repeats until cache c
      → str_eq key other ≡ false
      → t ≤ until
      → Between key repeats until cache (admit other body t c).1
  completed :
      {c : Cache} (other : String) (response : Response) (t : ℕ)
      → Between key repeats until cache c
      → str_eq key other ≡ false
      → Between key repeats until cache (finish other response t c)

abbrev completed_entry : String → Response → ℕ → IdemEntry
completed_entry body response later = record {
  req_body = body;
  state = done;
  response = response;
  expires_at = later + idem_ttl_secs;
}

abbrev pub busy : ApiError
busy = conflict "该 Idempotency-Key 正在处理中（并发重复请求）"

abbrev pub reused : ApiError
reused = conflict "Idempotency-Key 复用但请求体不同"
