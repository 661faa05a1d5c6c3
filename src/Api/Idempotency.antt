-- ===== src/Api/Idempotency.antt =====
-- `idempotency` of src/api/mod.rs: a repeated request is answered from the first one's response.
pub mod Once
use Prim.Native.String.{◌++◌}
use evorule_rule.Prelude.{
  ℕ, ◌+◌, String, Bool, true, false, Option, none, some, List, [], Result, ok, err, ltb, str_eq,
  if◌then◌else◌,
}
use evorule_rule.Api.Error.{ApiError, conflict}
use evorule_rule.Api.Access.{AuthContext}

pub data IdemState : Type 0 where
  pending done : IdemState

pub record Response : Type 0 where
  pub status : ℕ
  pub headers : List (String × String)
  pub body : String

pub record IdemEntry : Type 0 where
  pub req_body : String
  pub state : IdemState
  pub response : Response
  pub expires_at : ℕ

-- `HashMap<String, IdemEntry>`.
abbrev pub Cache : Type 0
Cache = String → Option IdemEntry

abbrev pub idem_ttl_secs : ℕ
idem_ttl_secs = 86400

abbrev pub idem_pending_timeout_secs : ℕ
idem_pending_timeout_secs = 300

abbrev live : ℕ → Option IdemEntry → Option IdemEntry
live now none = none
live now (some e) = if ltb now e.expires_at then some e else none

unfoldable pub retain : ℕ → Cache → Cache
retain now cache key = live now (cache key)

unfoldable pub insert : String → IdemEntry → Cache → Cache
insert key e cache other = if str_eq other key then some e else cache other

-- The entry of a request that is on its way.
abbrev pub on_its_way : (req_body : String) (now : ℕ) → IdemEntry
on_its_way req_body now = record {
  req_body = req_body;
  state = pending;
  response = record { status = 500; headers = []; body = "" };
  expires_at = now + idem_ttl_secs;
}

-- What happens to a request: it runs, or it is answered at once.
pub data Decision : Type 0 where
  runs : Decision
  answered : Result ApiError Response → Decision

abbrev pub starts : (key req_body : String) (now : ℕ) → Cache → Decision × Cache
starts key req_body now cache = (runs, insert key (on_its_way req_body now) cache)

abbrev pub decide_state :
    IdemState → IdemEntry → (key req_body : String) (now : ℕ) → Cache → Decision × Cache
decide_state pending e key req_body now cache =
    if ltb (e.expires_at + idem_pending_timeout_secs) (now + idem_ttl_secs)
    then starts key req_body now cache
    else (answered (err (conflict "该 Idempotency-Key 正在处理中（并发重复请求）")), cache)
decide_state done e key req_body now cache =
    if str_eq e.req_body req_body
    then (answered (ok e.response), cache)
    else (answered (err (conflict "Idempotency-Key 复用但请求体不同")), cache)

abbrev pub decide : Option IdemEntry → (key req_body : String) (now : ℕ) → Cache → Decision × Cache
decide none key req_body now cache = starts key req_body now cache
decide (some e) key req_body now cache = decide_state e.state e key req_body now cache

-- The part of the middleware in front of the handler, under the lock.
unfoldable pub admit : (key req_body : String) (now : ℕ) → Cache → Decision × Cache
unfolding retain
admit key req_body now cache =
    let kept = retain now cache in decide (kept key) key req_body now kept

abbrev pub finished : Response → ℕ → Option IdemEntry → Cache → String → Cache
finished response now none cache key = cache
finished response now (some e) cache key =
    insert key (record e { state = done; response = response; expires_at = now + idem_ttl_secs })
      cache

-- The part after the handler.
unfoldable pub finish : (key : String) → Response → (now : ℕ) → Cache → Cache
unfolding insert
finish key response now cache = finished response now (cache key) cache key

unfoldable pub cache_key : AuthContext → String → String
cache_key ctx key = ctx.tenant_id ++ ":" ++ ctx.user_id ++ ":" ++ key

-- The whole middleware around a handler that changes a world, where no other request comes between.
module _ {W : Type 0} (handler : W → Response × W) where
  abbrev run_then :
      (key : String) (later : ℕ) → Decision × Cache → W → Result ApiError Response × Cache × W
  run_then key later (answered r, cache) w = (r, cache, w)
  run_then key later (runs, cache) w =
      let (response, w2) = handler w in (ok response, finish key response later cache, w2)

  -- A read, a request without a key or with an empty one, and one without a sender go through.
  abbrev keyed : (safe : Bool) → Option String → Option AuthContext → Option String
  keyed true key ctx = none
  keyed false none ctx = none
  keyed false (some key) none = none
  keyed false (some key) (some ctx) = if str_eq key "" then none else some (cache_key ctx key)

  abbrev with_key :
      Option String
      → (req_body : String) (now later : ℕ) → Cache
      → W
      → Result ApiError Response × Cache × W
  with_key none req_body now later cache w =
      let (response, w2) = handler w in (ok response, cache, w2)
  with_key (some key) req_body now later cache w =
      run_then key later (admit key req_body now cache) w

  unfoldable pub idempotency :
      (safe : Bool)
      → Option String
      → Option AuthContext
      → (req_body : String) (now later : ℕ) → Cache
      → W
      → Result ApiError Response × Cache × W
  unfolding admit finish cache_key
  idempotency safe key ctx req_body now later cache w =
      with_key (keyed safe key ctx) req_body now later cache w
