-- ===== src/Api/Access.antt =====
-- `require_auth` of src/api/mod.rs, in front of every protected route.
pub mod Granted
use evorule_rule.Prelude.{ℕ, String, not, Option, Result, ok, ok_or, map_err, guard, ◌>>=◌, ◌>>◌}
use evorule_rule.Model.Auth.{Role, parse}
use evorule_rule.Accounts.State.{Accounts}
use evorule_rule.Auth.Service.{Crates, AuthService}
use evorule_rule.Auth.Session.{verify, is_blacklisted}
use evorule_rule.Api.Error.{ApiError, unauthorized}

-- Who sends a request.
pub record AuthContext : Type 0 where
  pub user_id : String
  pub tenant_id : String
  pub role : Role

-- `bearer` is the token of the header, where there is one.
unfoldable pub require_auth :
    Crates
    → AuthService
    → (bearer : Option String) (now : ℕ) → Accounts
    → Result ApiError AuthContext
require_auth crates service bearer now s = do
  token ← ok_or bearer (unauthorized "缺少 Bearer token")
  claims ← map_err (λ e. unauthorized "token 非法或已过期") (verify crates service token now "access")
  guard (not (is_blacklisted crates service claims now s)) (unauthorized "token 已失效（登出）")
  role ← ok_or (parse claims.role) (unauthorized "token 角色非法")
  ok (record { user_id = claims.sub; tenant_id = claims.tenant_id; role = role })
