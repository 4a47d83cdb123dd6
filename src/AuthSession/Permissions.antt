-- ===== src/AuthSession/Permissions.antt =====
-- What addPermissions of core/auth-gateway/auth-session.service.ts does on each branch.
use codebase_be_nestjs.Common.{
  ℕ, ◌/◌, ◌≤◌, ◌<◌, String, ◌==◌, ◌≡◌, Bool, ◌||◌, List, val, ltb, if◌then◌else◌, includes,
  includes-push_missing, read,
}
use codebase_be_nestjs.Common.Int.{pos}
use codebase_be_nestjs.Common.Effect.{ok, err, error}
use codebase_be_nestjs.Shared.SessionType.{JwtSession, token}
use codebase_be_nestjs.Shared.Session.{
  SessionPermission, SessionPermission-discrete, BaseJwtSession,
}
use codebase_be_nestjs.Redis.Server.{Server}
use codebase_be_nestjs.Redis.Storage.{World}
use codebase_be_nestjs.Session.Laws.{at_time}
use codebase_be_nestjs.AuthSession.{list_or_nil, grant, load, save, add_permissions}
use codebase_be_nestjs.AuthSession.Lifetime.{
  end_of, saved, no_session, save-ok, load-save, save-refused,
}

-- Whether the session has the permission.
abbrev pub holds : BaseJwtSession → SessionPermission → Bool
holds session p = includes SessionPermission-discrete (list_or_nil (read session.permissions)) p

pub holds-saved-grant :
    (now : ℕ) (ps : List SessionPermission) (session : BaseJwtSession) (p : SessionPermission)
    → holds (saved now (grant ps session)) p
      ≡ (holds session p || includes SessionPermission-discrete ps p)
holds-saved-grant now ps session p =
    includes-push_missing SessionPermission-discrete (list_or_nil (read session.permissions)) ps p

module _ {r : Server} (w : World r) (key : String) (ps : List SessionPermission) where
  module _ (session : BaseJwtSession) (there : load token key w ≡ (ok session, w)) where
    add_permissions-save :
        (type : JwtSession) → add_permissions key ps type w ≡ save type key (grant ps session) w
    unfolding add_permissions
    add_permissions-save type = rw there

    module _ (e : ℕ) (exp : session.exp ≡ val (pos e)) where
      -- For a session that can be read and has whole seconds of life left, addPermissions returns
      -- it with the permissions. Read later before the end of its life, the session has its old
      -- end and holds exactly what it held before and what was given; read after that end, it is
      -- gone; and the reads of all other identifiers are as they were.
      pub add_permissions_lem :
          w.now / 1000 < e
          → (t : ℕ) (j : String) (p : SessionPermission) → w.now ≤ t
          → ((add_permissions key ps token w).0 ≡ ok (grant ps session))
            × ((load token j (at_time (add_permissions key ps token w).1 t)).0 ≡ (
                if key == j
                then (if ltb t (end_of w.now e)
                    then ok (saved w.now (grant ps session))
                    else no_session)
                else (load token j (at_time w t)).0))
            × (holds (saved w.now (grant ps session)) p
                ≡ (holds session p || includes SessionPermission-discrete ps p))
            × ((saved w.now (grant ps session)).exp ≡ session.exp)
      add_permissions_lem h t j p le = rw (add_permissions-save token) (
        save-ok w token key (grant ps session) e exp h,
        load-save w token key (grant ps session) e exp h t j le,
        holds-saved-grant w.now ps session p,
        rw exp,
      )

      -- For a session that can be read but whose end is not after the current second,
      -- addPermissions throws the error of the SETEX command and changes nothing.
      pub add_permissions-refused :
          (type : JwtSession)
          → e ≤ w.now / 1000
          → add_permissions key ps type w ≡ (err (error "ReplyError"), w)
      add_permissions-refused type h =
          rw (add_permissions-save type) (save-refused w type key (grant ps session) e exp h)
