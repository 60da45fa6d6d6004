-- ===== src/Webhooks/Access.antt =====
-- _apply_installation, _upsert_installation, _apply_repository_access and the deletion of a repository of
-- backend/app/services/webhooks.py.
use code_naut.Prelude.{
  ℕ, String, Bool, ◌&&◌, ◌||◌, ◌==◌, Option, none, some, List, [], ◌∷◌, any, str_eq, if◌then◌else◌,
}
use code_naut.Prelude.Table.{select, update_where, update_first, if_found}
use code_naut.Jobs.Model.{
  IndexingStatus, InstallationStatus, AccessMode, AccountType, MemberRole, Repository, Installation,
  Member, Db,
}
use code_naut.Webhooks.Model.{Payload, InstallationData, RepositoryData, Draws}
use code_naut.Webhooks.Rows.{has_github_id, of_installation, installed_repository, has_full_name}
use code_naut.Webhooks.Validate.{action_in}

abbrev pub account_type_of : String → AccountType
account_type_of s = if str_eq s "User" then AccountType.user else AccountType.organization

-- The columns that _upsert_installation writes whether the row is new or not.
abbrev pub described_installation : InstallationData → Installation → Installation
described_installation x i = record i {
  account_type = account_type_of x.account_type;
  account_github_id = x.account_id;
  account_login = x.account_login;
  permissions_json = x.permissions;
  repository_selection = x.repository_selection;
}

abbrev pub new_installation : ℕ → InstallationData → Installation
new_installation id x = record {
  id = id;
  github_installation_id = x.id;
  account_type = account_type_of x.account_type;
  account_github_id = x.account_id;
  account_login = x.account_login;
  permissions_json = x.permissions;
  repository_selection = x.repository_selection;
  status = InstallationStatus.active;
  suspended_at = none;
  deleted_at = none;
}

abbrev pub revoked_repository : ℕ → Repository → Repository
revoked_repository now r = record r {
  access_revoked_at = some now;
  indexing_status = IndexingStatus.access_revoked;
}

abbrev pub deleted_repository : ℕ → Repository → Repository
deleted_repository now r = record r {
  access_revoked_at = some now;
  deleted_at = some now;
  indexing_status = IndexingStatus.access_revoked;
}

-- A repository of which access is given again.
abbrev pub reopened : Repository → Repository
reopened r =
    reopened_status r.indexing_status (record r { access_revoked_at = none; deleted_at = none })
  where
    reopened_status : IndexingStatus → Repository → Repository
    reopened_status IndexingStatus.access_revoked r = record r {
      indexing_status = IndexingStatus.not_indexed;
      indexing_progress = 0;
    }
    reopened_status _ r = r

-- `external.suspended_at or now`
abbrev pub suspended_from : Option ℕ → ℕ → ℕ
suspended_from none now = now
suspended_from (some t) now = t

-- What an action of GitHub does to the installation's row.
abbrev pub after_action : Option String → Option ℕ → ℕ → Installation → Installation
after_action action suspended_at now i =
    if action_in ("deleted" ∷ []) action
    then record i { status = InstallationStatus.deleted; deleted_at = some now }
    else (if action_in ("suspend" ∷ []) action
        then record i {
          status = InstallationStatus.suspended;
          suspended_at = some (suspended_from suspended_at now);
        }
        else (if action_in ("created" ∷ "unsuspend" ∷ []) action
            then record i {
              status = InstallationStatus.active;
              suspended_at = none;
              deleted_at = none;
            }
            else i))

module _ (user_of : ℕ → Option ℕ) (draws : Draws) (now : ℕ) where
  -- _upsert_installation: the row's id and the tables.
  unfoldable pub upsert_installation : InstallationData → Db → ℕ × Db
  upsert_installation x db =
      if_found (select (has_github_id x.id) db.installations)
        (
          draws.installation_id,
          record db { installations = new_installation draws.installation_id x ∷ db.installations },
        )
        (λ i. (
          i.id,
          record db {
            installations =
                update_first (has_github_id x.id) (described_installation x) db.installations;
          },
        ))

  -- _revoke_installation_repositories
  unfoldable pub revoke_installation_repositories : ℕ → Db → Db
  revoke_installation_repositories installation_id db = record db {
    repositories =
        update_where (of_installation installation_id) (revoked_repository now) db.repositories;
  }

  abbrev pub is_member : ℕ → ℕ → Member → Bool
  is_member installation_id user_id m = m.installation_id == installation_id && m.user_id == user_id

  -- The sender of a new installation becomes its owner.
  abbrev pub add_owner : ℕ → Option ℕ → Db → Db
  add_owner installation_id none db = db
  add_owner installation_id (some user_id) db =
      if any (is_member installation_id user_id) db.members then db else record db {
        members =
            record {
              installation_id = installation_id;
              user_id = user_id;
              role = MemberRole.owner;
              verified_at = now;
            }
            ∷ db.members;
      }

  abbrev pub sender_user : Option ℕ → Option ℕ
  sender_user none = none
  sender_user (some github_id) = user_of github_id

  abbrev pub act_on_installation : Payload → InstallationData → ℕ × Db → Db
  act_on_installation p x (id, db) =
      let written = record db {
        installations =
            update_first (has_github_id x.id) (after_action p.action x.suspended_at now)
              db.installations;
      } in
      let revoked =
        if action_in ("deleted" ∷ "suspend" ∷ []) p.action
        then revoke_installation_repositories id written
        else written in
      if action_in ("created" ∷ []) p.action
      then add_owner id (sender_user p.sender) revoked
      else revoked

  abbrev pub installation_parts : Payload → Option InstallationData → Db → Db
  installation_parts p none db = db
  installation_parts p (some x) db = act_on_installation p x (upsert_installation x db)

  -- _apply_installation
  unfoldable pub apply_installation : Payload → Db → Db
  apply_installation p db = installation_parts p p.installation db

  -- `update … where github_repository_id in removed`, which an empty list skips.
  abbrev pub revoke_removed : ℕ → List ℕ → Db → Db
  revoke_removed installation_id removed db = record db {
    repositories =
        update_where
          (λ r. of_installation installation_id r && any (λ g. r.github_repository_id == g) removed)
          (revoked_repository now) db.repositories;
  }

  abbrev pub new_repository : ℕ → RepositoryData → Repository
  new_repository installation_id x = record {
    id = draws.repository_id x.id;
    installation_id = some installation_id;
    access_mode = AccessMode.github_installation;
    github_repository_id = x.id;
    github_owner = x.owner_login;
    github_name = x.name;
    github_full_name = x.full_name;
    github_url = x.html_url;
    is_private = x.private;
    default_branch = x.default_branch;
    indexed_branch = none;
    refresh_generation = 0;
    latest_webhook_commit_sha = none;
    last_delivery_status = none;
    last_delivery_at = none;
    current_remote_sha = none;
    last_indexed_commit_sha = none;
    index_version = 0;
    indexing_status = IndexingStatus.not_indexed;
    indexing_progress = 0;
    indexing_stage = none;
    indexing_error_code = none;
    indexing_error_message = none;
    size_bytes = none;
    last_indexed_at = none;
    active_vector_count = 0;
    access_revoked_at = none;
    deleted_at = none;
  }

  -- The repositories after the loop over those added. The session does not flush before a SELECT, so two
  -- new rows for one repository are refused by the unique index at the commit: `none`. So is a new row
  -- with a full name that another row of the installation has.
  unfoldable pub add_repositories :
      ℕ → List RepositoryData → List Repository → Option (List Repository)
  add_repositories installation_id [] rows = some rows
  add_repositories installation_id (x ∷ xs) rows =
      if_found (select (installed_repository installation_id x.id) rows)
        (if any (λ y. y.id == x.id) xs || any (has_full_name installation_id x.full_name) rows
          then none
          else add_repositories installation_id xs (new_repository installation_id x ∷ rows))
        (λ r.
          add_repositories installation_id xs
            (update_first (installed_repository installation_id x.id) reopened rows))

  abbrev pub with_repositories : Db → Option (List Repository) → Option Db
  with_repositories db none = none
  with_repositories db (some rows) = some (record db { repositories = rows })

  abbrev pub change_access : Payload → ℕ × Db → Option Db
  change_access p (id, db) =
      let revoked = revoke_removed id p.repositories_removed db in
      with_repositories revoked (add_repositories id p.repositories_added revoked.repositories)

  abbrev pub access_parts : Payload → Option InstallationData → Db → Option Db
  access_parts p none db = some db
  access_parts p (some x) db = change_access p (upsert_installation x db)

  -- _apply_repository_access
  unfoldable pub apply_repository_access : Payload → Db → Option Db
  apply_repository_access p db = access_parts p p.installation db

  -- The UPDATE of a deleted repository, whose installation a subquery finds.
  abbrev pub delete_repository : ℕ → ℕ → Db → Db
  delete_repository installation_id github_id db =
      if_found (select (has_github_id installation_id) db.installations) db (λ i. record db {
        repositories =
            update_where (installed_repository i.id github_id) (deleted_repository now)
              db.repositories;
      })
