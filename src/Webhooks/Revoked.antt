-- ===== src/Webhooks/Revoked.antt =====
-- _apply_installation of backend/app/services/webhooks.py and the access checks of the job store.
use code_naut.Prelude.{
  ℕ, true, false, ◌&&◌, ◌≡◌, Option, none, some, [], ◌∷◌, arith, any, All, All-map, refl, subst,
}
use code_naut.Prelude.Selecting.{All-every}
use code_naut.Prelude.Table.{select, if_rule, All-update_where_split}
use code_naut.Jobs.Model.{Job, Repository, Installation, Db, Settings}
use code_naut.Jobs.Access.{is_authorized}
use code_naut.Webhooks.Model.{Payload, InstallationData, Draws}
use code_naut.Webhooks.Rows.{has_github_id, of_installation, is_open}
use code_naut.Webhooks.Access.{
  revoked_repository, upsert_installation, revoke_installation_repositories, add_owner, is_member,
  act_on_installation, installation_parts, apply_installation, sender_user,
}
use code_naut.Webhooks.Validate.{action_in}

-- The repository is of another installation, or it is not open.
abbrev pub IsShut : ℕ → Repository → Type 0
IsShut installation_id r = (of_installation installation_id r && is_open r) ≡ false

module _ (user_of : ℕ → Option ℕ) (draws : Draws) (now : ℕ) where
  revoke-IsShut :
      (id : ℕ) (db : Db)
      → All (IsShut id) (revoke_installation_repositories user_of draws now id db).repositories
  unfolding revoke_installation_repositories
  revoke-IsShut id db =
      All-update_where_split (λ _. Unit) (IsShut id) (of_installation id) (revoked_repository now)
        db.repositories (λ r own _. ground arith) (λ r other _. ground (arith, other))
        (All-every (λ _. Unit) db.repositories (λ _. tt))

  owner-IsShut :
      (id : ℕ) (user : Option ℕ) (db : Db)
      → All (IsShut id) db.repositories
      → All (IsShut id) (add_owner user_of draws now id user db).repositories
  owner-IsShut id none db h = h
  owner-IsShut id (some user_id) db h =
      if_rule (λ (x : Db). All (IsShut id) x.repositories)
        (any (is_member user_of draws now id user_id) db.members) _ _ (λ _. h) (λ _. h)

  act-IsShut :
      (p : Payload) (x : InstallationData) (r : ℕ × Db)
      → action_in ("deleted" ∷ "suspend" ∷ []) p.action ≡ true
      → All (IsShut r.0) (act_on_installation user_of draws now p x r).repositories
  act-IsShut p x (id, db) ends =
      let shut = revoke-IsShut id _ in
      rw ends (
        if_rule (λ (y : Db). All (IsShut id) y.repositories) (action_in ("created" ∷ []) p.action) _
          _ (λ _. owner-IsShut id (sender_user user_of draws now p.sender) _ shut) (λ _. shut))

  shut-unauthorized :
      (s : Settings) (later id : ℕ) (db : Db) (j : Job) (r : Repository)
      → IsShut id r
      → (of_installation id r && is_authorized s later db j r) ≡ false
  unfolding is_authorized
  shut-unauthorized s later id db j r shut = ground (arith, shut)

  upsert-known :
      (x : InstallationData) (db : Db) (i : Installation)
      → select (has_github_id x.id) db.installations ≡ some i
      → (upsert_installation user_of draws now x db).0 ≡ i.id
  unfolding upsert_installation
  upsert-known x db i known = rw known refl

  -- After GitHub deletes or suspends an installation that the tables have, no job is authorized for
  -- any of the repositories of that installation's row, whatever the job, the time and the settings.
  pub apply_installation-unauthorized :
      (p : Payload) (x : InstallationData) (i : Installation) (before : Db) (s : Settings)
      (later : ℕ) (j : Job)
      → p.installation ≡ some x
      → select (has_github_id x.id) before.installations ≡ some i
      → action_in ("deleted" ∷ "suspend" ∷ []) p.action ≡ true
      → let after = apply_installation user_of draws now p before in
        All
          (λ r. (of_installation i.id r && is_authorized s later after j r) ≡ false)
          after.repositories
  unfolding apply_installation
  apply_installation-unauthorized p x i before s later j named known ends =
      let upserted = upsert_installation user_of draws now x before in
      let shut : All (IsShut i.id)
          (act_on_installation user_of draws now p x upserted).repositories =
        subst
          (λ (id : ℕ).
            All (IsShut id) (act_on_installation user_of draws now p x upserted).repositories)
          (upsert-known x before i known) (act-IsShut p x upserted ends) in
      rw named (
        All-map _
          (shut-unauthorized s later i.id (installation_parts user_of draws now p (some x) before)
            j)
          shut)
