-- ===== src/Webhooks/Events.antt =====
-- The frame of every event of WebhookService._apply_event (backend/app/services/webhooks.py).
use code_naut.Prelude.{
  ℕ, String, ◌&&◌, ◌≡◌, refl, ◌∙◌, Option, none, some, List, [], ◌∷◌, any, is_some, str_eq,
}
use code_naut.Prelude.Table.{select, if_rule, if_found_rule}
use code_naut.Jobs.Model.{Repository, Delivery, Db}
use code_naut.Webhooks.Model.{Payload, InstallationData, RepositoryData, Draws}
use code_naut.Webhooks.Rows.{has_github_id}
use code_naut.Webhooks.Push.{apply_push, apply_repository_metadata}
use code_naut.Webhooks.Access.{
  upsert_installation, revoke_installation_repositories, add_owner, is_member, act_on_installation,
  installation_parts, apply_installation, access_parts, apply_repository_access, change_access,
  with_repositories, revoke_removed, delete_repository, sender_user,
}
use code_naut.Webhooks.Validate.{action_in}
use code_naut.Webhooks.Handle.{
  applied_tables, takes_name, commit_metadata, apply_repository, apply_event,
}
use code_naut.Webhooks.Frame.{
  SameRows, Frame, OnDone, quiet, push_parts-Frame, metadata_parts-Frame,
}

module _ (user_of : ℕ → Option ℕ) (draws : Draws) (now : ℕ) where
  upsert-SameRows :
      (x : InstallationData) (db : Db) → SameRows db (upsert_installation user_of draws now x db).1
  unfolding upsert_installation
  upsert-SameRows x db =
      if_found_rule (λ (r : ℕ × Db). SameRows db r.1) (select (has_github_id x.id) db.installations)
        _ _ (λ _. record { deliveries = refl; jobs = refl })
        (λ i _. record { deliveries = refl; jobs = refl })

  owner-SameRows :
      (id : ℕ) (user : Option ℕ) (start db : Db)
      → SameRows start db
      → SameRows start (add_owner user_of draws now id user db)
  owner-SameRows id none start db h = h
  owner-SameRows id (some user_id) start db h =
      if_rule (SameRows start) (any (is_member user_of draws now id user_id) db.members) _ _
        (λ _. h) (λ _. record { deliveries = h.deliveries; jobs = h.jobs })

  act-SameRows :
      (p : Payload) (x : InstallationData) (start : Db) (r : ℕ × Db)
      → SameRows start r.1
      → SameRows start (act_on_installation user_of draws now p x r)
  unfolding revoke_installation_repositories
  act-SameRows p x start (id, db) h =
      let same : (after : Db)
          → after.deliveries ≡ db.deliveries
          → after.jobs ≡ db.jobs
          → SameRows start after =
        λ after e f. record { deliveries = e ∙ h.deliveries; jobs = f ∙ h.jobs } in
      let revoked =
        if_rule (SameRows start) (action_in ("deleted" ∷ "suspend" ∷ []) p.action) _ _
          (λ _. same _ refl refl) (λ _. same _ refl refl) in
      if_rule (SameRows start) (action_in ("created" ∷ []) p.action) _ _
        (λ _. owner-SameRows id (sender_user user_of draws now p.sender) start _ revoked)
        (λ _. revoked)

  installation-SameRows :
      (p : Payload) (x : Option InstallationData) (db : Db)
      → SameRows db (installation_parts user_of draws now p x db)
  installation-SameRows p none db = record { deliveries = refl; jobs = refl }
  installation-SameRows p (some x) db = act-SameRows p x db _ (upsert-SameRows x db)

  abbrev IfSome : Db → Option Db → Type 0
  IfSome start none = Unit
  IfSome start (some db) = SameRows start db

  with_repositories-IfSome :
      (start db : Db) (rows : Option (List Repository))
      → SameRows start db
      → IfSome start (with_repositories user_of draws now db rows)
  with_repositories-IfSome start db none h = tt
  with_repositories-IfSome start db (some rows) h = record {
    deliveries = h.deliveries;
    jobs = h.jobs;
  }

  change-IfSome :
      (p : Payload) (start : Db) (r : ℕ × Db)
      → SameRows start r.1
      → IfSome start (change_access user_of draws now p r)
  change-IfSome p start (id, db) h =
      with_repositories-IfSome start (revoke_removed user_of draws now id p.repositories_removed db)
        _ (record { deliveries = h.deliveries; jobs = h.jobs })

  access-IfSome :
      (p : Payload) (x : Option InstallationData) (db : Db)
      → IfSome db (access_parts user_of draws now p x db)
  access-IfSome p none db = record { deliveries = refl; jobs = refl }
  access-IfSome p (some x) db = change-IfSome p db _ (upsert-SameRows x db)

  applied-Frame :
      (d : Delivery) (db : Db) (after : Option Db)
      → IfSome db after
      → OnDone (Frame draws.job_id d db) (applied_tables d after)
  applied-Frame d db none h = tt
  applied-Frame d db (some after) h = quiet user_of draws now d db after h

  delete-SameRows :
      (installation_id github_id : ℕ) (db : Db)
      → SameRows db (delete_repository user_of draws now installation_id github_id db)
  delete-SameRows installation_id github_id db =
      if_found_rule (SameRows db) (select (has_github_id installation_id) db.installations) _ _
        (λ _. record { deliveries = refl; jobs = refl })
        (λ i _. record { deliveries = refl; jobs = refl })

  metadata-Frame :
      (p : Payload) (d : Delivery) (db : Db)
      → OnDone (Frame draws.job_id d db) (commit_metadata user_of draws now p d db)
  unfolding apply_repository_metadata
  metadata-Frame p d db =
      if_rule (OnDone (Frame draws.job_id d db))
        (takes_name user_of draws now p.repository p.installation db) _ _ (λ _. tt)
        (λ _. metadata_parts-Frame user_of draws now d db p.repository p.installation)

  repository-Frame :
      (p : Payload) (x : Option RepositoryData) (i : Option InstallationData) (d : Delivery)
      (db : Db)
      → OnDone (Frame draws.job_id d db) (apply_repository user_of draws now p x i d db)
  repository-Frame p (some x) (some i) d db =
      if_rule (OnDone (Frame draws.job_id d db)) (action_in ("deleted" ∷ []) p.action) _ _
        (λ _. quiet user_of draws now d db _ (delete-SameRows i.id x.id db))
        (λ _. metadata-Frame p d db)
  repository-Frame p none i d db = metadata-Frame p d db
  repository-Frame p (some x) none d db = metadata-Frame p d db

  pub apply_event-Frame :
      (event : String) (p : Payload) (d : Delivery) (db : Db)
      → OnDone (Frame draws.job_id d db) (apply_event user_of draws now event p d db)
  unfolding apply_event apply_installation apply_repository_access apply_push
  apply_event-Frame event p d db =
      let F = OnDone (Frame draws.job_id d db) in
      if_rule F (str_eq event "installation" && is_some p.installation) _ _
        (λ _. quiet user_of draws now d db _ (installation-SameRows p p.installation db))
        (λ _.
          if_rule F (str_eq event "installation_repositories" && is_some p.installation) _ _
            (λ _. applied-Frame d db _ (access-IfSome p p.installation db))
            (λ _.
              if_rule F (str_eq event "push") _ _
                (λ _.
                  push_parts-Frame user_of draws now d db p.installation p.repository p.ref p.before
                    p.after p.forced p.deleted)
                (λ _.
                  if_rule F (str_eq event "repository") _ _
                    (λ _. repository-Frame p p.repository p.installation d db)
                    (λ _.
                      quiet user_of draws now d db db
                        (record { deliveries = refl; jobs = refl })))))
