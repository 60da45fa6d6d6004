-- ===== src/Jobs/Access.antt =====
-- What a claimed job may read (backend/app/services/indexing_jobs.py): authorized_context,
-- revoke_public_access, is_current, due_jobs and record_freshness_plan.
use code_naut.Prelude.{
  ℕ, ◌+◌, ◌*◌, String, Bool, true, false, ◌&&◌, ◌||◌, Option, none, some, List, [], ◌∷◌, map, ◌==◌,
  leb, any, keep_if, take, is_none, opt_str_eq, if◌then◌else◌,
}
use code_naut.Prelude.Table.{if_found, select, update_where, update_first}
use code_naut.Jobs.Model.{
  Job, AccessMode, InstallationStatus, IndexingMode, IndexingStatus, Repository, Installation,
  Member, UserRepository, Db, Settings, ClaimedJob, JobContext,
}
use code_naut.Jobs.Rows.{leased, repository_at, is_running, is_waiting, is_due, is_stale}

-- `requested_by_user_id IS NULL OR user_id = requested_by_user_id`
abbrev pub requested_by : Option ℕ → ℕ → Bool
requested_by none user = true
requested_by (some asked) user = user == asked

abbrev pub is_installed : InstallationStatus → Bool
is_installed InstallationStatus.active = true
is_installed _ = false

-- `verified_at >= now - membership_ttl`, in milliseconds.
abbrev pub is_fresh : ℕ → ℕ → Member → Bool
is_fresh ttl now m = leb now (m.verified_at + ttl * 1000)

-- The installation of the repository is active, and a fresh member asked for the job.
unfoldable pub installed_access : ℕ → ℕ → Job → Option Installation → List Member → Bool
installed_access ttl now j none members = false
installed_access ttl now j (some i) members =
    is_installed i.status
    && (is_none i.deleted_at
        && any
            (λ m.
              m.installation_id == i.id
              && (is_fresh ttl now m && requested_by j.requested_by_user_id m.user_id))
            members)

unfoldable pub public_access : Job → Repository → List UserRepository → Bool
public_access j r rows =
    any (λ u. u.repository_id == r.id && requested_by j.requested_by_user_id u.user_id) rows

abbrev mode_access : AccessMode → Bool → Bool → Bool
mode_access AccessMode.public_access open_access installed = open_access
mode_access AccessMode.github_installation open_access installed = installed

-- The outer join with the repository's installation.
unfoldable pub installation_of : Repository → List Installation → Option Installation
installation_of r rows = if_found r.installation_id none (λ i. select (λ x. x.id == i) rows)

unfoldable pub is_authorized : Settings → ℕ → Db → Job → Repository → Bool
unfolding installed_access public_access installation_of
is_authorized s now db j r =
    is_none r.access_revoked_at
    && (is_none r.deleted_at
        && mode_access r.access_mode (public_access j r db.user_repositories) (
            installed_access s.membership_ttl now j (installation_of r db.installations)
              db.members))

abbrev or_else {ℓ} : {A : Type ℓ} → Option A → A → A
or_else none d = d
or_else (some a) d = a

abbrev pub target_of : Job → Repository → ℕ
target_of j r = or_else j.target_index_version (r.index_version + 1)

unfoldable pub context_of : ClaimedJob → Job → Repository → Option Installation → JobContext
context_of c j r i = record {
  job_id = c.id;
  repository_id = r.id;
  installation_id = if_found i none (λ x. some x.id);
  github_installation_id = if_found i none (λ x. some x.github_installation_id);
  owner = r.github_owner;
  name = r.github_name;
  default_branch = r.default_branch;
  index_version = target_of j r;
  github_repository_id = r.github_repository_id;
  refresh_generation = j.refresh_generation;
  active_index_version = r.index_version;
  active_commit_sha = r.last_indexed_commit_sha;
  indexed_branch = r.indexed_branch;
  requested_mode = or_else j.requested_mode IndexingMode.full;
  access_mode = r.access_mode;
}

abbrev pub claimed_running : ClaimedJob → Job → Bool
claimed_running c j = j.id == c.id && is_running j.status

abbrev pub set_target : Repository → Job → Job
set_target r j = record j { target_index_version = some (target_of j r) }

-- The context of an authorized job, whose target version is fixed on the first call.
unfoldable pub authorized_context : Settings → ClaimedJob → ℕ → Db → Option JobContext × Db
unfolding context_of
authorized_context s c now db =
    if_found (select (claimed_running c) db.jobs) (none, db)
      (λ j.
        if_found (select (repository_at j.repository_id) db.repositories) (none, db)
          (λ r.
            if is_authorized s now db j r
            then (
              some (context_of c j r (installation_of r db.installations)),
              record db { jobs = update_first (claimed_running c) (set_target r) db.jobs },
            )
            else (none, db)))

abbrev is_public : AccessMode → Bool
is_public AccessMode.public_access = true
is_public AccessMode.github_installation = false

unfoldable pub revoke_public_access : ℕ → ℕ → Db → Db
revoke_public_access repository_id now db = record db {
  repositories =
      update_where (λ r. r.id == repository_id && is_public r.access_mode)
        (λ r. record r {
          access_revoked_at = some now;
          indexing_status = IndexingStatus.access_revoked;
          indexing_stage = some "public_access_unavailable";
        })
        db.repositories;
}

-- `target_branch IS NULL OR target_branch = default_branch`
abbrev pub on_branch : Job → Repository → Bool
on_branch j r = is_none j.target_branch || opt_str_eq j.target_branch r.default_branch

unfoldable pub is_current : ClaimedJob → String → Db → Bool
is_current c worker db = if_found (select (leased c worker) db.jobs) false (λ j.
    if_found (select (repository_at j.repository_id) db.repositories) false
      (λ r. j.refresh_generation == r.refresh_generation && on_branch j r))

unfoldable pub record_freshness_plan :
    ClaimedJob → String → IndexingMode → Option String → List (String × ℕ) → ℕ → Db → Db
record_freshness_plan c worker actual_mode fallback_reason changed_counts changed_file_count db =
    record db {
      jobs =
          update_where (leased c worker)
            (λ j. record j {
              freshness = record {
                actual_mode = some actual_mode;
                full_rebuild_reason = fallback_reason;
                changed_files = changed_counts;
                changed_file_count = changed_file_count;
                graph_rebuilt = true;
              };
            })
            db.jobs;
    }

-- A waiting job that is due and was not put on the queue within the abandonment time.
abbrev pub is_enqueueable : ℕ → ℕ → Job → Bool
is_enqueueable after now j =
    is_waiting j.status && (is_due now j.next_attempt_at && is_stale after now j.last_enqueued_at)

-- `ORDER BY created_at`; rows of one time keep the table's order.
unfoldable pub insert_by_created : Job → List Job → List Job
insert_by_created j [] = j ∷ []
insert_by_created j (k ∷ ks) =
    let rest = insert_by_created j ks in
    if leb j.created_at k.created_at then j ∷ k ∷ ks else k ∷ rest

unfoldable pub order_by_created : List Job → List Job
unfolding insert_by_created
order_by_created [] = []
order_by_created (j ∷ js) = insert_by_created j (order_by_created js)

unfoldable pub due_rows : ℕ → ℕ → List Job → List Job
unfolding order_by_created
due_rows after now jobs = take 100 (order_by_created (keep_if (is_enqueueable after now) jobs))

unfoldable pub due_jobs : Settings → ℕ → Db → List ℕ
unfolding due_rows
due_jobs s now db = map (λ j. j.id) (due_rows s.abandoned_after now db.jobs)
