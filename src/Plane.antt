-- ===== src/Plane.antt =====
-- src/harness/audit/plane.py: the client of Plane. The HTTP request is outside.
pub mod Addresses
use overwatch_harness.Prelude.{ℕ, Option, none, some, List, [], ◌∷◌, ◌++◌, Bool, true, false, ◌==◌}
use overwatch_harness.Text.{Text, codes, drop_while}
use overwatch_harness.Spawner.Values.{Json, null, str, obj, Fields, field, end, get}
use mathlib.Core.List.{reverse}

pub record PlaneClient : Type 0 where
  pub base : Text
  pub workspace : Text
  pub project : Text
  pub key : Json
  pub verify : Bool

-- `s.rstrip("/")`
unfoldable pub rstrip_slashes : Text → Text
unfolding drop_while
rstrip_slashes s = reverse (drop_while (λ c. c == b'/') (reverse s))

-- `PlaneClient.__init__`
unfoldable pub plane_client : Text → Text → Text → Json → Bool → PlaneClient
unfolding rstrip_slashes
plane_client base_url workspace project_id api_key verify_tls = record {
  base = rstrip_slashes base_url;
  workspace = workspace;
  project = project_id;
  key = api_key;
  verify = verify_tls;
}

-- What `_client` sets for its requests.
pub record Options : Type 0 where
  pub verify : Bool
  pub timeout : ℕ
  pub headers : Fields

unfoldable pub client_options : PlaneClient → Options
client_options c = record {
  verify = c.verify;
  timeout = 10;
  headers =
      field (codes "x-api-key") c.key
        (field (codes "Content-Type") (str (codes "application/json")) end);
}

-- What a POST with `raise_for_status` comes to: an answer, with its JSON if it is JSON, or an
-- exception.
pub data Posted : Type 0 where
  answered : Option Json → Posted
  refused : Posted

-- `f"{self._base}/api/v1/workspaces/{self._ws}/projects/{self._project}/issues/"`
unfoldable pub issues_url : PlaneClient → Text
issues_url c =
    c.base
    ++ (codes "/api/v1/workspaces/"
        ++ (c.workspace ++ (codes "/projects/" ++ (c.project ++ codes "/issues/"))))

unfoldable pub comments_url : PlaneClient → Text → Text
unfolding issues_url
comments_url c issue_id = issues_url c ++ (issue_id ++ codes "/comments/")

-- `data.get("id"), data.get("sequence_id")`, where any exception is caught
abbrev pub issue_of : Posted → Json × Json
issue_of (answered (some (obj fields))) =
    (get (codes "id") fields, get (codes "sequence_id") fields)
issue_of _ = (null, null)

abbrev pub is_answered : Posted → Bool
is_answered (answered body) = true
is_answered refused = false

module _ (post : Options → Text → Json → Posted) where
  unfoldable pub create_engagement_issue : PlaneClient → Text → Text → Text → Json × Json
  unfolding client_options issues_url
  create_engagement_issue c title description_html priority = issue_of (
      post (client_options c) (issues_url c) (
        obj (
          field (codes "name") (str title) (
            field (codes "description_html") (str description_html)
              (field (codes "priority") (str priority) end)))))

  unfoldable pub comment : PlaneClient → Text → Text → Bool
  unfolding client_options comments_url
  comment c issue_id html = is_answered (
      post (client_options c) (comments_url c issue_id)
        (obj (field (codes "comment_html") (str html) end)))
