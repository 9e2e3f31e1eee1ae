-- ===== src/State/Models.antt =====
-- state/models.py. An SLO target, a float that the store only carries, is in millionths.
use engineering_intelligence.Base.Dict.{Dict}
use engineering_intelligence.Base.{
  ℕ, String, Bool, true, Option, List, ◌==◌, if◌then◌else◌, ◌≡◌, refl, sym, ap, ◌∙◌, arith,
}

pub data WorkflowStatus : Type 0 where
  received diagnosing planned waiting_approval executing verifying succeeded rolled_back escalated
        failed cancelled :
      WorkflowStatus

-- The text of a status, `status.value`.
abbrev pub status_value : WorkflowStatus → String
status_value received = "received"
status_value diagnosing = "diagnosing"
status_value planned = "planned"
status_value waiting_approval = "waiting_approval"
status_value executing = "executing"
status_value verifying = "verifying"
status_value succeeded = "succeeded"
status_value rolled_back = "rolled_back"
status_value escalated = "escalated"
status_value failed = "failed"
status_value cancelled = "cancelled"

-- A number for each status, by which statuses are compared.
abbrev pub tag : WorkflowStatus → ℕ
tag received = 0
tag diagnosing = 1
tag planned = 2
tag waiting_approval = 3
tag executing = 4
tag verifying = 5
tag succeeded = 6
tag rolled_back = 7
tag escalated = 8
tag failed = 9
tag cancelled = 10

abbrev pub same_status : WorkflowStatus → WorkflowStatus → Bool
same_status s t = tag s == tag t

pub record ServiceRecord : Type 0 where
  pub service_id : String
  pub owner : String
  pub tier : ℕ
  pub repositories : List String
  pub dependencies : List String
  pub slo_target : Option ℕ
  pub autonomy_level : ℕ
  pub metadata : Dict String
  pub version : ℕ

pub record WorkflowRecord : Type 0 where
  pub workflow_id : String
  pub service_id : String
  pub environment : String
  pub kind : String
  pub status : WorkflowStatus
  pub correlation_id : String
  pub plan_hash : Option String
  pub version : ℕ
  pub updated_at : String
  pub tenant_id : String

from_tag : ℕ → WorkflowStatus
from_tag n =
    if n == 0
    then received
    else if n == 1
    then diagnosing
    else if n == 2
    then planned
    else if n == 3
    then waiting_approval
    else if n == 4
    then executing
    else if n == 5
    then verifying
    else if n == 6
    then succeeded
    else if n == 7
    then rolled_back
    else if n == 8
    then escalated
    else if n == 9
    then failed
    else cancelled

from_tag-tag : (s : WorkflowStatus) → from_tag (tag s) ≡ s
unfolding from_tag
from_tag-tag received = refl
from_tag-tag diagnosing = refl
from_tag-tag planned = refl
from_tag-tag waiting_approval = refl
from_tag-tag executing = refl
from_tag-tag verifying = refl
from_tag-tag succeeded = refl
from_tag-tag rolled_back = refl
from_tag-tag escalated = refl
from_tag-tag failed = refl
from_tag-tag cancelled = refl

pub same_status-eq : (s t : WorkflowStatus) → same_status s t ≡ true → s ≡ t
same_status-eq s t h =
    let tags : tag s ≡ tag t = ground arith in
    sym (from_tag-tag s) ∙ ap from_tag tags ∙ from_tag-tag t
