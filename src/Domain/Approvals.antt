-- ===== src/Domain/Approvals.antt =====
-- core/domain/approvals: requests for a human decision.
use aura_automated_user_rag.Base.{ℕ, String, Option, Eq, of_discrete}
use aura_automated_user_rag.Domain.Events.{Metadata}

pub data ApprovalStatus : Type 0 where
  pending approved rejected expired : ApprovalStatus

pub data ApprovalType : Type 0 where
  execution merge deploy : ApprovalType

abbrev pub ApprovalStatus-discrete : Discrete ApprovalStatus
ApprovalStatus-discrete = hlevel

abbrev pub ApprovalType-discrete : Discrete ApprovalType
ApprovalType-discrete = hlevel

instance abbrev pub approval_status_eq : Eq ApprovalStatus
approval_status_eq = of_discrete ApprovalStatus-discrete

instance abbrev pub approval_type_eq : Eq ApprovalType
approval_type_eq = of_discrete ApprovalType-discrete

-- `status.value`
abbrev pub status_value : ApprovalStatus → String
status_value pending = "PENDING"
status_value approved = "APPROVED"
status_value rejected = "REJECTED"
status_value expired = "EXPIRED"

-- `approval_type.value`
abbrev pub type_value : ApprovalType → String
type_value execution = "EXECUTION"
type_value merge = "MERGE"
type_value deploy = "DEPLOY"

pub record Approval : Type 0 where
  pub id : ℕ
  pub mission_id : ℕ
  pub approval_type : ApprovalType
  pub status : ApprovalStatus
  pub requested_at : ℕ
  pub resolved_at : Option ℕ
  pub resolved_by : Option String
  pub metadata : Metadata
