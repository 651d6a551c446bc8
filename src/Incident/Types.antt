-- ===== src/Incident/Types.antt =====
-- The records of services/incident/internal/domain/incident.go and pkg/domain/alert.go, and what the
-- service reaches: the tables of services/incident/migrations and the broker. An instant is a number
-- of nanoseconds, and a map is a list of its pairs, each key once.
use sreon_call.Prelude.{ℕ, String, str_eq, List, [], ◌∷◌, Bool, Option, if◌then◌else◌}
use sreon_call.Escalation.Types.{IncidentChanged}

abbrev pub Labels : Type 0
Labels = List (String × String)

-- The value of a key, or the empty text.
abbrev pub label_of : String → Labels → String
label_of key [] = ""
label_of key ((k, v) ∷ rest) = let later = label_of key rest in if str_eq k key then v else later

-- `labels` is empty in a row of `incident.incidents`.
pub record Incident : Type 0 where
  pub id : String
  pub tenant_id : String
  pub tenant_slug : String
  pub title : String
  pub severity : String
  pub status : String
  pub labels : Labels
  pub acknowledged_at : Option ℕ
  pub acknowledged_by : Option String
  pub resolved_at : Option ℕ
  pub created_at : ℕ
  pub updated_at : ℕ

pub record IncidentAlert : Type 0 where
  pub id : String
  pub incident_id : String
  pub tenant_id : String
  pub fingerprint : String
  pub source : String
  pub group_key : String
  pub status : String
  pub attached_at : ℕ

pub record Comment : Type 0 where
  pub id : String
  pub incident_id : String
  pub tenant_id : String
  pub body : String
  pub author_id : String
  pub created_at : ℕ

pub record HistoryEntry : Type 0 where
  pub id : String
  pub incident_id : String
  pub tenant_id : String
  pub kind : String
  pub author : String
  pub old_value : String
  pub new_value : String
  pub occurred_at : ℕ

pub record GroupingRule : Type 0 where
  pub tenant_id : String
  pub source : String
  pub grouping_labels : List String
  pub is_default : Bool

pub record Alert : Type 0 where
  pub fingerprint : String
  pub source : String
  pub severity : String
  pub title : String
  pub description : String
  pub labels : Labels
  pub status : String
  pub fired_at : ℕ
  pub received_at : ℕ
  pub tenant_id : String

-- A row of `incident.incident_labels`.
pub record LabelRow : Type 0 where
  pub incident_id : String
  pub key : String
  pub value : String

pub data IncidentEvent : Type 0 where
  incident_created incident_updated : IncidentChanged → IncidentEvent

-- `uuid` is the database's generator of ids, and `next_id` counts the ids that it has given.
pub record Tables : Type 0 where
  pub incidents : List Incident
  pub alerts : List IncidentAlert
  pub labels : List LabelRow
  pub comments : List Comment
  pub history : List HistoryEntry
  pub rules : List GroupingRule
  pub outbox : List IncidentEvent
  pub clock : ℕ
  pub next_id : ℕ
  pub uuid : ℕ → String
