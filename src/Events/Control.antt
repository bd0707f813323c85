-- ===== src/Events/Control.antt =====
-- The parts of the DERControl resource (models/sep/sep.py) that event processing reads.
use py.Prelude.{ℕ, String, Option, List, Bytes}
use py.Prelude.Int.{ℤ}

-- An extension element, by what `doe_element_name` and `doe_value_multiplier` read from it.
pub record Element : Type 0 where
  pub name : Option String
  pub value_multiplier : Option (ℤ × ℤ)

-- `DercontrolBase`: the names of the fields that are not None, and the extension elements.
pub record DercontrolBase : Type 0 where
  pub set_fields : List String
  pub other_element : List Element

-- `EventStatus`
pub record EventStatus : Type 0 where
  pub current_status : ℕ
  pub date_time : Option ℤ

-- `Dercontrol1`
pub record Dercontrol : Type 0 where
  pub m_rid : Bytes
  pub creation_time : Option ℤ
  pub event_status : Option EventStatus
  pub interval_start : ℤ
  pub interval_duration : ℤ
  pub randomize_start : Option ℤ
  pub randomize_duration : Option ℤ
  pub dercontrol_base : DercontrolBase
