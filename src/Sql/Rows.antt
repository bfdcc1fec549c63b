-- ===== src/Sql/Rows.antt =====
-- The columns of the local MySQL tables, as the statements of database.cpp name them
-- (scripts/create_tables declares three of them, each with ID as its primary key).
use kueued.Prelude.{Text, Bool}

-- QMON_SIEBEL
pub record SrRow : Type 0 where
  pub id : Text
  pub queue : Text
  pub geo : Text
  pub hours : Text
  pub status : Text
  pub severity : Text
  pub source : Text
  pub respond_via : Text
  pub created : Text
  pub last_update : Text
  pub inqueue : Text
  pub sla : Text
  pub support_program : Text
  pub support_program_long : Text
  pub routing_product : Text
  pub support_group_routing : Text
  pub int_type : Text
  pub subtype : Text
  pub service_level : Text
  pub brief_desc : Text
  pub critsit : Bool
  pub high_value : Bool
  pub detailed_desc : Text
  pub category : Text
  pub creator : Text
  pub row_id : Text
  pub subowner : Text

-- CUSTOMER
pub record CustomerRow : Type 0 where
  pub id : Text
  pub customer : Text
  pub contact_phone : Text
  pub contact_firstname : Text
  pub contact_lastname : Text
  pub contact_email : Text
  pub contact_title : Text
  pub contact_lang : Text
  pub onsite_phone : Text
  pub oracle_id : Text

-- QMON_CHAT
pub record ChatRow : Type 0 where
  pub id : Text
  pub sr : Text
  pub name : Text
  pub date : Text

-- CRSR
pub record CrsrRow : Type 0 where
  pub cr : Text
  pub sr : Text
  pub cust : Text
  pub bdesc : Text

-- BUG
pub record BugRow : Type 0 where
  pub id : Text
  pub title : Text

-- PSEUDOQ
pub record PseudoRow : Type 0 where
  pub queuename : Text
