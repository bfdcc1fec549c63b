-- ===== src/Tests/Documents.antt =====
-- The theorems on the documents at one request.
use kueued.Prelude.{lit, [], ◌∷◌, true, pos, refl}
use kueued.Items.{LtssCustomer, QueueItem, blank_queue_item}
use kueued.QString.Cdata.{is_open}
use kueued.Xml.Scan.{is_plain, IsBalanced}
use kueued.Xml.Ltss.{CustomerFits}
use kueued.Xml.Sr.{queue}
use kueued.Xml.SrBalanced
use kueued.Xml.SrBalanced.{queue-IsBalanced}

abbrev queue_item : QueueItem
queue_item = record (blank_queue_item true (pos 3)) { id = lit "7"; bug_desc = lit "a & b" }

queue_item-Fits : SrBalanced.Fits queue_item
unfolding blank_queue_item is_plain is_open lit
queue_item-Fits = record {
  at_id = refl;
  at_customer = refl;
  at_cst_num = refl;
  at_contact_firstname = refl;
  at_contact_lastname = refl;
  at_contact_title = refl;
  at_contact_email = refl;
  at_contact_phone = refl;
  at_onsite_phone = refl;
  at_contact_lang = refl;
  at_alt_contact = refl;
  at_owner = refl;
  at_sub_owner = refl;
  at_severity = refl;
  at_status = refl;
  at_brief_desc = refl;
  at_detailed_desc = refl;
  at_bug_id = refl;
  at_bug_desc = refl;
  at_geo = refl;
  at_hours = refl;
  at_support_program = refl;
  at_crsrcust = refl;
  at_crsrdesc = refl;
  at_creator = refl;
  at_crsr = refl;
  at_created = refl;
  at_last_update = refl;
}

queue-IsBalanced_example : IsBalanced (queue (queue_item ∷ queue_item ∷ []))
queue-IsBalanced_example =
    queue-IsBalanced (queue_item ∷ queue_item ∷ []) (queue_item-Fits, (queue_item-Fits, tt))

abbrev customer : LtssCustomer
customer = record {
  account_name = lit "a ]] b";
  oracle_customer_nr = [];
  geo = [];
  support_program = [];
  agreement_nr = [];
  agreement_status = [];
  entitlement_id = [];
  entitlement_name = [];
  entitlement_start_date = [];
  entitlement_end_date = [];
}

customer-CustomerFits : CustomerFits customer
unfolding is_open lit
customer-CustomerFits = record {
  at_account_name = refl;
  at_oracle_customer_nr = refl;
  at_geo = refl;
  at_support_program = refl;
  at_agreement_nr = refl;
  at_agreement_status = refl;
  at_entitlement_id = refl;
  at_entitlement_name = refl;
  at_entitlement_start_date = refl;
  at_entitlement_end_date = refl;
}
