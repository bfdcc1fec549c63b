-- ===== src/Update/Fits/Items.antt =====
-- An item of getQmonSrs whose texts can stand in the documents leaves rows that can.
use kueued.Prelude.{
  Text, lit, ◌==◌, true, Option, none, some, ◌≡◌, refl, arith, Bool-cases, inl, inr,
}
use kueued.Items.{SiebelItem}
use kueued.Sql.{Env}
use kueued.Sql.Rows.{CustomerRow}
use kueued.QString.Cdata.{is_open}
use kueued.Xml.Scan.{is_plain}
use kueued.Database.Time.{convert_time, show_time, if_invalid}
use kueued.Database.Siebel.{
  get_creator, login_or_error, bound_creator, inserted_row, refreshed_row, requeued_row,
  customer_row, refreshed_customer,
}
use kueued.Update.Programs.Kept.{IsKept}
use kueued.Update.Fits.{SrFits, CustomerRowFits, RemoteFits}

-- The columns that the rows of the item keep, and the customer's.
pub record ItemFits (x : SiebelItem) : Type 0 where
  pub at_id : is_open 0 x.id ≡ true
  pub at_queue : is_open 0 x.queue ≡ true
  pub at_geo : is_open 0 x.geo ≡ true
  pub at_hours : is_open 0 x.hours ≡ true
  pub at_status : is_open 0 x.status ≡ true
  pub at_severity : is_open 0 x.severity ≡ true
  pub at_source : is_open 0 x.source ≡ true
  pub at_respond_via : is_open 0 x.respond_via ≡ true
  pub at_support_program : is_open 0 x.support_program ≡ true
  pub at_support_program_long : is_open 0 x.support_program_long ≡ true
  pub at_routing_product : is_open 0 x.routing_product ≡ true
  pub at_support_group_routing : is_open 0 x.support_group_routing ≡ true
  pub at_int_type : is_open 0 x.int_type ≡ true
  pub at_subtype : is_open 0 x.subtype ≡ true
  pub at_service_level : is_open 0 x.service_level ≡ true
  pub at_category : is_open 0 x.category ≡ true
  pub at_subowner : is_open 0 x.subowner ≡ true
  pub at_creator : is_plain x.creator ≡ true
  pub at_customer : is_open 0 x.customer ≡ true
  pub at_cst_num : is_open 0 x.cst_num ≡ true
  pub at_contact_firstname : is_open 0 x.contact_firstname ≡ true
  pub at_contact_lastname : is_open 0 x.contact_lastname ≡ true
  pub at_contact_title : is_open 0 x.contact_title ≡ true
  pub at_contact_email : is_open 0 x.contact_email ≡ true
  pub at_contact_phone : is_open 0 x.contact_phone ≡ true
  pub at_onsite_phone : is_open 0 x.onsite_phone ≡ true
  pub at_contact_lang : is_open 0 x.contact_lang ≡ true

module _ {D : Type 0} {S : Type 0 → Type 0} (env : Env D S) (remote : RemoteFits env) where
  is_plain-convert_time : (t : Text) → is_plain (convert_time env.times t) ≡ true
  unfolding convert_time
  is_plain-convert_time t = shown (
      if_invalid env.times (env.times.from_string t (lit "M/d/yyyy hh:mm:ss AP"))
        (env.times.from_string t (lit "yyyy-MM-ddThh:mm:ss")))
    where
      shown : (o : Option D) → is_plain (show_time env.times o) ≡ true
      shown none = unfold is_plain in refl
      shown (some d) = remote.dates d

  pub is_plain-get_creator : (sr : Text) → is_plain (get_creator env sr) ≡ true
  unfolding get_creator
  is_plain-get_creator sr = go (env.remote.creator_login sr) refl
    where
      go : (o : Option Text) → env.remote.creator_login sr ≡ o → is_plain (login_or_error o) ≡ true
      go none e = unfold is_plain lit in refl
      go (some t) e = remote.logins sr t e

  is_plain-bound_creator : (x : SiebelItem) → is_plain (bound_creator env x) ≡ true
  unfolding bound_creator
  is_plain-bound_creator x = elim (Bool-cases (x.subtype == lit "Collaboration")) [
    | inl e ↦ rw e (is_plain-get_creator x.id)
    | inr e ↦ rw e (unfold is_plain in refl)
  ]

  module _ (x : SiebelItem) (h : ItemFits x) where
    pub SrFits-IsKept : IsKept env x SrFits
    unfolding inserted_row refreshed_row requeued_row
    SrFits-IsKept = record {
      at_insert = λ now. ground (
        arith,
        is_plain-convert_time x.created,
        is_plain-convert_time x.last_update,
        is_plain-convert_time x.sla,
        h.at_creator,
      );
      at_refresh = λ r fits. ground (
        arith,
        is_plain-convert_time x.created,
        is_plain-convert_time x.last_update,
        is_plain-convert_time x.sla,
        is_plain-bound_creator x,
      );
      at_requeue = λ now r fits. ground arith;
    }

    pub customer_row-CustomerRowFits : CustomerRowFits (customer_row env x)
    unfolding customer_row
    customer_row-CustomerRowFits = ground arith

    pub refreshed_customer-CustomerRowFits :
        (r : CustomerRow) → CustomerRowFits (refreshed_customer env x r)
    unfolding refreshed_customer
    refreshed_customer-CustomerRowFits r = ground arith
