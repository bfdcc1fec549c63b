-- ===== src/Update/Fits.antt =====
-- Texts that can stand in the documents: what the rows of the local tables have to be for /qmon, and
-- what the remote rows have to be so that /updateDB leaves such rows.
pub mod Phone
pub mod Items
pub mod Listed
pub mod Remote
pub mod Tables
pub mod Kept
pub mod Lookups
pub mod Pools
use kueued.Prelude.{
  Text, lit, ◌==◌, ℕ, nat_eq, [], ◌∷◌, ◌||◌, Bool, true, false, not, ◌&&◌, List, value, All, some,
  ◌≡◌,
}
use kueued.Items.{SiebelItem, BomgarItem}
use kueued.Sql.{Env, Mysql}
use kueued.Sql.Rows.{SrRow, CustomerRow, ChatRow, CrsrRow}
use kueued.QString.Cdata.{is_open}
use kueued.Xml.Scan.{is_plain}
use kueued.Update.Programs.Rows.{Each}

-- No '>' in the text.
unfoldable pub has_no_close : Text → Bool
has_no_close [] = true
has_no_close (c ∷ t) = not (nat_eq c b'>') && has_no_close t

-- A row of QMON_SIEBEL, but for the descriptions, which are escaped later.
pub record SrFits (r : SrRow) : Type 0 where
  pub at_id : is_open 0 r.id ≡ true
  pub at_queue : is_open 0 r.queue ≡ true
  pub at_geo : is_open 0 r.geo ≡ true
  pub at_hours : is_open 0 r.hours ≡ true
  pub at_status : is_open 0 r.status ≡ true
  pub at_severity : is_open 0 r.severity ≡ true
  pub at_source : is_open 0 r.source ≡ true
  pub at_respond_via : is_open 0 r.respond_via ≡ true
  pub at_support_program : is_open 0 r.support_program ≡ true
  pub at_support_program_long : is_open 0 r.support_program_long ≡ true
  pub at_routing_product : is_open 0 r.routing_product ≡ true
  pub at_support_group_routing : is_open 0 r.support_group_routing ≡ true
  pub at_int_type : is_open 0 r.int_type ≡ true
  pub at_subtype : is_open 0 r.subtype ≡ true
  pub at_service_level : is_open 0 r.service_level ≡ true
  pub at_category : is_open 0 r.category ≡ true
  pub at_subowner : is_open 0 r.subowner ≡ true
  pub at_creator : is_plain r.creator ≡ true
  pub at_created : is_plain r.created ≡ true
  pub at_last_update : is_plain r.last_update ≡ true
  pub at_sla : is_plain r.sla ≡ true

-- A row of CUSTOMER.
pub record CustomerRowFits (r : CustomerRow) : Type 0 where
  pub at_customer : is_open 0 r.customer ≡ true
  pub at_oracle_id : is_open 0 r.oracle_id ≡ true
  pub at_contact_firstname : is_open 0 r.contact_firstname ≡ true
  pub at_contact_lastname : is_open 0 r.contact_lastname ≡ true
  pub at_contact_title : is_open 0 r.contact_title ≡ true
  pub at_contact_email : is_open 0 r.contact_email ≡ true
  pub at_contact_phone : is_open 0 r.contact_phone ≡ true
  pub at_onsite_phone : is_open 0 r.onsite_phone ≡ true
  pub at_contact_lang : is_open 0 r.contact_lang ≡ true

-- A row of CRSR.
pub record RelatedFits (r : CrsrRow) : Type 0 where
  pub at_sr : is_plain r.sr ≡ true
  pub at_cust : is_open 0 r.cust ≡ true
  pub at_bdesc : is_open 0 r.bdesc ≡ true

-- the columns of the descriptions in the result of getQmonSrs
abbrev pub is_description : ℕ → Bool
is_description i = nat_eq i 18 || nat_eq i 31

module _ {D : Type 0} {S : Type 0 → Type 0} (env : Env D S) where
  -- Every row of the tables that /qmon reads.
  pub record TablesFit (m : Mysql S) : Type 0 where
    pub srs : (k : Text) (r : SrRow) → env.tables.siebel.select k m.siebel ≡ some r → SrFits r
    pub customers :
        (k : Text) (r : CustomerRow)
        → env.tables.customer.select k m.customer ≡ some r
        → CustomerRowFits r
    pub related :
        (k : Text) (r : CrsrRow) → env.tables.crsr.select k m.crsr ≡ some r → RelatedFits r
    pub chats :
        (k : Text) (r : ChatRow) → env.tables.chat.select k m.chat ≡ some r → is_plain r.name ≡ true

  -- What the remote side hands out: no '>' in a column of an SR but the descriptions, names of chats,
  -- logins and numbers of related requests without markup, titles that fit in a CDATA section. And
  -- what Qt prints for a date has no markup.
  pub record RemoteFits : Type 0 where
    pub open_srs :
        All
          (λ row. (i : ℕ) → is_description i ≡ false → has_no_close (value i row) ≡ true)
          env.remote.open_srs
    pub chats : All (λ row. is_plain (value 2 row) ≡ true) env.remote.chats
    pub logins : (sr t : Text) → env.remote.creator_login sr ≡ some t → is_plain t ≡ true
    pub related : (cr sr : Text) → env.remote.related_sr cr ≡ some sr → is_plain sr ≡ true
    pub titles :
        (sr : Text) (row : List Text)
        → env.remote.sr_title sr ≡ some row
        → (is_open 0 (value 0 row) ≡ true) × (is_open 0 (value 3 row) ≡ true)
    pub dates : (d : D) → is_plain (env.times.to_string d (lit "yyyy-MM-dd hh:mm:ss")) ≡ true
