-- ===== src/Update/Effects.antt =====
-- What an /updateDB promises of the SR list: the keys, the columns, and that an update with the same
-- list changes nothing more.
use mathlib.Core.Path.{subst}
use kueued.Prelude.{
  Text, eq_iff, eq_refl, ℕ, List, contains, true, false, Option, none, some, is_some, if◌then◌else◌,
  ◌≡◌, refl, sym, ◌∙◌, ap, arith, Bool-cases, inl, inr,
}
use kueued.Items.{SiebelItem}
use kueued.Sql.{Env, Mysql}
use kueued.Sql.Rows.{SrRow, CustomerRow}
use kueued.Database.Time.{convert_time}
use kueued.Database.Siebel.{
  get_qmon_siebel_list, inserted_row, refreshed_row, requeued_row, bound_creator, customer_row,
  refreshed_customer,
}
use kueued.Update.Loop.{trace, trace_keeps, trace_gives, trace_again, Distinct, AllAt, AllAt-all}
use kueued.Update.Steps.{update_unity}
use kueued.Update.Rows.{Entry, entry, visit, settled, settled_customer}
use kueued.Update.Mirror.{ids, contains-siebel_list, entry-update_unity}

-- The row of the service request, if there is one, has the property.
abbrev pub HasSr : (SrRow → Type 0) → Entry → Type 0
HasSr P e = (r : SrRow) × (e.0 ≡ some r) × P r

-- QMON_SIEBEL and CUSTOMER agree on whether a number has a row.
abbrev pub IsPaired : Entry → Type 0
IsPaired e = is_some e.0 ≡ is_some e.1

-- The row of QMON_SIEBEL shows the item in every column but ID and INQUEUE.
pub record Shows {D : Type 0} {S : Type 0 → Type 0} (env : Env D S) (item : SiebelItem) (r : SrRow)
    : Type 0 where
  pub at_queue : r.queue ≡ item.queue
  pub at_geo : r.geo ≡ item.geo
  pub at_hours : r.hours ≡ item.hours
  pub at_status : r.status ≡ item.status
  pub at_severity : r.severity ≡ item.severity
  pub at_source : r.source ≡ item.source
  pub at_respond_via : r.respond_via ≡ item.respond_via
  pub at_created : r.created ≡ convert_time env.times item.created
  pub at_last_update : r.last_update ≡ convert_time env.times item.last_update
  pub at_sla : r.sla ≡ convert_time env.times item.sla
  pub at_support_program : r.support_program ≡ item.support_program
  pub at_support_program_long : r.support_program_long ≡ item.support_program_long
  pub at_routing_product : r.routing_product ≡ item.routing_product
  pub at_support_group_routing : r.support_group_routing ≡ item.support_group_routing
  pub at_int_type : r.int_type ≡ item.int_type
  pub at_subtype : r.subtype ≡ item.subtype
  pub at_service_level : r.service_level ≡ item.service_level
  pub at_brief_desc : r.brief_desc ≡ item.brief_desc
  pub at_critsit : r.critsit ≡ item.critsit
  pub at_high_value : r.high_value ≡ item.high_value
  pub at_detailed_desc : r.detailed_desc ≡ item.detailed_desc
  pub at_category : r.category ≡ item.category
  pub at_row_id : r.row_id ≡ item.row_id
  pub at_subowner : r.subowner ≡ item.subowner
  pub at_creator : r.creator ≡ bound_creator env item

module _ {D : Type 0} {S : Type 0 → Type 0} (env : Env D S) where
  -- With an item of that number in the list, both rows follow the visits.
  pub entry_listed :
      (clock : ℕ → Text) (list : List SiebelItem) (db : Mysql S) (j : Text)
      → contains j (ids list) ≡ true
      → entry env (update_unity env clock list db) j
        ≡ trace (visit env clock) (λ item. item.id) j 0 list (entry env db j)
  entry_listed clock list db j h = rw (entry-update_unity, h)

  is_some-trace :
      (clock : ℕ → Text) (list : List SiebelItem) (j : Text) (e : Entry)
      → contains j (ids list) ≡ true
      → is_some (trace (visit env clock) (λ item. item.id) j 0 list e).0 ≡ true
  unfolding visit
  is_some-trace clock list j e h =
      trace_gives (visit env clock) (λ item. item.id) j (λ v. Unit {0}) (λ v. is_some v.0 ≡ true)
        (λ x. Unit {0}) (λ i x v _ _. refl) (λ i x v _ _. refl) 0 list e
        (AllAt-all (λ item. item.id) j (λ x. Unit {0}) (λ x. tt) list) h tt

  -- After an update QMON_SIEBEL has exactly the SR numbers of the list.
  pub siebel_list-update_unity :
      (clock : ℕ → Text) (list : List SiebelItem) (db : Mysql S) (j : Text)
      → contains j (get_qmon_siebel_list env (update_unity env clock list db))
        ≡ contains j (ids list)
  siebel_list-update_unity clock list db j =
      contains-siebel_list env j (update_unity env clock list db)
      ∙ ap (λ (e : Entry). is_some e.0) (entry-update_unity env clock list db j)
      ∙ shown
    where
      shown :
          is_some
            (if contains j (ids list)
              then trace (visit env clock) (λ item. item.id) j 0 list (entry env db j)
              else (none, if is_some (entry env db j).0 then none else (entry env db j).1)).0
          ≡ contains j (ids list)
      shown = elim (Bool-cases (contains j (ids list))) [
        | inl e ↦ rw e (is_some-trace clock list j (entry env db j) e)
        | inr e ↦ rw e
      ]

  visit-IsPaired :
      (clock : ℕ → Text) (i : ℕ) (item : SiebelItem) (e : Entry)
      → IsPaired e
      → IsPaired (visit env clock i item e)
  unfolding visit
  visit-IsPaired clock i item (none, c) h = refl
  visit-IsPaired clock i item (some r, none) h = absurd (cc)
  visit-IsPaired clock i item (some r, some c) h = refl

  -- If each number has both its rows or neither, so it is after the update.
  pub update_unity-IsPaired :
      (clock : ℕ → Text) (list : List SiebelItem) (db : Mysql S) (j : Text)
      → IsPaired (entry env db j)
      → IsPaired (entry env (update_unity env clock list db) j)
  update_unity-IsPaired clock list db j h =
      subst IsPaired (sym (entry-update_unity env clock list db j))
        (elim (Bool-cases (contains j (ids list))) [
          | inl e ↦ rw e (
              trace_keeps (visit env clock) (λ item. item.id) j IsPaired (λ x. Unit {0})
                (λ i x v _ p. visit-IsPaired clock i x v p) 0 list (entry env db j)
                (AllAt-all (λ item. item.id) j (λ x. Unit {0}) (λ x. tt) list) h)
          | inr e ↦ rw e (ground arith)
        ])

  settled-Shows :
      (now : Text) (item : SiebelItem) (o : Option SrRow)
      → item.creator ≡ bound_creator env item
      → Shows env item (settled env now item o)
  unfolding settled inserted_row refreshed_row requeued_row
  settled-Shows now item none h = ground arith
  settled-Shows now item (some r) h = ground (arith, eq_iff r.queue item.queue)

  visit-Shows :
      (clock : ℕ → Text) (item : SiebelItem) (i : ℕ) (x : SiebelItem) (e : Entry)
      → item.creator ≡ bound_creator env item
      → x ≡ item
      → HasSr (Shows env item) (visit env clock i x e)
  unfolding visit
  visit-Shows clock item i x e h same =
      rw same (settled env (clock i) item e.0, refl, settled-Shows (clock i) item e.0 h)

  -- If the list has one item for this number, however often, and its creator is the one that an
  -- update would look up, then after the update the row shows that item in every column.
  pub update_unity-Shows :
      (clock : ℕ → Text) (list : List SiebelItem) (db : Mysql S) (j : Text) (item : SiebelItem)
      → item.creator ≡ bound_creator env item
      → AllAt (λ x. x.id) j (λ x. x ≡ item) list
      → contains j (ids list) ≡ true
      → HasSr (Shows env item) (entry env (update_unity env clock list db) j)
  update_unity-Shows clock list db j item h same listed =
      subst (HasSr (Shows env item)) (sym (entry_listed clock list db j listed)) (
        trace_gives (visit env clock) (λ x. x.id) j (λ e. Unit {0}) (HasSr (Shows env item))
          (λ x. x ≡ item) (λ i x e s _. visit-Shows clock item i x e h s)
          (λ i x e s _. visit-Shows clock item i x e h s) 0 list (entry env db j) same listed tt)

  settled_again :
      (first second : Text) (x : SiebelItem) (o : Option SrRow)
      → x.creator ≡ bound_creator env x
      → settled env second x (some (settled env first x o)) ≡ settled env first x o
  unfolding settled inserted_row refreshed_row requeued_row
  settled_again first second x none h = ground (arith, eq_refl x.queue)
  settled_again first second x (some r) h = ground (arith, eq_iff r.queue x.queue, eq_refl x.queue)

  settled_customer_again :
      (first : Text) (x : SiebelItem) (o : Option SrRow) (c : Option CustomerRow)
      → is_some o ≡ is_some c
      → settled_customer env x (some (settled env first x o)) (settled_customer env x o c)
        ≡ settled_customer env x o c
  unfolding settled_customer customer_row refreshed_customer
  settled_customer_again first x none none h = refl
  settled_customer_again first x none (some c) h = absurd (cc)
  settled_customer_again first x (some r) none h = absurd (cc)
  settled_customer_again first x (some r) (some c) h = refl

  visit_again :
      (first second : ℕ → Text) (i k : ℕ) (x : SiebelItem) (e : Entry)
      → x.creator ≡ bound_creator env x
      → IsPaired e
      → visit env second k x (visit env first i x e) ≡ visit env first i x e
  unfolding visit
  visit_again first second i k x e h paired = ground (
    arith,
    settled_again (first i) (second k) x e.0 h,
    settled_customer_again (first i) x e.0 e.1 paired,
  )

  -- A second update with the same list, at whatever times, changes no row: if the list names no
  -- number twice, its items carry the creators that an update would look up, and both tables had
  -- the number or neither did.
  pub update_unity_again :
      (first second : ℕ → Text) (list : List SiebelItem) (db : Mysql S) (j : Text)
      → Distinct (ids list)
      → AllAt (λ x. x.id) j (λ x. x.creator ≡ bound_creator env x) list
      → IsPaired (entry env db j)
      → entry env (update_unity env second list (update_unity env first list db)) j
        ≡ entry env (update_unity env first list db) j
  update_unity_again first second list db j distinct creators paired =
      entry-update_unity env second list (update_unity env first list db) j
      ∙ (elim (Bool-cases (contains j (ids list))) [
        | inl e ↦ rw e (
            ap (trace (visit env second) (λ x. x.id) j 0 list) (entry_listed first list db j e)
            ∙ trace_again (λ x. x.id) j (visit env first) (visit env second)
                (λ x. x.creator ≡ bound_creator env x) IsPaired
                (λ i k x v q r. visit_again first second i k x v q r) 0 0 list (entry env db j)
                creators distinct paired
            ∙ sym (entry_listed first list db j e))
        | inr e ↦ rw e (unlisted e)
      ])
    where
      unlisted :
          contains j (ids list) ≡ false
          → ◌≡◌ {A = Entry}
              (
                none,
                if is_some (entry env (update_unity env first list db) j).0
                    then none
                    else (entry env (update_unity env first list db) j).1,
              )
              (entry env (update_unity env first list db) j)
      unlisted e = ground (arith, entry-update_unity env first list db j)
