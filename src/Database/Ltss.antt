-- ===== src/Database/Ltss.antt =====
-- The LTSS customers: getLTSScustomersExt, updateLTSScustomers and checkLTSSbyId.
use kueued.Prelude.{Text, ◌==◌, List, [], ◌∷◌, map, value, Bool, ◌≡◌, refl, ap, ◌∙◌}
use kueued.Items.{LtssCustomer}
use kueued.Sql.{Env, Mysql, Remote}

-- one round of the loop over the result
unfoldable pub ltss_item : List Text → LtssCustomer
ltss_item row = record {
  entitlement_name = value 0 row;
  agreement_nr = value 1 row;
  entitlement_id = value 2 row;
  entitlement_end_date = value 3 row;
  agreement_status = value 4 row;
  account_name = value 5 row;
  entitlement_start_date = value 6 row;
  support_program = value 7 row;
  geo = value 8 row;
  oracle_customer_nr = value 9 row;
}

module _ {D : Type 0} {S : Type 0 → Type 0} (env : Env D S) where
  unfoldable pub get_ltss_customers_ext : List LtssCustomer
  unfolding ltss_item
  get_ltss_customers_ext = map ltss_item env.remote.ltss_customers

  -- the loop of INSERTs, each of which stores the item as it is
  insert_ltss : List LtssCustomer → S LtssCustomer → S LtssCustomer
  insert_ltss [] s = s
  insert_ltss (c ∷ list) s = insert_ltss list (env.tables.ltss.append c s)

  unfoldable pub update_ltss_customers : Mysql S → Mysql S
  unfolding insert_ltss
  update_ltss_customers db = record db {
    ltss = insert_ltss (get_ltss_customers_ext) (env.tables.ltss.clear db.ltss);
  }

  unfoldable pub check_ltss_by_id : Text → Mysql S → Bool
  check_ltss_by_id id db = env.tables.ltss.holds (λ c. c.oracle_customer_nr == id) db.ltss

module _ {D : Type 0} {S : Type 0 → Type 0} (env : Env D S) where
  insert_ltss-remote :
      (r : Remote) (list : List LtssCustomer) (s : S LtssCustomer)
      → insert_ltss (record env { remote = r }) list s ≡ insert_ltss env list s
  unfolding insert_ltss
  insert_ltss-remote r [] s = refl
  insert_ltss-remote r (c ∷ list) s = insert_ltss-remote r list (env.tables.ltss.append c s)

  -- Of the remote side an update reads the list of LTSS customers alone.
  pub update_ltss_customers-remote :
      (r : Remote) (db : Mysql S)
      → r.ltss_customers ≡ env.remote.ltss_customers
      → update_ltss_customers (record env { remote = r }) db ≡ update_ltss_customers env db
  unfolding update_ltss_customers get_ltss_customers_ext
  update_ltss_customers-remote r db h =
      ap (λ s. record db { ltss = s })
        (insert_ltss-remote r (map ltss_item r.ltss_customers) (env.tables.ltss.clear db.ltss)
          ∙ ap (λ rows. insert_ltss env (map ltss_item rows) (env.tables.ltss.clear db.ltss)) h)
