-- ===== src/Update/Fits/Remote.antt =====
-- What getQmonSrs returns, and what it leaves in CRSR, if the remote rows fit.
use kueued.Prelude.{
  Text, lit, ◌==◌, ℕ, List, [], ◌∷◌, value, Bool, true, false, Option, none, some, All,
  if◌then◌else◌, ◌≡◌, refl, sym, ◌∙◌, arith, Bool-cases, Option-cases, inl, inr,
}
use mathlib.Core.Path.{subst}
use kueued.Items.{SiebelItem, blank_siebel_item}
use kueued.Sql.{Env, Mysql, kept}
use kueued.Sql.Rows.{CrsrRow}
use kueued.QString.Cdata.{is_open}
use kueued.Xml.Scan.{is_plain}
use kueued.Database.Lookups.{get_sr_for_cr, related_or_blank}
use kueued.Database.Cache.{
  answer_row, with_answer, get_known, get_unrelated, get_untitled, get_fresh,
}
use kueued.Database.Siebel.{get_creator}
use kueued.Database.Qmon.{
  qmon_item, qmon_items, get_qmon_srs, plain_item, related_item, own_item, cr_item,
}
use kueued.Update.Fits.{RelatedFits, RemoteFits, is_description, has_no_close}
use kueued.Update.Fits.Phone.{is_open-has_no_close, is_open-phone_or_plain}
use kueued.Update.Fits.Items.{ItemFits, is_plain-get_creator}

module _ {D : Type 0} {S : Type 0 → Type 0} (env : Env D S) (remote : RemoteFits env) (junk : Bool)
    (off : ℕ) where
  -- Every row of CRSR fits.
  abbrev pub CrsrFits : Mysql S → Type 0
  CrsrFits m = (k : Text) (r : CrsrRow) → env.tables.crsr.select k m.crsr ≡ some r → RelatedFits r

  insert-CrsrFits :
      (new : CrsrRow) (m : Mysql S)
      → RelatedFits new
      → CrsrFits m
      → CrsrFits (record m { crsr = env.tables.crsr.insert new m.crsr })
  insert-CrsrFits new m fits h k r e =
      go (env.tables.crsr.key new == k) (env.tables.crsr.select k m.crsr) refl
        (sym (env.tables.crsr.select-insert new k m.crsr) ∙ e)
    where
      go :
          (b : Bool) (o : Option CrsrRow)
          → env.tables.crsr.select k m.crsr ≡ o
          → (if b then some (kept o new) else o) ≡ some r
          → RelatedFits r
      go true none f g = let same : new ≡ r = ground (arith, g) in subst RelatedFits same fits
      go true (some old) f g =
          let same : old ≡ r = ground (arith, g) in subst RelatedFits same (h k old f)
      go false o f g = h k r (f ∙ g)

  get_sr_for_cr-CrsrFits :
      (cr : Text) (m m' : Mysql S) (l : List Text)
      → get_sr_for_cr env cr m ≡ some (l, m')
      → CrsrFits m
      → CrsrFits m'
  get_sr_for_cr-CrsrFits cr m m' l e h = elim (Option-cases (env.tables.crsr.select cr m.crsr)) [
    | inr (r, known) ↦
        let same : m ≡ m' = ground (arith, get_known env cr m r known) in subst CrsrFits same h
    | inl unknown ↦ elim (Option-cases (env.remote.related_sr cr)) [
      | inl lone ↦
          let same : m ≡ m' = ground (arith, get_unrelated env cr m unknown lone) in
          subst CrsrFits same h
      | inr (sr, related) ↦ elim (Option-cases (env.remote.sr_title sr)) [
        | inl untitled ↦ absurd (ground (arith, get_untitled env cr m sr unknown related untitled))
        | inr (row, titled) ↦
            let new : CrsrRow = answer_row env cr sr (value 3 row) (value 0 row) in
            let same : with_answer env new m ≡ m' =
              ground (arith, get_fresh env cr m sr row unknown related titled) in
            let (desc, cust) = remote.titles sr row titled in
            subst CrsrFits same (
              insert-CrsrFits new m
                (record { at_sr = remote.related cr sr related; at_cust = cust; at_bdesc = desc })
                h)
      ]
    ]
  ]

  plain_item-ItemFits :
      (row : List Text) (creator crsr cust desc : Text) (is_cr : Bool)
      → is_plain creator ≡ true
      → ((i : ℕ) → is_description i ≡ false → has_no_close (value i row) ≡ true)
      → ItemFits (record (plain_item env junk off row) {
        creator = creator;
        is_cr = is_cr;
        crsr = crsr;
        crsrcust = cust;
        crsrdesc = desc;
      })
  unfolding plain_item blank_siebel_item
  plain_item-ItemFits row creator crsr cust desc is_cr plain h = record {
    at_id = fits 0 refl;
    at_queue = fits 1 refl;
    at_geo = fits 2 refl;
    at_hours = fits 3 refl;
    at_status = fits 4 refl;
    at_severity = fits 5 refl;
    at_source = fits 6 refl;
    at_respond_via = fits 7 refl;
    at_support_program = fits 11 refl;
    at_support_program_long = fits 12 refl;
    at_routing_product = fits 13 refl;
    at_support_group_routing = fits 14 refl;
    at_int_type = fits 15 refl;
    at_subtype = fits 16 refl;
    at_service_level = fits 17 refl;
    at_category = fits 32 refl;
    at_subowner = fits 37 refl;
    at_creator = plain;
    at_customer = fits 21 refl;
    at_cst_num = fits 36 refl;
    at_contact_firstname = fits 24 refl;
    at_contact_lastname = fits 25 refl;
    at_contact_title = fits 27 refl;
    at_contact_email = fits 26 refl;
    at_contact_phone =
        is_open-phone_or_plain off (value 22 row) (value 23 row) (h 22 refl) (h 23 refl);
    at_onsite_phone =
        is_open-phone_or_plain off (value 29 row) (value 30 row) (h 29 refl) (h 30 refl);
    at_contact_lang = fits 28 refl;
  }
    where
      fits : (i : ℕ) → is_description i ≡ false → is_open 0 (value i row) ≡ true
      fits i e = is_open-has_no_close 0 (value i row) (h i e)

  -- A row of the remote list whose columns fit.
  abbrev RowFits : List Text → Type 0
  RowFits row = (i : ℕ) → is_description i ≡ false → has_no_close (value i row) ≡ true

  related_item-ItemFits :
      (row : List Text) (t : Text × Text × Text)
      → RowFits row
      → ItemFits (related_item env junk off row t)
  unfolding related_item
  related_item-ItemFits row (sr, cust, desc) h =
      plain_item-ItemFits row (get_creator env (value 0 row)) sr cust desc true
        (is_plain-get_creator env remote (value 0 row)) h

  own_item-ItemFits : (row : List Text) → RowFits row → ItemFits (own_item env junk off row)
  unfolding own_item plain_item blank_siebel_item
  own_item-ItemFits row h = plain_item-ItemFits row [] [] [] [] false (unfold is_plain in refl) h

  qmon_item-ItemFits :
      (row : List Text) (m m' : Mysql S) (x : SiebelItem)
      → RowFits row
      → qmon_item env junk off row m ≡ some (x, m')
      → CrsrFits m
      → ItemFits x × CrsrFits m'
  unfolding qmon_item cr_item
  qmon_item-ItemFits row m m' x h e fits = elim (Bool-cases (value 16 row == lit "Collaboration")) [
    | inl cr ↦ elim (Option-cases (get_sr_for_cr env (value 0 row) m)) [
      | inl f ↦ absurd (ground arith)
      | inr ((l, m1), f) ↦ elim (Option-cases (related_or_blank l)) [
        | inl g ↦ absurd (ground arith)
        | inr (t, g) ↦
            let item : related_item env junk off row t ≡ x = ground arith in
            let same : m1 ≡ m' = ground arith in
            (
              subst ItemFits item (related_item-ItemFits row t h),
              subst CrsrFits same (get_sr_for_cr-CrsrFits (value 0 row) m m1 l f fits),
            )
      ]
    ]
    | inr sr ↦
        let item : own_item env junk off row ≡ x = ground arith in
        let same : m ≡ m' = ground arith in
        (subst ItemFits item (own_item-ItemFits row h), subst CrsrFits same fits)
  ]

  qmon_items-ItemFits :
      (rows : List (List Text)) (m m' : Mysql S) (xs : List SiebelItem)
      → All RowFits rows
      → qmon_items env junk off rows m ≡ some (xs, m')
      → CrsrFits m
      → All ItemFits xs × CrsrFits m'
  unfolding qmon_items
  qmon_items-ItemFits [] m m' xs h e fits =
      let items : [] ≡ xs = ground arith in
      let same : m ≡ m' = ground arith in (subst (All ItemFits) items tt, subst CrsrFits same fits)
  qmon_items-ItemFits (row ∷ rows) m m' xs h e fits =
      elim (Option-cases (qmon_item env junk off row m)) [
        | inl f ↦ absurd (ground arith)
        | inr ((x, m1), f) ↦ elim (Option-cases (qmon_items env junk off rows m1)) [
          | inl g ↦ absurd (ground arith)
          | inr ((rest, m2), g) ↦
              let items : x ∷ rest ≡ xs = ground arith in
              let same : m2 ≡ m' = ground arith in
              let (first, fits1) = qmon_item-ItemFits row m m1 x h.0 f fits in
              let (others, fits2) = qmon_items-ItemFits rows m1 m2 rest h.1 g fits1 in
              (subst (All ItemFits) items (first, others), subst CrsrFits same fits2)
        ]
      ]

  -- The items of the SR list fit, and so do the rows of CRSR that are looked up for them.
  pub get_qmon_srs-ItemFits :
      (m m' : Mysql S) (xs : List SiebelItem)
      → get_qmon_srs env junk off m ≡ some (xs, m')
      → CrsrFits m
      → All ItemFits xs × CrsrFits m'
  unfolding get_qmon_srs
  get_qmon_srs-ItemFits m m' xs e fits =
      qmon_items-ItemFits env.remote.open_srs m m' xs remote.open_srs e fits
