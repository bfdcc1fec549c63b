-- ===== src/Thread/Connections.antt =====
-- The connections of a ServerThread to the remote databases. A thread answers one request, each
-- connection has a name of the thread's own, and a query on one that is not open gives no row.
-- Opening is taken to succeed. The local tables are read on connections that are open.
use kueued.Prelude.{Bool, true, false, [], none, if◌then◌else◌}
use kueued.Sql.{Env}
use kueued.Thread.Routes.{Handler}

pub record Opened : Type 0 where
  pub siebel : Bool
  pub qmon : Bool
  pub report : Bool

abbrev pub none_open : Opened
none_open = record { siebel = false; qmon = false; report = false }

-- openSiebelDB, openQmonDB and openReportDB, where a handler calls them before it asks the database.
-- /srforcr and /userqueue leave the last to getSrForCr, which calls it before its remote query.
unfoldable pub opening : Handler → Opened → Opened
opening Handler.ltsscustomers o = record o { report = true }
opening Handler.srforcr o = record o { report = true }
opening Handler.srinfo o = record o { siebel = true }
opening Handler.srstatus o = record o { siebel = true }
opening Handler.detailed o = record o { siebel = true }
opening Handler.ltssupdate o = record o { report = true }
opening Handler.update_db o = record { siebel = true; qmon = true; report = true }
opening Handler.userqueue o = record o { siebel = true; report = true }
opening Handler.stats o = record o { siebel = true }
opening h o = o

-- What the remote side answers over the open connections.
unfoldable pub within : {D : Type 0} {S : Type 0 → Type 0} → Opened → Env D S → Env D S
within o env =
    let remote = env.remote in
    record env {
      remote = record remote {
        open_srs = if o.siebel then remote.open_srs else [];
        user_queue =
            λ subowner engineer. if o.siebel then remote.user_queue subowner engineer else [];
        sr_details = λ sr. if o.siebel then remote.sr_details sr else none;
        creator_login = λ sr. if o.siebel then remote.creator_login sr else none;
        desc_text = λ sr. if o.siebel then remote.desc_text sr else none;
        sr_stat = λ sr. if o.siebel then remote.sr_stat sr else none;
        sr_title = λ sr. if o.siebel then remote.sr_title sr else none;
        related_sr = λ cr. if o.report then remote.related_sr cr else none;
        chats = if o.qmon then remote.chats else [];
        ltss_customers = if o.report then remote.ltss_customers else [];
        pseudo_queues = if o.qmon then remote.pseudo_queues else [];
      };
    }
