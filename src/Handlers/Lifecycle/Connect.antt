-- ===== src/Handlers/Lifecycle/Connect.antt =====
-- What the handler of Connect does to an instance that is loaded.
use slimwhats.Base.{Bool, true, false, not, none, some, Bytes, codes, if◌then◌else◌}
use slimwhats.Handlers.Reply.{Reply, json, fail}
use slimwhats.Handlers.Lifecycle.{Lifecycle, Setting, with_manager}
use slimwhats.Instance.Store
use slimwhats.Instance.Store.{Instance, set_status}
use slimwhats.Instance.Manager.{ManagedClient}

-- The row with the status of a client that is logged in, or not.
abbrev pub synced : Setting → Bytes → Lifecycle → Bool → Lifecycle
synced g id s true =
    with_manager
      (record s.manager {
        db =
            (set_status g.status_fails id Store.connected (some g.weather.now) (some g.weather.now)
              g.weather.now s.manager.db).0;
      })
      s
synced g id s false =
    with_manager
      (record s.manager {
        db = (set_status g.status_fails id Store.pairing none none g.weather.now s.manager.db).0;
      })
      s

-- The three answers, on what the first and the last leave.
abbrev three : Setting → Lifecycle → ManagedClient → Lifecycle → Lifecycle → Lifecycle × Reply Bytes
three g s mc t u =
    if g.is_connected mc.client
    then (t, json 200 (codes "already_connected"))
    else if not (g.is_logged_in mc.client)
    then (s, fail 409 (codes "not_paired"))
    else (u, json 202 (codes "connecting"))
