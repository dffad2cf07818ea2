-- ===== src/NsProxy/Server/Tests.antt =====
-- Runs of the accept loop, and its theorems at concrete events.
use rcp_server.Base.{◌≡◌, refl, List, [], ◌∷◌}
use rcp_server.NsProxy.Server.{
  new_server, accept, back_off, unwind, advance, stop_serving, drained, Event, accepts, fails,
  stops, advances, step, run,
}

opened : Unit {0}
unfolding new_server accept back_off unwind advance stop_serving drained step run
opened = tt

abbrev busy : List Event
busy = accepts ∷ accepts ∷ fails ∷ fails ∷ []

denied : (run (new_server 1) busy).denied_dials ≡ 1
unfolding opened
denied = refl

abbrev drain : List Event
drain = accepts ∷ advances 0 ∷ advances 0 ∷ advances 0 ∷ stops ∷ []
