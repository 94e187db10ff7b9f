-- ===== src/Server/Live/Whole.antt =====
-- What the clients see of a whole run (internal/server, director/director.go).
use crobe.Common.{List}
use crobe.Playbook.{Playbook}
use crobe.Server.Types.{AssertionSnapshot}
use crobe.Server.Handlers.{Run, Server}

abbrev pub shown_after : {R : Type 0} → Server R → List AssertionSnapshot
shown_after s = s.state.snapshot.assertions
