-- ===== src/Server/Exclusive.antt =====
-- Which run or submission is under way (internal/server), in the states that the server can reach.
use crobe.Common.{Bool, Option, List, String}
use crobe.Server.Handlers.{Server}
use crobe.Server.Destination.{Outside}
use crobe.Server.Requests.{Decoders}
use crobe.Server.Steps.{Start, first_server, unovertaken, Step, steps}

module _ {R : Type 0} (o : Outside) (d : Decoders) (write_to_folder : String → R → Option String)
    (st : Start) where
  abbrev pub reached : List (Step R) → Server R
  reached xs = steps o d write_to_folder xs (first_server o.abs st)

  -- No run or submission is accepted between the test of a handler that loads a playbook and its loading.
  abbrev pub is_calm : List (Step R) → Bool
  is_calm xs = unovertaken o d write_to_folder xs (first_server o.abs st)
