-- ===== src/Tests/Tickets.antt =====
-- A store of tickets whose file cannot be written at first.
use mathlib.Core.List.{lookup}
use perspectivegraph.Base.Maps.{insert}
use perspectivegraph.Base.Sorting.{sort_by, text_before}
use perspectivegraph.Base.{
  String_discrete, true, false, some, none, List, [], ◌∷◌, ◌≡◌, ◌≢◌, refl, ap, arith, is_yes,
}
use perspectivegraph.Ticket.{
  Ticket, is_open, ok, err, not_saved, Codec, Store, new, create, close, open_for_path, opened,
  closed, persist, load, open_new, put_ticket, open_ticket, all_tickets,
}
use perspectivegraph.Ticket.Ledger.{IsLedger}
use perspectivegraph.Ticket.Runs.{Reach, Reach-IsLedger}
use perspectivegraph.Ticket.Again.{create_again}

abbrev plain : Codec (List Ticket)
plain = record { encode = λ ts. some ts; decode = λ ts. some ts; is_empty = λ ts. false }

abbrev empty : Store (List Ticket)
empty = record { has_file = true; by_tenant = []; file = none }

abbrev request : Ticket
request = record {
  id = "";
  tenant = "";
  path_id = "p1";
  title = "";
  route = "web > db";
  owner = "ann";
  status = is_open;
  external_url = "";
  created_at = 0;
  closed_at = none;
}

unsaved : Store (List Ticket)
unsaved = (create plain empty request "aa" 5 false).1

shut : Store (List Ticket)
shut = (close plain unsaved "default" "tk-aa" 9 true).1

-- The failed write is an error, the retry is answered with the ticket, and the file is still not there;
-- once the ticket is closed the path has none open.
failed_write :
    ((create plain empty request "aa" 5 false).0 ≡ err not_saved)
    × ((create plain unsaved request "bb" 6 true).0 ≡ ok (opened request "aa" 5))
    × (unsaved.file ≡ none)
    × (open_for_path plain shut "" "p1" ≡ none)
    × (shut.file ≡ some (closed (opened request "aa" 5) 9 ∷ []))
unfolding unsaved shut create close open_new put_ticket open_ticket open_for_path persist
    all_tickets sort_by text_before lookup insert String_discrete
failed_write = (refl, refl, refl, refl, refl)

start : new plain true none ≡ ok empty
unfolding new load
start = refl

shut_reached : Reach plain shut
unfolding unsaved shut
shut_reached =
    Reach.shut "default" "tk-aa" 9 true
      (Reach.created request "aa" 5 false (Reach.started true none start refl))

Reach-IsLedger_example : IsLedger shut.by_tenant
Reach-IsLedger_example = Reach-IsLedger plain shut shut_reached

some_path : request.path_id ≢ ""
unfolding String_discrete
some_path e = let q : false ≡ true = ap (λ s. is_yes (String_discrete s "")) e in ground (arith, q)

some_owner : request.owner ≢ ""
unfolding String_discrete
some_owner e = let q : false ≡ true = ap (λ s. is_yes (String_discrete s "")) e in ground (arith, q)

create_again_example :
    (x : Ticket) × (open_for_path plain
        (create plain empty request "aa" 5 false).1
        request.tenant
        request.path_id
      ≡ some x)
    × (create plain (create plain empty request "aa" 5 false).1 request "bb" 6 true
        ≡ (ok x, (create plain empty request "aa" 5 false).1))
create_again_example =
    create_again plain empty request request "aa" "bb" 5 6 false true some_path some_owner
      some_owner refl refl
