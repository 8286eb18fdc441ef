-- ===== src/Examples/Pipe.antt =====
-- A pipe to a peer whose hint names a broker that the router is connected to.
use sidewire.Prelude.{refl, ◌==◌, leb, true, some, [], ◌∷◌, bytes_eq}
use sidewire.Prelude.Action.{◌>>=◌}
use sidewire.Prelude.Dict.{get}
use sidewire.Brokers.Tried.{AllTasks}
use sidewire.Router.{Router}
use sidewire.SmartPipe.{SmartPipe, Walks, PeerHint, connect}
use sidewire.SmartPipe.Reached.{AllAttached, connect-Reached}
use sidewire.Examples.{toy}
use sidewire.Examples.Network.{good_attempt, families, host_a, by_length}
use sidewire.Examples.Routing.{router}

abbrev hint : PeerHint
hint = record { af = some 2; host = some host_a; port = some 1883 }

abbrev pipe : SmartPipe
pipe = record { dest_pub_hex = b'k' ∷ []; clients = []; hint_brokers = hint ∷ [] }

abbrev walks : Walks toy [] leb by_length
walks = record { first = []; second_try = []; retry_enabled = true; hinted = λ i. good_attempt }

abbrev opened : Router
opened =
    (connect toy [] leb by_length (λ af. af == 2) families (2 ∷ []) walks (some 9) pipe router).1

connect-Reached_example :
    AllTasks (0 ∷ []) opened.store × AllAttached (some 9) (0 ∷ []) opened.store
unfolding connect ◌>>=◌ get bytes_eq
connect-Reached_example =
    connect-Reached toy [] leb by_length (λ af. af == 2) families (2 ∷ []) walks (some 9) pipe
      (record pipe { clients = 0 ∷ [] }) router opened refl refl
