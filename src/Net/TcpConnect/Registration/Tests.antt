-- ===== src/Net/TcpConnect/Registration/Tests.antt =====
-- A connection on descriptor 9, beside the one that is registered.
use plugins_engine.Prelude.{ℕ, true, false, ◌≡◌, refl, none, some, [], ◌∷◌, ℕ_discrete}
use plugins_engine.Prelude.Assoc.{lookup}
use plugins_engine.Events.EventCtrl.{writing}
use plugins_engine.Events.EventCtrl.Registry.{entry, interest}
use plugins_engine.Events.EventCtrl.TableKernel.{
  table_kernel-IsReliable, one_event, one_event-Synced,
}
use plugins_engine.Engine.OnFirstUse.Extending.{Any, Extends}
use plugins_engine.Net.TcpConnect.Registration.{
  Bound, construct, enable_connected, destruct, mask_changes,
}
use plugins_engine.Net.TcpConnect.Registration.Lifetime.{connected_event, Gone, destruct-construct}

abbrev bound : Bound ℕ
bound = record { read_event = 1; write_event = 2; error_event = 3; close_event = 4 }

free_nine : entry one_event 9 ≡ none
unfolding lookup ℕ_discrete
free_nine = refl

destruct-construct_example :
    let id = (construct bound 9 one_event).0 in
    let live = enable_connected id (construct bound 9 one_event).1 in
    Extends Any one_event live
    × (entry live 9 ≡ some (some id))
    × (live.store id ≡ connected_event bound 9)
    × (interest live 9 ≡ some 11)
    × Gone 9 one_event (destruct id (mask_changes (writing true ∷ writing false ∷ []) id live))
destruct-construct_example =
    destruct-construct bound 9 (writing true ∷ writing false ∷ []) one_event table_kernel-IsReliable
      one_event-Synced free_nine
